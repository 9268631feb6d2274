-- ===== src/Models.antt =====
-- ticketbot/models/base.py: what is said to a provider of models and what it answers, and the prices.
use ticket_bot.Prelude.{
  ℕ, ◌+◌, ◌*◌, Bool, Option, none, some, Text, codes, List, [], ◌∷◌, ◌++◌, Dict, lookup,
}
use ticket_bot.Predicate.Values.{Fields}

-- Money in micro-dollars.
pub record Usage : Type 0 where
  pub input_tokens : ℕ
  pub output_tokens : ℕ
  pub cache_read_tokens : ℕ
  pub cache_write_tokens : ℕ
  pub cost_usd : ℕ

-- `Usage()`
abbrev pub no_usage : Usage
no_usage = record {
  input_tokens = 0;
  output_tokens = 0;
  cache_read_tokens = 0;
  cache_write_tokens = 0;
  cost_usd = 0;
}

-- `Usage.__add__`
abbrev pub add_usage : Usage → Usage → Usage
add_usage a b = record {
  input_tokens = a.input_tokens + b.input_tokens;
  output_tokens = a.output_tokens + b.output_tokens;
  cache_read_tokens = a.cache_read_tokens + b.cache_read_tokens;
  cache_write_tokens = a.cache_write_tokens + b.cache_write_tokens;
  cost_usd = a.cost_usd + b.cost_usd;
}

pub record ToolCall (N : Type 0) : Type 0 where
  pub id : Text
  pub name : Text
  pub input : Fields N

pub data Block (N : Type 0) : Type 0 where
  text_block : Text → Block N
  tool_use : ToolCall N → Block N
  tool_result : Text → Text → Bool → Block N

pub data Msg (N : Type 0) : Type 0 where
  prompt_msg : Text → Msg N
  user_msg assistant_msg : List (Block N) → Msg N

pub record ProviderMessage (N : Type 0) : Type 0 where
  pub text : Text
  pub tool_calls : List (ToolCall N)
  pub usage : Usage

-- A pair of `PRICING`: dollars for a million tokens, which are micro-dollars for one.
pub record Rates : Type 0 where
  pub input_rate : ℕ
  pub output_rate : ℕ

abbrev pub rates : ℕ → ℕ → Rates
rates input output = record { input_rate = input; output_rate = output }

-- `PRICING`
abbrev pub pricing : Dict Rates
pricing =
    (codes "claude-fable-5", rates 10 50)
    ∷ (codes "claude-opus-5", rates 5 25)
    ∷ (codes "claude-opus-4-8", rates 5 25)
    ∷ (codes "claude-opus-4-7", rates 5 25)
    ∷ (codes "claude-opus-4-6", rates 5 25)
    ∷ (codes "claude-sonnet-5", rates 2 10)
    ∷ (codes "claude-sonnet-4-6", rates 3 15)
    ∷ (codes "claude-haiku-4-5", rates 1 5)
    ∷ []

-- The cost at some rates, in hundredths of a micro-dollar: reads of the cache cost a tenth of the input
-- rate, writes five quarters.
abbrev pub cost_at : Option Rates → Usage → ℕ
cost_at none usage = 0
cost_at (some r) usage =
    100 * (usage.input_tokens * r.input_rate)
    + (100 * (usage.output_tokens * r.output_rate)
        + (10 * (usage.cache_read_tokens * r.input_rate)
            + 125 * (usage.cache_write_tokens * r.input_rate)))

-- `estimate_cost`
unfoldable pub estimate_cost : Text → Usage → ℕ
unfolding lookup
estimate_cost model usage = cost_at (lookup model pricing) usage

-- `blocks_to_text` of a list of blocks.
unfoldable pub blocks_to_text : {N : Type 0} → List (Block N) → Text
blocks_to_text [] = []
blocks_to_text (text_block t ∷ bs) = t ++ blocks_to_text bs
blocks_to_text (_ ∷ bs) = blocks_to_text bs
