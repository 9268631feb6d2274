-- ===== src/Config/Schema.antt =====
-- The blocks of a profile, ticketbot/config/schema.py, that the banner and the redactor read.
use ticket_bot.Prelude.{Option, none, some, Text, Dict}
use ticket_bot.Predicate.Values.{Value, Fields, get_field}

-- `type`, and `options()`.
pub record AdapterConfig (N : Type 0) : Type 0 where
  pub type : Text
  pub options : Fields N

pub record ModelConfig (N : Type 0) : Type 0 where
  pub default : Text
  pub providers : Dict (AdapterConfig N)

pub record ExecutorConfig (N : Type 0) : Type 0 where
  pub default : Text
  pub kinds : Dict (AdapterConfig N)

module _ {N : Type 0} where
  abbrev pub value_or : Option (Value N) → Value N → Value N
  value_or none default = default
  value_or (some v) default = v

  -- `opt`
  unfoldable pub opt : AdapterConfig N → Text → Value N → Value N
  opt cfg key default = value_or (get_field key cfg.options) default
