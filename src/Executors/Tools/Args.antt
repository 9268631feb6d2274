-- ===== src/Executors/Tools/Args.antt =====
-- What the file tools make of their arguments and of the lines and names that they answer.
use ticket_bot.Prelude.{
  ℕ, zero, suc, ◌+◌, ◌-◌, Bool, false, Option, none, some, Text, codes, if◌then◌else◌, List, [],
  ◌∷◌, ◌++◌, length, join, split_on, text_before_or_eq,
}
use ticket_bot.Prelude.Int.{ℤ, pos, negsuc, sub_ℕ, pos_part}
use ticket_bot.Prelude.Outcomes.{Outcome, ok, raised, tool_error, ◌>>=◌}
use ticket_bot.Predicate.Values.{Value, Fields, null, get_field, as_text, truthy}
use ticket_bot.Executors.Paths.{FilePath, jailed, reject_reserved}
use ticket_bot.Executors.Tools.Os.{Os, ToolContext, show_nat}

abbrev pub refused : {A : Type 0} → Text → Outcome A
refused t = raised (tool_error t)

-- The items from `start` on, up to and without `stop`.
unfoldable pub items_between : {A : Type 0} → ℕ → ℕ → List A → List A
items_between start stop [] = []
items_between zero zero (x ∷ xs) = []
items_between zero (suc stop) (x ∷ xs) = x ∷ items_between zero stop xs
items_between (suc start) stop (x ∷ xs) = items_between start (stop - 1) xs

-- `xs[start:stop]` for `start >= 0`; a negative stop counts from the end.
abbrev pub slice : {A : Type 0} → ℕ → ℤ → List A → List A
slice start (pos stop) xs = items_between start stop xs
slice start (negsuc k) xs = items_between start (length xs - suc k) xs

-- f"{i + 1}\t{line}" for each line, from `i` on.
unfoldable pub number_lines : ℕ → List Text → List Text
number_lines i [] = []
number_lines i (line ∷ lines) = (show_nat (i + 1) ++ (9 ∷ line)) ∷ number_lines (suc i) lines

-- `start + n`
abbrev pub add_to : ℕ → ℤ → ℤ
add_to start (pos n) = pos (start + n)
add_to start (negsuc n) = sub_ℕ start (suc n)

-- `sorted(entries, key=lambda p: p.name)`
unfoldable pub insert_entry : Text × Bool → List (Text × Bool) → List (Text × Bool)
unfolding text_before_or_eq
insert_entry e [] = e ∷ []
insert_entry (s, d) ((t, b) ∷ es) =
    let rest = insert_entry (s, d) es in
    if text_before_or_eq s t then (s, d) ∷ (t, b) ∷ es else (t, b) ∷ rest

unfoldable pub sort_entries : List (Text × Bool) → List (Text × Bool)
unfolding insert_entry
sort_entries [] = []
sort_entries (e ∷ es) = insert_entry e (sort_entries es)

unfoldable pub entry_names : List (Text × Bool) → List Text
entry_names [] = []
entry_names ((name, is_dir) ∷ es) = (name ++ (if is_dir then codes "/" else [])) ∷ entry_names es

abbrev pub max_list_entries : ℕ
max_list_entries = 500

abbrev pub need : {A : Type 0} → Text → Option A → Outcome A
need message none = refused message
need message (some a) = ok a

-- The numbered lines of a text, where an offset or a limit is given.
abbrev pub cut_lines : Text → Option ℤ → Option ℤ → Text
cut_lines text none none = text
cut_lines text offset limit =
    let lines = split_on 10 text in
    let start = start_of offset in
    join (10 ∷ []) (number_lines start (slice start (stop_of start (length lines) limit) lines))
  where
    start_of : Option ℤ → ℕ
    start_of none = 0
    start_of (some n) = pos_part n

    stop_of : ℕ → ℕ → Option ℤ → ℤ
    stop_of start len none = pos len
    stop_of start len (some n) = add_to start n

-- `args.get(key)`, where it is a text.
abbrev pub arg_text : {N : Type 0} → Option (Value N) → Option Text
arg_text none = none
arg_text (some v) = as_text v

unfoldable pub text_arg : {N : Type 0} → Text → Fields N → Option Text
unfolding get_field
text_arg key args = arg_text (get_field key args)

module _ {N X : Type 0} (os : Os N X) where
  -- `int(v)` where the argument is given and is not None.
  abbrev pub given_int : Option (Value N) → Outcome (Option ℤ)
  given_int none = ok none
  given_int (some null) = ok none
  given_int (some v) = os.to_int v >>= λ n. ok (some n)

  -- `args.get("path") or "."`, which has to be a text.
  abbrev pub or_dot : Option (Value N) → Outcome Text
  unfolding truthy
  or_dot none = ok (codes ".")
  or_dot (some v) =
      if truthy os.python v
      then need (codes "fs.list requires 'path' to be a string") (as_text v)
      else ok (codes ".")

  -- `bool(args.get(key, False))`
  abbrev pub flag : Option (Value N) → Bool
  unfolding truthy
  flag none = false
  flag (some v) = truthy os.python v

  -- `_jailed(ctx, rel)`
  unfoldable pub jail_path : ToolContext → X → Text → Outcome FilePath
  unfolding jailed
  jail_path ctx x rel = jailed os.links x ctx.workspace (some ctx.artifacts_dir) rel

  -- `_reject_reserved_artifact(ctx, path, label)`
  unfoldable pub check_reserved : ToolContext → X → FilePath → Outcome (Unit {0})
  unfolding reject_reserved
  check_reserved ctx x path = reject_reserved os.links x (some ctx.artifacts_dir) path
