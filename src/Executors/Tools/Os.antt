-- ===== src/Executors/Tools/Os.antt =====
-- What the tools take from outside: the file system, processes, the runtime, UTF-8 and `int`; and the
-- state that they change.
use ticket_bot.Prelude.{
  ℕ, zero, suc, ◌+◌, ◌/◌, ◌%◌, ◌==◌, Bool, Option, Text, if◌then◌else◌, List, [], ◌∷◌,
}
use ticket_bot.Prelude.Int.{ℤ, pos, negsuc}
use ticket_bot.Prelude.Outcomes.{Exn, Outcome, ok, raised}
use ticket_bot.Predicate.Values.{Value, Python}
use ticket_bot.Executors.Paths.{FilePath, Links}

-- A call that may raise and that may have changed the outside world when it does.
abbrev pub Call : Type 0 → Type 0 → Type 0
Call X A = X → Outcome A × X

-- `exit_code`, `stdout` and `stderr` of what a runtime answers.
pub record ExecOut : Type 0 where
  pub exit_code : ℤ
  pub stdout : Text
  pub stderr : Text

-- What becomes of a process; its output is decoded.
pub data Proc : Type 0 where
  completed : ExecOut → Proc
  timed_out : Text → Text → Proc
  not_started : Proc

pub record Runtime (X : Type 0) : Type 0 where
  pub can_exec : Bool
  pub exec : List Text → FilePath → ℤ → Call X ExecOut
  pub screenshot : Call X (Option (List ℕ))

-- Bytes are numbers. `entries` is the content of a directory, each name with whether it is one.
pub record Os (N X : Type 0) : Type 0 where
  pub python : Python N
  pub links : Links X
  pub is_file : X → FilePath → Bool
  pub is_dir : X → FilePath → Bool
  pub read_bytes : X → FilePath → Outcome (List ℕ)
  pub entries : X → FilePath → Outcome (List (Text × Bool))
  pub mkdir : FilePath → Call X (Unit {0})
  pub write : FilePath → List ℕ → Call X (Unit {0})
  pub encode : Text → Outcome (List ℕ)
  pub decode : List ℕ → Text
  pub to_int : Value N → Outcome ℤ
  pub subprocess : List Text → FilePath → ℤ → Call X Proc
  pub runtime : Option (Runtime X)
  pub redact : Text → Text
  pub message : Exn → Text

-- `ToolContext`, without the runtime, the log and the list of written files.
pub record ToolContext : Type 0 where
  pub workspace : FilePath
  pub artifacts_dir : FilePath
  pub allow : List Text
  pub max_read_bytes : ℕ
  pub max_write_bytes : ℕ
  pub shell_timeout_s : ℕ
  pub work_item_text : Text

-- What the tools change: the outside world and `ctx.files_written`.
pub record Desk (X : Type 0) : Type 0 where
  pub outside : X
  pub files_written : List FilePath

-- A handler at work.
abbrev pub Act : Type 0 → Type 0 → Type 0
Act X A = Desk X → Outcome A × Desk X

module _ {X A B : Type 0} where
  abbrev pub continue : Outcome A × Desk X → (A → Act X B) → Outcome B × Desk X
  continue (ok a, s) f = f a s
  continue (raised e, s) f = (raised e, s)

  infixl 5 ◌>>=◌
  unfoldable pub ◌>>=◌ : Act X A → (A → Act X B) → Act X B
  a >>= f = λ s. continue (a s) f

module _ {X A : Type 0} where
  abbrev pub pure : A → Act X A
  pure a s = (ok a, s)

  abbrev pub fail : Exn → Act X A
  fail e s = (raised e, s)

  -- A computation that reads the outside world.
  abbrev pub look : (X → Outcome A) → Act X A
  look f s = (f s.outside, s)

  abbrev pub call : Call X A → Act X A
  call c s = let (r, x) = c s.outside in (r, record s { outside = x })

-- `ctx.files_written.append(path)`
abbrev pub note_written : {X : Type 0} → FilePath → Act X (Unit {0})
note_written {X} p s = (ok tt, record s { files_written = append_path s.files_written })
  where
    append_path : List FilePath → List FilePath
    append_path [] = p ∷ []
    append_path (q ∷ qs) = q ∷ append_path qs

-- `str(n)`; there are at most as many digits as the fuel.
unfoldable pub digits : ℕ → ℕ → Text → Text
digits zero n rest = rest
digits (suc fuel) n rest =
    let more = digits fuel (n / 10) ((48 + n % 10) ∷ rest) in
    if n / 10 == 0 then (48 + n % 10) ∷ rest else more

unfoldable pub show_nat : ℕ → Text
unfolding digits
show_nat n = digits (suc n) n []

unfoldable pub show_int : ℤ → Text
unfolding show_nat
show_int (pos n) = show_nat n
show_int (negsuc n) = 45 ∷ show_nat (suc n)
