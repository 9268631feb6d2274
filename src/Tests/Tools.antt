-- ===== src/Tests/Tools.antt =====
-- The theorems on the tools at concrete inputs. Files are a function from paths.
use ticket_bot.Prelude.{
  ℕ, ◌≡◌, ◌≢◌, refl, true, false, &&-true, ◌==◌, Option, none, some, is_some, Text, codes, text_eq,
  text_eq_sound, text_in, Bool-cases, inl, inr, if◌then◌else◌, List, [], ◌∷◌, ◌++◌, starts_with,
  split_on,
}
use ticket_bot.Prelude.Int.{pos}
use ticket_bot.Prelude.Outcomes.{Outcome, ok, raised, adapter_error}
use ticket_bot.Predicate.Values.{Fields, str, field, end}
use ticket_bot.Executors.Paths.{FilePath, is_inside, jail, relative_to, is_reserved}
use ticket_bot.Executors.Paths.Inside.{IsJailed, jail-IsJailed}
use ticket_bot.Executors.Snapshots.{path_eq}
use ticket_bot.Executors.Edits.{count}
use ticket_bot.Executors.Tools.Os.{Os, ToolContext, Desk}
use ticket_bot.Executors.Tools.Args.{refused}
use ticket_bot.Executors.Tools.Files.{edited}
use ticket_bot.Executors.Tools.Edited.{edited-once}
use ticket_bot.Executors.Tools.Dispatch.{dispatch}
use ticket_bot.Executors.Tools.Frame.{Documented}
use ticket_bot.Executors.Tools.Allowed.{IsReadOnly, dispatch-read_only, dispatch-confined}
use ticket_bot.Tests.Samples.{py}

abbrev Disk : Type 0
Disk = FilePath → Option (List ℕ)

abbrev put : FilePath → List ℕ → Disk → Disk
put p bytes disk q = if path_eq p q then some bytes else disk q

abbrev read : Disk → FilePath → Outcome (List ℕ)
read disk p = found (disk p)
  where
    found : Option (List ℕ) → Outcome (List ℕ)
    found none = raised (adapter_error (codes "no such file"))
    found (some bytes) = ok bytes

-- Nothing is a link, and every directory is there.
abbrev os : Os ℕ Disk
os = record {
  python = py;
  links = record { resolve = λ disk p. p; exists = λ disk p. true };
  is_file = λ disk p. is_some (disk p);
  is_dir = λ disk p. true;
  read_bytes = read;
  entries = λ disk p. ok [];
  mkdir = λ p disk. (ok tt, disk);
  write = λ p bytes disk. (ok tt, put p bytes disk);
  encode = λ t. ok t;
  decode = λ bytes. bytes;
  to_int = λ v. ok (pos 0);
  subprocess = λ argv cwd timeout disk. (raised (adapter_error []), disk);
  runtime = none;
  redact = λ t. t;
  message = λ e. codes "refused";
}

abbrev workspace : FilePath
workspace = codes "w" ∷ []

abbrev ctx_of : List Text → ToolContext
ctx_of allow = record {
  workspace = workspace;
  artifacts_dir = codes "r" ∷ [];
  allow = allow;
  max_read_bytes = 100;
  max_write_bytes = 100;
  shell_timeout_s = 10;
  work_item_text = codes "the ticket";
}

abbrev passwd : FilePath
passwd = codes "etc" ∷ codes "passwd" ∷ []

abbrev desk : Desk Disk
desk = record { outside = put passwd (codes "root") (λ p. none); files_written = [] }

abbrev content : Disk → FilePath → Option (List ℕ)
content disk p = disk p

abbrev args : Fields ℕ
args =
    field (codes "path") (str (codes "/etc/passwd"))
      (field (codes "content") (str (codes "me")) end)

path_eq_sound : (p q : FilePath) → path_eq p q ≡ true → p ≡ q
unfolding path_eq
path_eq_sound [] [] h = refl
path_eq_sound [] (b ∷ q) h = cc
path_eq_sound (a ∷ p) [] h = cc
path_eq_sound (a ∷ p) (b ∷ q) h =
    let (same, rest) = &&-true (text_eq a b) (path_eq p q) h in
    cc (text_eq_sound a b same, path_eq_sound p q rest)

documented : (ctx : ToolContext) → Documented os ctx content
documented ctx = record {
  mkdir_keeps = λ p q x. refl;
  write_keeps = written;
  screenshot_keeps = λ runtime q x h. cc;
}
  where
    written : (p q : FilePath) (bytes : List ℕ) (x : Disk) → p ≢ q → put p bytes x q ≡ x q
    written p q bytes x apart = elim (Bool-cases (path_eq p q)) [
      | inl e ↦ elim (apart (path_eq_sound p q e)) [ ]
      | inr e ↦ rw e refl
    ]

abbrev writing : ToolContext
writing = ctx_of (codes "fs.write" ∷ [])

dispatch-confined_example :
    content (dispatch os writing (codes "fs_write") args desk).1.outside passwd
    ≡ content desk.outside passwd
unfolding text_in text_eq is_inside is_reserved relative_to
dispatch-confined_example =
    dispatch-confined os writing content (codes "fs_write") args desk passwd (documented writing)
      refl refl (λ name h. cc)

abbrev reading : ToolContext
reading = ctx_of (codes "fs.read" ∷ codes "source.read" ∷ [])

reading_only : IsReadOnly os reading
unfolding text_in text_eq
reading_only = record { no_write = refl; no_edit = refl; no_shell = refl; no_screenshot = refl }

dispatch-read_only_example : (dispatch os reading (codes "fs_write") args desk).1 ≡ desk
dispatch-read_only_example = dispatch-read_only os reading (codes "fs_write") args desk reading_only

abbrev edited_text : Text
edited_text = codes "let x = 1"

edited-once_example :
    (count edited_text (codes "x") ≡ 1
      → (before : Text) × (after : Text) × (edited_text ≡ before ++ (codes "x" ++ after))
        × (edited (codes "x") (codes "y") false edited_text ≡ ok (before ++ (codes "y" ++ after))))
    × ((count edited_text (codes "x") == 1) ≡ false
        → (message : Text) × (edited (codes "x") (codes "y") false edited_text ≡ refused message))
edited-once_example = edited-once (codes "x") (codes "y") edited_text

jail-IsJailed_example :
    IsJailed os.links desk.outside workspace
      (codes "src/a.py")
      (codes "w" ∷ codes "src" ∷ codes "a.py" ∷ [])
unfolding jail text_eq starts_with split_on
jail-IsJailed_example =
    jail-IsJailed os.links desk.outside workspace (codes "src/a.py")
      (codes "w" ∷ codes "src" ∷ codes "a.py" ∷ []) jailed
  where
    jailed :
        jail os.links desk.outside workspace (codes "src/a.py")
        ≡ ok (codes "w" ∷ codes "src" ∷ codes "a.py" ∷ [])
    jailed = refl
