-- ===== src/Engine/Lock/Owner.antt =====
-- Whose lock `acquire` and `release` touch.
use ticket_bot.Prelude.{
  ℕ, ◌≡◌, refl, ap, ◌∙◌, Bool, true, false, Option, none, some, Text, text_eq, if◌then◌else◌,
  Bool-cases, inl, inr,
}
use ticket_bot.Engine.Lock.{
  Holder, LockFile, absent, unreadable, held, acquired, lock_held, LockState, is_locked, read,
  is_stale, create, acquire, is_own, release_owned, release,
}

-- The file is that of another run, or of none.
abbrev pub is_foreign : Text → LockFile → Bool
is_foreign id (held h) = if text_eq h.run_id id then false else true
is_foreign id _ = true

-- Without `force`, a lock is acquired exactly where the file is absent; a lock that is held is left as
-- it is, and so is what the process owns.
pub acquire-if :
    (probe : ℕ → Bool) (me : Holder) (now stale_after : ℕ) (s : LockState)
    → ((is_locked s.file ≡ false)
        → acquire probe me false now stale_after s
          ≡ (acquired, record { file = held me; owned = some me.run_id }))
      × ((is_locked s.file ≡ true)
          → acquire probe me false now stale_after s
            ≡ (lock_held (read s.file) (is_stale probe now stale_after (read s.file)), s))
unfolding acquire create is_locked read
acquire-if probe me now stale_after s = by_file s.file refl
  where
    by_file :
        (f : LockFile)
        → s.file ≡ f
        → ((is_locked s.file ≡ false)
            → acquire probe me false now stale_after s
              ≡ (acquired, record { file = held me; owned = some me.run_id }))
          × ((is_locked s.file ≡ true)
              → acquire probe me false now stale_after s
                ≡ (lock_held (read s.file) (is_stale probe now stale_after (read s.file)), s))
    by_file absent e = (λ h. rw e refl, λ h. cc)
    by_file unreadable e = (λ h. cc, λ h. rw e refl)
    by_file (held x) e = (λ h. cc, λ h. rw e refl)

-- What is left of a file that a run lets go: the file of any other run stays.
abbrev pub left_by : Text → LockFile → LockFile
left_by id f = if is_own id (read f) then absent else f

-- A release removes the file where it names the run that the object owns, and leaves every other file
-- alone; an object that owns nothing leaves the file alone; afterwards the object owns nothing.
pub release-foreign :
    (s : LockState)
    → ((release s).owned ≡ none)
      × ((id : Text)
          → s.owned ≡ some id
          → (is_foreign id s.file ≡ true → (release s).file ≡ s.file)
            × ((h : Holder)
                → s.file ≡ held h
                → text_eq h.run_id id ≡ true
                → (release s).file ≡ absent))
      × (s.owned ≡ none → (release s).file ≡ s.file)
unfolding release release_owned read
release-foreign s = by_owned s.owned refl
  where
    kept :
        (id : Text) (f : LockFile)
        → is_foreign id f ≡ true
        → (if is_own id (read f) then absent else f) ≡ f
    kept id absent e = refl
    kept id unreadable e = refl
    kept id (held h) e = elim (Bool-cases (text_eq h.run_id id)) [ inl t ↦ cc | inr t ↦ rw t refl ]

    by_owned :
        (o : Option Text)
        → s.owned ≡ o
        → ((release_owned o s).owned ≡ none)
          × ((id : Text)
              → o ≡ some id
              → (is_foreign id s.file ≡ true → (release_owned o s).file ≡ s.file)
                × ((h : Holder)
                    → s.file ≡ held h
                    → text_eq h.run_id id ≡ true
                    → (release_owned o s).file ≡ absent))
          × (o ≡ none → (release_owned o s).file ≡ s.file)
    by_owned none e = (e, λ id h. cc, λ h. refl)
    by_owned (some x) e = (
      refl,
      λ id o. (
        λ foreign. kept x s.file (ap (λ t. is_foreign t s.file) (same o) ∙ foreign),
        λ h at named.
            ap (λ t. if is_own t (read s.file) then absent else s.file) (same o)
            ∙ ap (λ f. if is_own id (read f) then absent else f) at
            ∙ ap (λ b. if b then absent else held h) named,
      ),
      λ h. cc,
    )
      where
        same : {a b : Text} → some a ≡ some b → a ≡ b
        same h = cc
