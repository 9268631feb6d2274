-- ===== src/Engine/Entry/Swept.antt =====
-- What a sweep of `poll` does.
use ticket_bot.Prelude.{
  ℕ, suc, ◌≡◌, refl, ap, sym, ◌∙◌, true, false, Option, none, Text, Bool-cases, inl, inr,
  if◌then◌else◌, List, [], ◌∷◌,
}
use ticket_bot.Prelude.Outcomes.{Outcome, ok, raised}
use ticket_bot.Core.Run.{Run}
use ticket_bot.Core.WorkItem.{WorkItem, key}
use ticket_bot.Engine.Lock.{LockFile, is_locked}
use ticket_bot.Engine.Entry.{
  Office, Desk, Swept, is_full, visit, add_run, is_lock_held, after_start, on_visit, start_run,
  sweep,
}
use ticket_bot.Engine.Entry.Released.{IsQuiet, start_run-locks}

module _ {N X : Type 0} (desk : Desk N X) where
  -- The items that are free in these locks.
  unfoldable pub free_items : (Text → LockFile) → List (WorkItem N) → List (WorkItem N)
  unfolding is_locked
  free_items locks [] = []
  free_items locks (item ∷ items) =
      let rest = free_items locks items in
      if is_locked (locks (key item)) then rest else item ∷ rest

  -- Two ways to go on that agree from every state with these locks.
  Agree : (Text → LockFile) → (ℕ → Office X → Swept desk) → (ℕ → Office X → Swept desk) → Type 0
  Agree locks f g =
      (count : ℕ) (s : Office X) → ((k : Text) → s.locks k ≡ locks k) → f count s ≡ g count s

  after_start-Agree :
      (locks : Text → LockFile) (item : WorkItem N) (count : ℕ) (f g : ℕ → Office X → Swept desk)
      (o : Outcome Run × Office X)
      → Agree locks f g
      → ((k : Text) → o.1.locks k ≡ locks k)
      → after_start desk item count f o ≡ after_start desk item count g o
  unfolding Agree
  after_start-Agree locks item count f g (ok run, s) agree at =
      ap (add_run desk run) (agree (suc count) _ at)
  after_start-Agree locks item count f g (raised e, s) agree at =
      elim (Bool-cases (is_lock_held desk e)) [
        | inl held ↦ rw held (agree count s at)
        | inr other ↦ rw other refl
      ]

  full_sweep :
      IsQuiet desk
      → (max_items : Option ℕ) (items : List (WorkItem N)) (count : ℕ) (s : Office X)
      → is_full desk max_items count ≡ true
      → sweep desk max_items items count s ≡ (([], none), s)
  unfolding sweep on_visit visit
  full_sweep quiet max_items [] count s full = refl
  full_sweep quiet max_items (item ∷ items) count s full = rw (quiet s.locks s.outside, full) refl

  pass_by :
      IsQuiet desk
      → (max_items : Option ℕ) (item : WorkItem N) (items : List (WorkItem N)) (count : ℕ)
        (s : Office X)
      → is_full desk max_items count ≡ false
      → is_locked (s.locks (key item)) ≡ true
      → sweep desk max_items (item ∷ items) count s ≡ sweep desk max_items items count s
  unfolding sweep on_visit visit
  pass_by quiet max_items item items count s room taken =
      rw (quiet s.locks s.outside, room, taken) refl

  start_next :
      IsQuiet desk
      → (max_items : Option ℕ) (item : WorkItem N) (items : List (WorkItem N)) (count : ℕ)
        (s : Office X)
      → is_full desk max_items count ≡ false
      → is_locked (s.locks (key item)) ≡ false
      → sweep desk max_items (item ∷ items) count s
        ≡ after_start desk item count (sweep desk max_items items) (start_run desk item false s)
  unfolding sweep on_visit visit
  start_next quiet max_items item items count s room free =
      rw (quiet s.locks s.outside, room, free) refl

  sweep-Agree :
      IsQuiet desk
      → (max_items : Option ℕ) (locks : Text → LockFile) (items : List (WorkItem N))
      → Agree locks (sweep desk max_items items) (sweep desk max_items (free_items locks items))
  unfolding Agree free_items
  sweep-Agree quiet max_items locks [] count s at = refl
  sweep-Agree quiet max_items locks (item ∷ items) count s at =
      elim (Bool-cases (is_full desk max_items count)) [
        | inl full ↦
            full_sweep quiet max_items (item ∷ items) count s full
            ∙ sym (full_sweep quiet max_items _ count s full)
        | inr room ↦ elim (Bool-cases (is_locked (locks (key item)))) [
          | inl taken ↦
              pass_by quiet max_items item items count s room (ap is_locked (at (key item)) ∙ taken)
              ∙ rw taken (sweep-Agree quiet max_items locks items count s at)
          | inr free ↦
              let free_now = ap is_locked (at (key item)) ∙ free in
              start_next quiet max_items item items count s room free_now
              ∙ after_start-Agree locks item count _ _ _ (sweep-Agree quiet max_items locks items)
                  (λ k. start_run-locks desk quiet item s k ∙ at k)
              ∙ sym (
                  rw free (
                    start_next quiet max_items item (free_items locks items) count s room free_now))
        ]
      ]

  -- Where no other process changes a lock during it, a sweep is that over the items that are free when
  -- it begins: an item whose lock another run holds
  -- changes nothing, neither the runs nor the count nor the state, and a run leaves the locks as they
  -- were for those behind it.
  pub sweep-free_items :
      IsQuiet desk
      → (max_items : Option ℕ) (items : List (WorkItem N)) (count : ℕ) (s : Office X)
      → sweep desk max_items items count s ≡ sweep desk max_items (free_items s.locks items) count s
  unfolding Agree
  sweep-free_items quiet max_items items count s =
      sweep-Agree quiet max_items s.locks items count s (λ k. refl)
