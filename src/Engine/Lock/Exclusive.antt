-- ===== src/Engine/Lock/Exclusive.antt =====
-- At most one process owns the lock, where none runs with `force`, and its owner can let it go.
use ticket_bot.Prelude.{
  ℕ, ◌≡◌, refl, ap, sym, ◌∙◌, Bool, true, false, subst, ==_iff, text_eq_refl, Bool-cases, inl, inr,
  ◌==◌, if◌then◌else◌,
}
use ticket_bot.Engine.Lock.{Holder, LockFile, absent, unreadable, held, is_locked, read, is_own}
use ticket_bot.Engine.Lock.Interleaved.{
  Pc, idle, opening, created, owning, unlinking, Shared, Move, enter, break_in, open_new, open_busy,
  write, look, unlink, stop, set_pc, Turn, turn, Reach, start, later,
}

abbrev pub is_active : Pc → Bool
is_active idle = false
is_active opening = false
is_active _ = true

-- What the file holds while a process stands at `p`.
abbrev pub IsOf : LockFile → Pc → Type 0
IsOf f idle = Unit
IsOf f opening = Unit
IsOf f (created h) = f ≡ unreadable
IsOf f (owning h) = f ≡ held h
IsOf f unlinking = is_locked f ≡ true

pub record Inv (f : LockFile) (pc : ℕ → Pc) : Type 0 where
  pub alone : (i j : ℕ) → is_active (pc i) ≡ true → is_active (pc j) ≡ true → i ≡ j
  pub of_own : (i : ℕ) → IsOf f (pc i)

-- A process that is active keeps the file in place.
active-is_locked : (f : LockFile) (p : Pc) → IsOf f p → is_active p ≡ true → is_locked f ≡ true
unfolding is_locked
active-is_locked f idle o a = cc
active-is_locked f opening o a = cc
active-is_locked f (created h) o a = rw o refl
active-is_locked f (owning h) o a = rw o refl
active-is_locked f unlinking o a = o

idle-IsOf : (f : LockFile) (p : Pc) → is_active p ≡ false → IsOf f p
idle-IsOf f idle a = tt
idle-IsOf f opening a = tt
idle-IsOf f (created h) a = cc
idle-IsOf f (owning h) a = cc
idle-IsOf f unlinking a = cc

at_same : (pc : ℕ → Pc) (i j : ℕ) (p : Pc) → (j == i) ≡ true → set_pc pc i p j ≡ p
at_same pc i j p e = rw e refl

at_other : (pc : ℕ → Pc) (i j : ℕ) (p : Pc) → (j == i) ≡ false → set_pc pc i p j ≡ pc j
at_other pc i j p e = rw e refl

-- A property of what stands at an index holds if it holds of the new and of the old.
set_pc_all :
    (R : Pc → Type 0) (pc : ℕ → Pc) (i j : ℕ) (p : Pc)
    → ((j == i) ≡ true → R p)
    → ((j == i) ≡ false → R (pc j))
    → R (set_pc pc i p j)
set_pc_all R pc i j p new old = elim (Bool-cases (j == i)) [
  | inl t ↦ subst R (sym (at_same pc i j p t)) (new t)
  | inr t ↦ subst R (sym (at_other pc i j p t)) (old t)
]

conflict : false ≡ true → ⊥
conflict h = cc

-- Where all the others are idle, a process may change the file.
take_over :
    (pc : ℕ → Pc) (i : ℕ) (f : LockFile) (p : Pc)
    → ((j : ℕ) → (j == i) ≡ false → is_active (pc j) ≡ false)
    → IsOf f p
    → Inv f (set_pc pc i p)
take_over pc i f p others own = record {
  alone = λ j k a b. mine j a ∙ sym (mine k b);
  of_own = λ j. set_pc_all (IsOf f) pc i j p (λ _. own) (λ e. idle-IsOf f _ (others j e));
}
  where
    mine : (j : ℕ) → is_active (set_pc pc i p j) ≡ true → j ≡ i
    mine j =
        set_pc_all (λ q. is_active q ≡ true → j ≡ i) pc i j p (λ e _. (==_iff j i).0 e)
          (λ e a. elim (conflict (sym (others j e) ∙ a)) [ ])

-- A process that is not active afterwards, over a file that is as it was, disturbs nobody.
step_back :
    {f : LockFile} {pc : ℕ → Pc} (i : ℕ) (p : Pc)
    → is_active p ≡ false
    → Inv f pc
    → Inv f (set_pc pc i p)
step_back {f} {pc} i p rests inv = record {
  alone = λ j k a b. inv.alone j k (mine j a) (mine k b);
  of_own = λ j. set_pc_all (IsOf f) pc i j p (λ _. idle-IsOf f p rests) (λ _. inv.of_own j);
}
  where
    mine : (j : ℕ) → is_active (set_pc pc i p j) ≡ true → is_active (pc j) ≡ true
    mine j =
        set_pc_all (λ q. is_active q ≡ true → is_active (pc j) ≡ true) pc i j p
          (λ _ a. elim (conflict (sym rests ∙ a)) [ ]) (λ _ a. a)

-- While one process is active, all the others are idle.
others_idle :
    {f : LockFile} {pc : ℕ → Pc} (i : ℕ)
    → Inv f pc
    → is_active (pc i) ≡ true
    → (j : ℕ) → (j == i) ≡ false
    → is_active (pc j) ≡ false
others_idle {f} {pc} i inv a j e = elim (Bool-cases (is_active (pc j))) [
  | inl t ↦ elim (conflict (sym e ∙ (==_iff j i).1 (inv.alone j i t a))) [ ]
  | inr t ↦ t
]

-- While the file is absent, every process is idle.
all_idle : {f : LockFile} {pc : ℕ → Pc} → Inv f pc → f ≡ absent → (j : ℕ) → is_active (pc j) ≡ false
unfolding is_locked
all_idle {f} {pc} inv gone j = elim (Bool-cases (is_active (pc j))) [
  | inl t ↦
      elim (conflict (ap is_locked (sym gone) ∙ active-is_locked f (pc j) (inv.of_own j) t)) [ ]
  | inr t ↦ t
]

move_keeps :
    {pc : ℕ → Pc} (i : ℕ) {f g : LockFile} {p q : Pc}
    → Move false f p g q
    → pc i ≡ p
    → Inv f pc
    → Inv g (set_pc pc i q)
unfolding is_locked read
move_keeps i (enter _) at inv = step_back i opening refl inv
move_keeps i (break_in h) at inv = elim (conflict h) [ ]
move_keeps i (open_new h) at inv =
    take_over _ i unreadable (created h) (λ j _. all_idle inv refl j) refl
move_keeps i (open_busy _) at inv = step_back i idle refl inv
move_keeps i (write {h = h}) at inv =
    take_over _ i (held h) (owning h) (others_idle i inv (ap is_active at)) refl
move_keeps i (look {f} {h}) at inv =
    take_over _ i f _ (others_idle i inv (ap is_active at))
      (next (subst (IsOf f) at (inv.of_own i)))
  where
    next : f ≡ held h → IsOf f (if is_own h.run_id (read f) then unlinking else idle)
    next e = rw e (rw (text_eq_refl h.run_id) refl)
move_keeps i unlink at inv = take_over _ i absent idle (others_idle i inv (ap is_active at)) tt
move_keeps i stop at inv = step_back i idle refl inv

next_keeps :
    {force : Bool} {i : ℕ} {s t : Shared}
    → force ≡ false
    → Turn force i s t
    → Inv s.file s.pc
    → Inv t.file t.pc
next_keeps {i = i} {s = s} none (turn {f} {p} m) inv =
    move_keeps i (subst (λ b. Move b s.file (s.pc i) f p) none m) refl inv

-- Steps of processes that run without `force` keep the invariant.
reach-Inv :
    {force : ℕ → Bool} {f : LockFile} {s : Shared}
    → ((i : ℕ) → force i ≡ false)
    → Reach force f s
    → Inv s.file s.pc
reach-Inv none start = record { alone = λ i j a b. cc; of_own = λ i. tt }
reach-Inv none (later i r step) = next_keeps (none i) step (reach-Inv none r)

-- Where no process runs with `force`, at most one process owns the lock in every order of the steps
-- of any number of processes, and while one does, the file holds what it wrote.
pub owning_exclusive :
    {force : ℕ → Bool} {f : LockFile} {s : Shared}
    → ((i : ℕ) → force i ≡ false)
    → Reach force f s
    → (i j : ℕ) (h k : Holder) → s.pc i ≡ owning h
    → s.pc j ≡ owning k
    → (i ≡ j) × (s.file ≡ held h)
owning_exclusive {f = f} {s = s} none r i j h k own other = (
  (reach-Inv none r).alone i j (ap is_active own) (ap is_active other),
  subst (IsOf s.file) own ((reach-Inv none r).of_own i),
)

-- Where no process runs with `force`, a process that owns the lock can always let it go by its own
-- next two steps, the look into the file and its unlinking: then the file is absent and the process
-- idle.
pub owning_released :
    {force : ℕ → Bool} {f : LockFile} {s : Shared}
    → ((i : ℕ) → force i ≡ false)
    → Reach force f s
    → (i : ℕ) (h : Holder) → s.pc i ≡ owning h
    → (u : Shared) × (t : Shared) × Turn (force i) i s u
      × Turn (force i) i u t
      × (u.pc i ≡ unlinking)
      × (t.file ≡ absent)
      × (t.pc i ≡ idle)
unfolding read
owning_released {force} {s = s} none r i h own = (
  _,
  _,
  turn looked,
  turn unlinked,
  at_same s.pc i i unlinking here,
  refl,
  at_same (set_pc s.pc i unlinking) i i idle here,
)
  where
    here : (i == i) ≡ true
    here = (==_iff i i).1 refl

    named : s.file ≡ held h
    named = subst (IsOf s.file) own ((reach-Inv none r).of_own i)

    goes_on :
        (f : LockFile)
        → f ≡ held h
        → (if is_own h.run_id (read f) then unlinking else idle) ≡ unlinking
    goes_on f e = rw e (rw (text_eq_refl h.run_id) refl)

    looked : Move (force i) s.file (s.pc i) s.file unlinking
    looked =
        subst (λ p. Move (force i) s.file p s.file unlinking) (sym own)
          (subst (Move (force i) s.file (owning h) s.file) (goes_on s.file named) look)

    unlinked : Move (force i) s.file (set_pc s.pc i unlinking i) absent idle
    unlinked =
        subst (λ p. Move (force i) s.file p absent idle) (sym (at_same s.pc i i unlinking here))
          unlink
