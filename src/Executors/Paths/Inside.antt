-- ===== src/Executors/Paths/Inside.antt =====
-- What the path jail lets through.
use ticket_bot.Prelude.{◌≡◌, refl, ◌∙◌, arith, true, false, ◌||◌, some, Text, Bool-cases, inl, inr}
use ticket_bot.Prelude.Outcomes.{Outcome, ok, raised}
use ticket_bot.Executors.Paths.{
  FilePath, Links, is_refused, is_inside, target, ancestor, check_target, jail, or_jail, jailed,
  relative_to, is_reserved, reject_reserved,
}

module _ {X : Type 0} (links : Links X) (x : X) where
  -- What holds of a path that the jail answers for a candidate `s`.
  pub record IsJailed (workspace : FilePath) (s : Text) (p : FilePath) : Type 0 where
    pub sane : is_refused s ≡ false
    pub is_target : p ≡ target links x (links.resolve x workspace) s
    pub inside : is_inside (links.resolve x workspace) p ≡ true
    pub anchored :
        (links.exists x p || is_inside (links.resolve x workspace) (ancestor links x p)) ≡ true

  check_target-ok :
      (ws p q : FilePath)
      → check_target links x ws p ≡ ok q
      → (q ≡ p)
        × (is_inside ws p ≡ true)
        × ((links.exists x p || is_inside ws (ancestor links x p)) ≡ true)
  unfolding check_target
  check_target-ok ws p q h = elim (Bool-cases (is_inside ws p)) [
    | inr out ↦ cc (rw out at h)
    | inl i ↦ elim (Bool-cases (links.exists x p)) [
      | inl e ↦ (cc (rw (i, e) at h), i, rw e refl)
      | inr e ↦ elim (Bool-cases (is_inside ws (ancestor links x p))) [
        | inl a ↦ (cc (rw (i, e, a) at h), i, rw (e, a) refl)
        | inr a ↦ cc (rw (i, e, a) at h)
      ]
    ]
  ]

  -- A path that the jail answers is the resolved candidate, lies in the resolved workspace, and
  -- exists, or else its nearest ancestor that exists resolves into the workspace; a candidate that is
  -- empty, too long, or has a NUL in it is refused.
  pub jail-IsJailed :
      (workspace : FilePath) (s : Text) (p : FilePath)
      → jail links x workspace s ≡ ok p
      → IsJailed workspace s p
  unfolding jail
  jail-IsJailed workspace s p h = elim (Bool-cases (is_refused s)) [
    | inl r ↦ cc (rw r at h)
    | inr r ↦
        let found = check_target-ok (links.resolve x workspace) _ p (rw r at h) in
        let (same, i, a) = found in
        record { sane = r; is_target = same; inside = rw same i; anchored = rw same a }
  ]

  -- With two roots, it lies in the one or in the other.
  pub jailed-is_inside :
      (workspace dir : FilePath) (s : Text) (p : FilePath)
      → jailed links x workspace (some dir) s ≡ ok p
      → (is_inside (links.resolve x workspace) p || is_inside (links.resolve x dir) p) ≡ true
  unfolding jailed
  jailed-is_inside workspace dir s p h = by_first (jail links x workspace s) refl h
    where
      by_first :
          (r : Outcome FilePath)
          → jail links x workspace s ≡ r
          → or_jail links x (some dir) s r ≡ ok p
          → (is_inside (links.resolve x workspace) p || is_inside (links.resolve x dir) p) ≡ true
      by_first (ok q) e h = ground (arith, (jail-IsJailed workspace s p (e ∙ h)).inside)
      by_first (raised _) e h = ground (arith, (jail-IsJailed dir s p h).inside)

  pub reject_reserved-ok :
      (dir p : FilePath)
      → reject_reserved links x (some dir) p ≡ ok tt
      → is_reserved (relative_to p (links.resolve x dir)) ≡ false
  unfolding reject_reserved
  reject_reserved-ok dir p h =
      elim (Bool-cases (is_reserved (relative_to p (links.resolve x dir)))) [
        | inl r ↦ cc (rw r at h)
        | inr r ↦ r
      ]
