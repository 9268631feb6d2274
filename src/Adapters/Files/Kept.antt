-- ===== src/Adapters/Files/Kept.antt =====
-- Which items a poll of files yields, and what the front matter of a file decides.
use ticket_bot.Prelude.{
  ◌≡◌, refl, ap, Option, true, false, some, Text, codes, text_eq, text_in, List, [], ◌∷◌, split_on,
  All, Bool-cases, Option-cases, inl, inr,
}
use ticket_bot.Prelude.Outcomes.{
  Outcome, ok, raised, ◌>>=◌, Ensures, Ensures->>=, Ensures-raised, Ensures-map,
}
use ticket_bot.Predicate.Values.{Value, Fields, Python, get_field}
use ticket_bot.Core.WorkItem.{WorkItem}
use ticket_bot.Adapters.Files.{
  known_keys, Disk, FileOptions, split_front_matter, unknown_fields, points_of, item_of, build_item,
  build, from_file, is_candidate, item_then, yielded, processed_path, poll,
}

module _ {N X : Type 0} (py : Python N) (safe_load : Text → Outcome (Value N)) (ascii : Text → Text)
    (disk : Disk X) where
  -- An item of a file that resolves to a path outside of the directory.
  pub record IsFresh (processed : Text) (x : X) (item : WorkItem N) : Type 0 where
    pub path : Text
    pub is_there : disk.is_file path x ≡ true
    pub resolves : disk.resolve path x ≡ some item.source_ref
    pub outside : disk.is_relative_to item.source_ref processed ≡ false

  build-source_ref :
      (raw ref : Text)
      → Ensures (λ item. item.source_ref ≡ ref) (build py safe_load ascii disk raw ref)
  unfolding Ensures build build_item item_of
  build-source_ref raw ref =
      Ensures->>= (λ (item : WorkItem N). item.source_ref ≡ ref)
        (split_front_matter py safe_load ascii disk raw ref (split_on 10 raw)) _
        λ parts _.
          Ensures->>= (λ (item : WorkItem N). item.source_ref ≡ ref)
            (points_of py safe_load ascii disk (get_field (codes "points") parts.0)) _
            λ points _. refl

  -- The path that a candidate resolves to.
  record Candidate (processed path : Text) (x : X) : Type 0 where
    resolved : Text
    is_there : disk.is_file path x ≡ true
    resolves : disk.resolve path x ≡ some resolved
    outside : disk.is_relative_to resolved processed ≡ false

  candidate :
      (processed path : Text) (x : X)
      → is_candidate py safe_load ascii disk processed path x ≡ true
      → Candidate processed path x
  candidate processed path x h = elim (Bool-cases (disk.is_file path x)) [
    | inr e ↦ cc (rw (is_candidate, e) at h)
    | inl e ↦ elim (Option-cases (disk.resolve path x)) [
      | inl e1 ↦ cc (rw (is_candidate, e, e1) at h)
      | inr (r, e1) ↦ elim (Bool-cases (disk.is_relative_to r processed)) [
        | inl e2 ↦ cc (rw (is_candidate, e, e1, e2) at h)
        | inr e2 ↦ record { resolved = r; is_there = e; resolves = e1; outside = e2 }
      ]
    ]
  ]

  from_file-Fresh :
      (processed path : Text) (x : X)
      → is_candidate py safe_load ascii disk processed path x ≡ true
      → Ensures (IsFresh processed x) (from_file py safe_load ascii disk path x)
  unfolding from_file
  from_file-Fresh processed path x h = elim (Option-cases (disk.read_text path x)) [
    | inl e ↦ rw (from_file, e) (Ensures-raised (IsFresh processed x) _)
    | inr (raw, e) ↦
        let c = candidate processed path x h in
        rw (from_file, e, c.resolves)
          (Ensures-map _ (IsFresh processed x) _ (build-source_ref raw c.resolved) λ item same.
            record {
              path = path;
              is_there = c.is_there;
              resolves = rw same c.resolves;
              outside = rw same c.outside;
            })
  ]

  item_then-All :
      (P : WorkItem N → Type 0) (r : Outcome (WorkItem N))
      (rest : List (WorkItem N) × Outcome (Unit {0}))
      → Ensures P r
      → All P rest.0
      → All P (item_then py safe_load ascii disk r rest).0
  unfolding Ensures
  item_then-All P (raised e) rest h hs = tt
  item_then-All P (ok item) rest h hs = (h, hs)

  yielded-Fresh :
      (processed : Text) (paths : List Text) (x : X)
      → All (IsFresh processed x) (yielded py safe_load ascii disk processed paths x).0
  unfolding yielded
  yielded-Fresh processed [] x = tt
  yielded-Fresh processed (path ∷ paths) x =
      elim (Bool-cases (is_candidate py safe_load ascii disk processed path x)) [
        | inl e ↦
            rw (yielded, e)
              (item_then-All (IsFresh processed x) (from_file py safe_load ascii disk path x) _
                (from_file-Fresh processed path x e) (yielded-Fresh processed paths x))
        | inr e ↦ rw (yielded, e) (yielded-Fresh processed paths x)
      ]

  -- Where the directory of the files that are done resolves, each item that a poll yields is of a file
  -- that is there, has the resolved path of the file as its
  -- `source_ref`, and that path lies outside of the directory of the files that are done.
  pub poll-Fresh :
      (options : FileOptions) (x : X) (processed : Text)
      → disk.resolve (processed_path py safe_load ascii disk options) x ≡ some processed
      → All (IsFresh processed x) (poll py safe_load ascii disk options x).0
  unfolding poll
  poll-Fresh options x processed e = elim (Option-cases (disk.glob_by_mtime options.glob x)) [
    | inl e1 ↦ rw (poll, e, e1) tt
    | inr (paths, e1) ↦ rw (poll, e, e1) (yielded-Fresh processed paths x)
  ]

  item_of-known :
      (fm gm : Fields N) (body ref : Text) (points : Option N)
      → ((k : Text) → text_in k known_keys ≡ true → get_field k fm ≡ get_field k gm)
      → item_of py safe_load ascii disk fm body ref points
        ≡ record (item_of py safe_load ascii disk gm body ref points) {
          raw = unknown_fields py safe_load ascii disk fm;
        }
  unfolding item_of text_in text_eq
  item_of-known fm gm body ref points same =
      rw
        (
          same (codes "key") refl,
          same (codes "title") refl,
          same (codes "type") refl,
          same (codes "labels") refl,
          same (codes "acceptance") refl,
          same (codes "url") refl,
          same (codes "status") refl,
          same (codes "assignee") refl,
        )
        refl

  -- Two front matters that agree on the known keys give one item but for `raw`, or raise the same
  -- exception: no other key of a file decides an attribute.
  pub build_item-known :
      (fm gm : Fields N) (body ref : Text)
      → ((k : Text) → text_in k known_keys ≡ true → get_field k fm ≡ get_field k gm)
      → build_item py safe_load ascii disk fm body ref ≡ (
          build_item py safe_load ascii disk gm body ref >>= λ item.
          ok (record item { raw = unknown_fields py safe_load ascii disk fm }))
  unfolding build_item text_in text_eq
  build_item-known fm gm body ref same =
      rw (same (codes "points") refl)
        (with_points (points_of py safe_load ascii disk (get_field (codes "points") gm)))
    where
      with_points :
          (r : Outcome (Option N))
          → (r >>= λ points. ok (item_of py safe_load ascii disk fm body ref points)) ≡ (
              r >>= (λ points. ok (item_of py safe_load ascii disk gm body ref points)) >>= λ item.
              ok (record item { raw = unknown_fields py safe_load ascii disk fm }))
      with_points (ok points) = ap ok (item_of-known fm gm body ref points same)
      with_points (raised e) = refl
