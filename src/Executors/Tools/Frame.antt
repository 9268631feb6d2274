-- ===== src/Executors/Tools/Frame.antt =====
-- What the tools can change.
use ticket_bot.Prelude.{
  ℕ, ◌≡◌, ◌≢◌, refl, ap, sym, ◌∙◌, arith, Bool, true, false, not, ◌||◌, ◌&&◌, Option, none, some,
  Text, codes, text_eq, List, [], ◌∷◌, ◌++◌, ltb, length,
}
use ticket_bot.Prelude.Outcomes.{Outcome, ok, raised, Ensures, Ensures-if, Ensures->>=, Ensures-at}
use ticket_bot.Predicate.Values.{Fields, get_field}
use ticket_bot.Executors.Paths.{FilePath, is_inside, relative_to, is_reserved}
use ticket_bot.Executors.Paths.Inside.{jailed-is_inside, reject_reserved-ok}
use ticket_bot.Executors.Tools.Os.{Os, ToolContext, Desk, Act, Runtime, continue, call, look}
use ticket_bot.Executors.Edits.{universal_newlines}
use ticket_bot.Executors.Tools.Args.{text_arg, need, jail_path, check_reserved, flag}
use ticket_bot.Executors.Tools.Files.{
  Plan, edited, parent, store, plan_write, plan_edit, fs_write, fs_edit,
}
use ticket_bot.Executors.Tools.Commands.{shots_dir, keep_shot, shot_answer, take_shot}

module _ {N X : Type 0} (os : Os N X) (ctx : ToolContext) where
  -- The paths that a step may write: in the workspace or in the artifacts, and no record of the engine.
  abbrev pub is_writable : X → FilePath → Bool
  is_writable x p =
      (is_inside (os.links.resolve x ctx.workspace) p
        || is_inside (os.links.resolve x ctx.artifacts_dir) p)
      && not (is_reserved (relative_to p (os.links.resolve x ctx.artifacts_dir)))

  jail_path-writable :
      (x : X) (rel : Text) (p : FilePath)
      → jail_path os ctx x rel ≡ ok p
      → check_reserved os ctx x p ≡ ok tt
      → is_writable x p ≡ true
  unfolding jail_path check_reserved
  jail_path-writable x rel p j r = ground (
    arith,
    jailed-is_inside os.links x ctx.workspace ctx.artifacts_dir rel p j,
    reject_reserved-ok os.links x ctx.artifacts_dir p r,
  )

  abbrev PlansFor : X → Plan → Type 0
  PlansFor x plan = is_writable x plan.path ≡ true

  plan_write-writable : (args : Fields N) (x : X) → Ensures (PlansFor x) (plan_write os ctx args x)
  unfolding plan_write Ensures
  plan_write-writable args x = Ensures->>= _ (need _ (text_arg (codes "path") args)) _ λ rel _.
      Ensures->>= _ (need _ (text_arg (codes "content") args)) _ λ content _.
        Ensures->>= _ (os.encode content) _ λ encoded _.
          Ensures-if _ (ltb ctx.max_write_bytes (length encoded)) _ _ (λ _. tt)
            λ _. Ensures->>= _ (jail_path os ctx x rel) _ λ p j.
              Ensures->>= _ (check_reserved os ctx x p) _ λ _ r. jail_path-writable x rel p j r

  plan_edit-writable : (args : Fields N) (x : X) → Ensures (PlansFor x) (plan_edit os ctx args x)
  unfolding plan_edit Ensures
  plan_edit-writable args x = Ensures->>= _ (need _ (text_arg (codes "path") args)) _ λ rel _.
      Ensures->>= _ (need _ (text_arg (codes "old") args)) _ λ old _.
        Ensures->>= _ (need _ (text_arg (codes "new") args)) _ λ new _.
          Ensures-if _ (text_eq old []) _ _ (λ _. tt)
            λ _. Ensures->>= _ (jail_path os ctx x rel) _ λ p j.
              Ensures->>= _ (check_reserved os ctx x p) _ λ _ r.
                Ensures-if _ (not (os.is_file x p)) _ _ (λ _. tt)
                  λ _. Ensures->>= _ (os.read_bytes x p) _ λ read _.
                    let text = universal_newlines (os.decode read) in
                    Ensures->>= _
                      (edited old new (flag os (get_field (codes "replace_all") args)) text) _
                      λ next _. Ensures->>= _ (os.encode next) _ λ encoded _.
                        Ensures-if _ (ltb ctx.max_write_bytes (length encoded)) _ _ (λ _. tt)
                          λ _. jail_path-writable x rel p j r

  -- What documentation says of the calls: making a directory leaves the content of files alone, a write
  -- changes that of one path, and a screenshot none.
  pub record Documented (content : X → FilePath → Option (List ℕ)) : Type 0 where
    pub mkdir_keeps : (p q : FilePath) (x : X) → content (os.mkdir p x).1 q ≡ content x q
    pub write_keeps :
        (p q : FilePath) (bytes : List ℕ) (x : X)
        → p ≢ q
        → content (os.write p bytes x).1 q ≡ content x q
    pub screenshot_keeps :
        (runtime : Runtime X) (q : FilePath) (x : X)
        → os.runtime ≡ some runtime
        → content (runtime.screenshot x).1 q ≡ content x q

  module _ (content : X → FilePath → Option (List ℕ)) (laws : Documented content)
      (q : FilePath) where
    -- A state in which the file at `q` is as it is in `x`.
    abbrev Kept : {A : Type 0} → X → Outcome A × Desk X → Type 0
    Kept x (r, t) = content t.outside q ≡ content x q

    Kept-continue :
        {A B : Type 0} (x : X) (first : Outcome A × Desk X) (rest : A → Act X B)
        → Kept x first
        → ((a : A) (t : Desk X)
            → first.0 ≡ ok a
            → content t.outside q ≡ content x q
            → Kept x (rest a t))
        → Kept x (continue first rest)
    Kept-continue x (ok a, t) rest k h = h a t refl k
    Kept-continue x (raised e, t) rest k h = k

    Kept-mkdir :
        (x : X) (p : FilePath) (t : Desk X)
        → content t.outside q ≡ content x q
        → Kept x (call (os.mkdir p) t)
    Kept-mkdir x p t k = laws.mkdir_keeps p q t.outside ∙ k

    Kept-write :
        (x : X) (p : FilePath) (bytes : List ℕ) (t : Desk X)
        → p ≢ q
        → content t.outside q ≡ content x q
        → Kept x (call (os.write p bytes) t)
    Kept-write x p bytes t apart k = laws.write_keeps p q bytes t.outside apart ∙ k

    -- The path of a plan is writable, and `q` is not.
    away :
        (x : X) (plan : Plan) (r : Outcome Plan)
        → is_writable x q ≡ false
        → Ensures (PlansFor x) r
        → r ≡ ok plan
        → plan.path ≢ q
    away x plan r apart planned e same =
        let writable = Ensures-at _ r plan planned e in
        clash (sym apart ∙ ap (is_writable x) (sym same) ∙ writable)
      where
        clash : ¬ (false ≡ true)
        clash h = cc

    store-Kept :
        (x : X) (plan : Plan) (t : Desk X)
        → plan.path ≢ q
        → content t.outside q ≡ content x q
        → Kept x (store os ctx plan t)
    unfolding store
    store-Kept x plan t apart k =
        Kept-continue x (call (os.write plan.path plan.bytes) t) _ (Kept-write x _ _ t apart k)
          λ _ u _ k. k

    pub fs_write-Kept :
        (args : Fields N) (s : Desk X)
        → is_writable s.outside q ≡ false
        → Kept s.outside (fs_write os ctx args s)
    unfolding fs_write
    fs_write-Kept args s apart =
        Kept-continue _ (look (plan_write os ctx args) s) _ refl λ plan t e k.
          Kept-continue _ (call (os.mkdir (parent plan.path)) t) _ (Kept-mkdir _ _ t k) λ _ u _ k.
            store-Kept _ plan u (away _ plan _ apart (plan_write-writable args s.outside) e) k

    pub fs_edit-Kept :
        (args : Fields N) (s : Desk X)
        → is_writable s.outside q ≡ false
        → Kept s.outside (fs_edit os ctx args s)
    unfolding fs_edit
    fs_edit-Kept args s apart =
        Kept-continue _ (look (plan_edit os ctx args) s) _ refl λ plan t e k.
          store-Kept _ plan t (away _ plan _ apart (plan_edit-writable args s.outside) e) k

    -- A screenshot goes to a file of `screenshots`, and `q` is none.
    keep_shot-Kept :
        (shot : List ℕ) (x : X) (t : Desk X)
        → ((name : Text) → shots_dir os ctx ++ (name ∷ []) ≢ q)
        → content t.outside q ≡ content x q
        → Kept x (keep_shot os ctx shot t)
    unfolding keep_shot
    keep_shot-Kept shot x t apart k =
        Kept-continue x (call (os.mkdir (shots_dir os ctx)) t) _ (Kept-mkdir x _ t k) λ _ u _ k.
          Kept-continue x (look (λ y. os.entries y (shots_dir os ctx)) u) _ k λ found v _ k.
            Kept-continue x (call (os.write _ shot) v) _ (Kept-write x _ shot v (apart _) k)
              λ _ w _ k. k

    pub take_shot-Kept :
        (s : Desk X)
        → ((name : Text) → shots_dir os ctx ++ (name ∷ []) ≢ q)
        → Kept s.outside (take_shot os ctx os.runtime s)
    unfolding take_shot
    take_shot-Kept s apart = by_runtime os.runtime refl
      where
        answered :
            (shot : Option (List ℕ)) (t : Desk X)
            → content t.outside q ≡ content s.outside q
            → Kept s.outside (shot_answer os ctx shot t)
        answered none t k = k
        answered (some []) t k = k
        answered (some (b ∷ bs)) t k = keep_shot-Kept (b ∷ bs) s.outside t apart k

        by_runtime :
            (o : Option (Runtime X)) → os.runtime ≡ o → Kept s.outside (take_shot os ctx o s)
        by_runtime none e = refl
        by_runtime (some runtime) e =
            Kept-continue _ (call runtime.screenshot s) _
              (laws.screenshot_keeps runtime q s.outside e) λ shot t _ k. answered shot t k
