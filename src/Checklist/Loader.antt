-- ===== src/Checklist/Loader.antt =====
-- A task's dependencies as the loader finds them (src/hc/checklist/loader.py).
mod Tests
use fptcloud_hc_automation_m.Checklist.Resolver.{or_empty}
use fptcloud_hc_automation_m.Base.{
  insert, lookup-insert, any, ap, ◌∙◌, ℕ, zero, suc, ◌+◌, ◌≤◌, String, Bool, true, false, not,
  Option, none, some, List, [], ◌∷◌, ◌++◌, ◌≡◌, refl, arith, ◌==◌, if◌then◌else◌, mem, count, keep,
  Dict, lookup, eq_iff, mem-count, count-append, Bool-cases, inl, inr, count-keep, ◌||◌, ◌&&◌,
  eq_refl,
}

-- The ids of the test cases with each of the actions, one after the other.
pub infer_depends_on : Dict (List String) → List String → List String
infer_depends_on tc_id_by_action [] = []
infer_depends_on tc_id_by_action (action ∷ rest) =
    let later = infer_depends_on tc_id_by_action rest in
    elim (lookup action tc_id_by_action) [ none ↦ later | some ids ↦ ids ++ later ]

-- The inferred dependencies without the test case itself and without those that are written.
pub inferred_deps : Dict (List String) → List String → String → List String → List String
inferred_deps tc_id_by_action actions tc_id explicit =
    keep (λ d. not (mem d explicit))
      (keep (λ d. not (d == tc_id)) (infer_depends_on tc_id_by_action actions))

-- `for tc_id in …: if tc_id not in seen`; `seen` holds what `result` does.
unfoldable pub dedup : List String → List String → List String
dedup seen [] = []
dedup seen (x ∷ xs) =
    let old = dedup seen xs in let new = dedup (x ∷ seen) xs in if mem x seen then old else x ∷ new

unfoldable pub all_depends_on : List String → List String → List String
unfolding dedup
all_depends_on explicit inferred = dedup [] (explicit ++ inferred)

mem-dedup :
    (y : String) (seen xs : List String)
    → mem y (dedup seen xs) ≡ (if mem y seen then false else mem y xs)
unfolding dedup mem
mem-dedup y seen [] = ground arith
mem-dedup y seen (x ∷ xs) =
    ground (arith, mem-dedup y seen xs, mem-dedup y (x ∷ seen) xs, eq_iff x y, eq_iff y x)

count-dedup :
    (y : String) (seen xs : List String) → count y (dedup seen xs) ≤ (if mem y seen then 0 else 1)
unfolding dedup mem count
count-dedup y seen [] = ground arith
count-dedup y seen (x ∷ xs) =
    ground (arith, count-dedup y seen xs, count-dedup y (x ∷ seen) xs, eq_iff x y, eq_iff y x)

mem-concat : (y : String) (xs ys : List String) → mem y (xs ++ ys) ≡ (mem y xs || mem y ys)
unfolding mem
mem-concat y [] ys = refl
mem-concat y (x ∷ xs) ys = ground (arith, mem-concat y xs ys)

mem-keep :
    (y : String) (p : String → Bool) (xs : List String) → mem y (keep p xs) ≡ (mem y xs && p y)
unfolding mem keep
mem-keep y p [] = refl
mem-keep y p (x ∷ xs) = elim (Bool-cases (y == x)) [
  | inl same ↦ let e : y ≡ x = (eq_iff y x).0 same in ground (arith, mem-keep y p xs, eq_iff x y)
  | inr other ↦ ground (arith, mem-keep y p xs, eq_iff x y, eq_iff y x)
]

-- `tc_id_by_action.setdefault(action, []).append(tc_id)` for each test case, an id and its action.
pub collect : List (String × String) → Dict (List String) → Dict (List String)
collect [] d = d
collect ((tc_id, action) ∷ rest) d =
    collect rest (insert action (or_empty (lookup action d) ++ tc_id ∷ []) d)

abbrev holds : String → Option (List String) → Bool
holds y none = false
holds y (some ids) = mem y ids

holds-or_empty : (y : String) (o : Option (List String)) → mem y (or_empty o) ≡ holds y o
unfolding mem
holds-or_empty y none = refl
holds-or_empty y (some ids) = refl

mem-appended :
    (action tc_id b y : String) (d : Dict (List String))
    → holds y (lookup b (insert action (or_empty (lookup action d) ++ tc_id ∷ []) d))
      ≡ (holds y (lookup b d) || (tc_id == y && action == b))
unfolding mem
mem-appended action tc_id b y d =
    let ids = or_empty (lookup action d) in
    rw (lookup-insert action b (ids ++ tc_id ∷ []) d) (elim (Bool-cases (action == b)) [
      | inl here ↦
          let e : action ≡ b = (eq_iff action b).0 here in
          let k : mem y ids ≡ holds y (lookup b d) =
            holds-or_empty y (lookup action d) ∙ ap (λ x. holds y (lookup x d)) e in
          rw (here, mem-concat y ids (tc_id ∷ []), k)
            (ground (arith, eq_iff tc_id y, eq_iff y tc_id))
      | inr other ↦ rw other (ground arith)
    ])

mem-collect :
    (cases : List (String × String)) (d : Dict (List String)) (b y : String)
    → holds y (lookup b (collect cases d))
      ≡ (holds y (lookup b d) || any (λ c. c.0 == y && c.1 == b) cases)
unfolding collect any
mem-collect [] d b y = ground arith
mem-collect ((tc_id, action) ∷ rest) d b y =
    mem-collect rest (insert action (or_empty (lookup action d) ++ tc_id ∷ []) d) b y
    ∙ rw (mem-appended action tc_id b y d) (ground arith)

mem-infer :
    (by_action : Dict (List String)) (actions : List String) (y : String)
    → mem y (infer_depends_on by_action actions) ≡ any (λ a. holds y (lookup a by_action)) actions
unfolding infer_depends_on any mem
mem-infer by_action [] y = refl
mem-infer by_action (a ∷ rest) y = go (lookup a by_action) (mem-infer by_action rest y)
  where
    go :
        (o : Option (List String))
        → mem y (infer_depends_on by_action rest) ≡ any (λ b. holds y (lookup b by_action)) rest
        → mem y (elim o [
          | none ↦ infer_depends_on by_action rest
          | some ids ↦ ids ++ infer_depends_on by_action rest
        ])
          ≡ (holds y o || any (λ b. holds y (lookup b by_action)) rest)
    go none e = e
    go (some ids) e = mem-concat y ids _ ∙ rw e refl

-- Whether a test case of one of the actions has the id.
abbrev pub is_of : List (String × String) → List String → String → Bool
is_of cases actions y = any (λ a. any (λ c. c.0 == y && c.1 == a) cases) actions

mem-inferred :
    (cases : List (String × String)) (actions : List String) (y : String)
    → mem y (infer_depends_on (collect cases []) actions) ≡ is_of cases actions y
unfolding any lookup
mem-inferred cases actions y = mem-infer (collect cases []) actions y ∙ each actions
  where
    each :
        (xs : List String)
        → any (λ a. holds y (lookup a (collect cases []))) xs
          ≡ any (λ a. any (λ c. c.0 == y && c.1 == a) cases) xs
    each [] = refl
    each (x ∷ xs) = rw (mem-collect cases [] x y, each xs) refl

-- The dependencies of a loaded test case are the ids that it names and the ids of the checklist's
-- test cases with one of the actions that the registry gives for its own, never its own id through
-- the registry, and each of them once.
pub dependencies_lem :
    (cases : List (String × String)) (actions : List String) (tc_id : String)
    (explicit : List String) (y : String)
    → let deps =
        all_depends_on explicit (inferred_deps (collect cases []) actions tc_id explicit) in
      (mem y deps ≡ (mem y explicit || (is_of cases actions y && not (y == tc_id))))
      × (count y deps ≤ 1)
unfolding all_depends_on inferred_deps
dependencies_lem cases actions tc_id explicit y =
    let found = infer_depends_on (collect cases []) actions in
    let others = keep (λ d. not (d == tc_id)) found in
    let new = keep (λ d. not (mem d explicit)) others in
    let all_ : mem y (dedup [] (explicit ++ new)) ≡ mem y (explicit ++ new) =
      mem-dedup y [] (explicit ++ new) ∙ unfold mem in refl in
    let c = mem-keep y (λ d. not (mem d explicit)) others in
    let d = mem-keep y (λ d. not (d == tc_id)) found in
    let e = count-dedup y [] (explicit ++ new) in
    (
      all_ ∙ rw (mem-concat y explicit new, c, d, mem-inferred cases actions y) (ground arith),
      unfold mem in ground arith,
    )
