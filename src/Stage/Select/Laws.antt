-- ===== src/Stage/Select/Laws.antt =====
-- When the selection ends, and what it selects.
use mathlib.Core.Path.{subst}
use fptcloud_hc_automation_m.Base.{
  ℕ, zero, suc, ◌<◌, String, Bool, true, false, Option, none, some, List, [], ◌∷◌, ◌==◌, ◌≡◌, inl,
  inr, refl, arith, sym, ◌∙◌, ◌>>=◌, bind_some, Bool-cases, if◌then◌else◌, Dict, lookup, insert,
  lookup-insert, mem, eq_iff,
}
use fptcloud_hc_automation_m.Stage.{StageSpec}
use fptcloud_hc_automation_m.Stage.Select.{has, each, add_with_dependencies, select_stages}

found_of_has :
    {V : Type 0} (k : String) (d : Dict V) → has k d ≡ true → (v : V) × (lookup k d ≡ some v)
unfolding has
found_of_has {V} k d h = go (lookup k d) refl h
  where
    go :
        (o : Option V)
        → lookup k d ≡ o
        → Path Bool (elim o [ none ↦ false | some v ↦ true ]) true
        → (v : V) × (lookup k d ≡ some v)
    go none e h = cc
    go (some v) e h = (v, e)

module _ (spec : Dict StageSpec) where
  -- A rank that falls from a stage to each of its dependencies in the specification: there is no
  -- cycle.
  unfoldable pub IsRank : (String → ℕ) → Type 0
  IsRank rank =
      (id : String) (stage : StageSpec) (d : String)
      → lookup id spec ≡ some stage
      → mem d stage.dependency_stages ≡ true
      → has d spec ≡ true
      → rank d < rank id

  each_ends :
      (add : String → Dict StageSpec → Option (Dict StageSpec)) (ds : List String)
      (selected : Dict StageSpec)
      → ((d : String) (s : Dict StageSpec)
          → mem d ds ≡ true
          → has d spec ≡ true
          → (out : Dict StageSpec) × (add d s ≡ some out))
      → (out : Dict StageSpec) × (each spec add ds selected ≡ some out)
  unfolding each mem
  each_ends add [] selected h = (selected, refl)
  each_ends add (d ∷ ds) selected h =
      let later = λ (e : String) (s : Dict StageSpec) (m : mem e ds ≡ true) (i : has e spec ≡ true).
        h e s (ground arith) i in
      elim (Bool-cases (has d spec)) [
        | inl in_ ↦
            let (s, one) = h d selected (ground (arith, eq_iff d d)) in_ in
            rw (in_, one) (each_ends add ds s later)
        | inr out ↦ rw out (each_ends add ds selected later)
      ]

  ends_lem :
      (rank : String → ℕ) (n : ℕ) (id : String) (selected : Dict StageSpec)
      → IsRank rank
      → has id spec ≡ true
      → rank id < n
      → (out : Dict StageSpec) × (add_with_dependencies spec n id selected ≡ some out)
  unfolding add_with_dependencies IsRank
  ends_lem rank zero id selected r h l = absurd (omega arith)
  ends_lem rank (suc n) id selected r h l =
      let (stage, found) = found_of_has id spec h in
      let (s, all_) =
        each_ends (add_with_dependencies spec n) stage.dependency_stages selected
          (λ d s m i. ends_lem rank n d s r i (omega (arith, r id stage d found m i, l))) in
      (insert id stage s, rw (found, all_) refl)

  -- A filter that names a stage selects stages whenever the dependencies have a rank and the depth
  -- is more than that of the filter.
  pub select_ends :
      (rank : String → ℕ) (depth : ℕ) (filter : String)
      → IsRank rank
      → rank filter < depth
      → (out : Dict StageSpec) × (select_stages spec depth filter ≡ some out)
  unfolding select_stages
  select_ends rank depth filter r l = elim (Bool-cases (filter == "")) [
    | inl no_filter ↦ rw no_filter (spec, refl)
    | inr named ↦ (elim (Bool-cases (has filter spec)) [
      | inl in_ ↦
          let (out, e) = ends_lem rank depth filter [] r in_ l in rw (named, in_, e) (out, refl)
      | inr unknown ↦ rw (named, unknown) ([], refl)
    ])
  ]

  -- A chain whose later steps all raise raises.
  stuck_after :
      (o : Option (Dict StageSpec)) (f : Dict StageSpec → Option (Dict StageSpec))
      → ((s : Dict StageSpec) → f s ≡ none)
      → o >>= f ≡ none
  stuck_after none f h = refl
  stuck_after (some s) f h = h s

  each_stuck :
      (add : String → Dict StageSpec → Option (Dict StageSpec)) (ds : List String)
      (selected : Dict StageSpec) (d : String)
      → mem d ds ≡ true
      → has d spec ≡ true
      → ((s : Dict StageSpec) → add d s ≡ none)
      → each spec add ds selected ≡ none
  unfolding each mem
  each_stuck add [] selected d m h k = cc
  each_stuck add (e ∷ ds) selected d m h k = elim (Bool-cases (e == d)) [
    | inl same ↦ let f = (eq_iff e d).0 same in rw (f, h, k selected) refl
    | inr other ↦
        stuck_after (if has e spec then add e selected else some selected) _
          (λ s. each_stuck add ds s d (rw other at m) h k)
  ]

  stuck_lem :
      (cycle : String → Bool)
      → ((id : String) (stage : StageSpec)
          → cycle id ≡ true
          → lookup id spec ≡ some stage
          → (d : String) × (mem d stage.dependency_stages ≡ true)
            × (has d spec ≡ true)
            × (cycle d ≡ true))
      → (n : ℕ) (id : String) (selected : Dict StageSpec) → cycle id ≡ true
      → add_with_dependencies spec n id selected ≡ none
  unfolding add_with_dependencies
  stuck_lem cycle h zero id selected c = refl
  stuck_lem cycle h (suc n) id selected c =
      go (λ d k s. stuck_lem cycle h n d s k) (lookup id spec) refl
    where
      go :
          ((d : String)
            → cycle d ≡ true
            → (s : Dict StageSpec) → add_with_dependencies spec n d s ≡ none)
          → (o : Option StageSpec) → lookup id spec ≡ o
          → o >>= (λ stage.
            each spec (add_with_dependencies spec n) stage.dependency_stages selected
            >>= (λ s. some (insert id stage s)))
            ≡ none
      go later none e = refl
      go later (some stage) e =
          let (d, m, i, k) = h id stage c e in
          rw
            (each_stuck (add_with_dependencies spec n) stage.dependency_stages selected d m i
              (later d k))
            refl

  -- Everything in a selection is the specification's, and its dependencies there are selected too.
  unfoldable pub IsClosed : Dict StageSpec → Type 0
  IsClosed out =
      (id : String) (stage : StageSpec)
      → lookup id out ≡ some stage
      → (lookup id spec ≡ some stage)
        × ((d : String)
            → mem d stage.dependency_stages ≡ true
            → has d spec ≡ true
            → has d out ≡ true)

  abbrev Grows : Dict StageSpec → Dict StageSpec → Type 0
  Grows s out = (k : String) → has k s ≡ true → has k out ≡ true

  -- What the recursive call does.
  abbrev Adds : (String → Dict StageSpec → Option (Dict StageSpec)) → Type 0
  Adds add =
      (id : String) (s out : Dict StageSpec)
      → IsClosed s
      → add id s ≡ some out
      → IsClosed out × Grows s out × (has id out ≡ true)

  has-insert :
      (k j : String) (v : StageSpec) (s : Dict StageSpec)
      → has j (insert k v s) ≡ (if k == j then true else has j s)
  unfolding has
  has-insert k j v s = rw (has, lookup-insert k j v s) (ground arith)

  one_lem :
      (add : String → Dict StageSpec → Option (Dict StageSpec)) (d : String)
      (s out : Dict StageSpec)
      → Adds add
      → IsClosed s
      → (if has d spec then add d s else some s) ≡ some out
      → IsClosed out × Grows s out × (has d spec ≡ true → has d out ≡ true)
  one_lem add d s out a c h = elim (Bool-cases (has d spec)) [
    | inl in_ ↦ let (x, y, z) = a d s out c (rw in_ at h) in (x, y, λ i. z)
    | inr no_ ↦
        let same : s ≡ out = let k = rw no_ at h in cc in
        (subst IsClosed same c, λ k i. rw (← same) i, λ i. cc)
  ]

  each_lem :
      (add : String → Dict StageSpec → Option (Dict StageSpec)) (ds : List String)
      (s out : Dict StageSpec)
      → Adds add
      → IsClosed s
      → each spec add ds s ≡ some out
      → IsClosed out
        × Grows s out
        × ((d : String) → mem d ds ≡ true → has d spec ≡ true → has d out ≡ true)
  unfolding each mem
  each_lem add [] s out a c h =
      let same : s ≡ out = cc in (subst IsClosed same c, λ k i. rw (← same) i, λ d m i. cc)
  each_lem add (e ∷ ds) s out a c h =
      let (u, one, two) = bind_some (if has e spec then add e s else some s) _ out h in
      let (c1, g1, in1) = one_lem add e s u a c one in
      let (c2, g2, in2) = each_lem add ds u out a c1 two in
      (
        c2,
        λ k i. g2 k (g1 k i),
        λ d m i. elim (Bool-cases (e == d)) [
          | inl same ↦
              g2 d (subst (λ x. has x spec ≡ true → has x u ≡ true) ((eq_iff e d).0 same) in1 i)
          | inr other ↦ in2 d (rw other at m) i
        ],
      )

  insert-IsClosed :
      (id : String) (stage : StageSpec) (s : Dict StageSpec)
      → IsClosed s
      → lookup id spec ≡ some stage
      → ((d : String) → mem d stage.dependency_stages ≡ true → has d spec ≡ true → has d s ≡ true)
      → IsClosed (insert id stage s)
  unfolding IsClosed
  insert-IsClosed id stage s c e h k other found = elim (Bool-cases (id == k)) [
    | inl same ↦
        let f = (eq_iff id k).0 same in
        let now : stage ≡ other = let l = rw (lookup-insert id k stage s, same) at found in cc in
        (
          rw (← f, ← now) e,
          λ d m i. rw (has-insert id d stage s) (let t = h d (rw now m) i in ground arith),
        )
    | inr no_ ↦
        let (x, y) = c k other (rw (lookup-insert id k stage s, no_) at found) in
        (x, λ d m i. rw (has-insert id d stage s) (let t = y d m i in ground arith))
  ]

  add-Adds : (n : ℕ) → Adds (add_with_dependencies spec n)
  unfolding add_with_dependencies
  add-Adds zero id s out c h = cc
  add-Adds (suc n) id s out c h =
      let (stage, found, rest) = bind_some (lookup id spec) _ out h in
      let (u, all_, last) =
        bind_some (each spec (add_with_dependencies spec n) stage.dependency_stages s) _ out rest in
      let (c1, g1, in1) =
        each_lem (add_with_dependencies spec n) stage.dependency_stages s u (add-Adds n) c all_ in
      let same : insert id stage u ≡ out = cc in
      (
        subst IsClosed same (insert-IsClosed id stage u c1 found in1),
        λ k i. rw (← same, has-insert id k stage u) (let t = g1 k i in ground arith),
        rw (← same, has-insert id id stage u) (ground (arith, eq_iff id id)),
      )

  -- What a filter selects is closed: with a stage come all its dependencies that the specification
  -- has. The stage that the filter names is among it.
  pub selected_lem :
      (depth : ℕ) (filter : String) (out : Dict StageSpec)
      → (filter == "") ≡ false
      → select_stages spec depth filter ≡ some out
      → IsClosed out × (has filter out ≡ has filter spec)
  unfolding select_stages IsClosed
  selected_lem depth filter out named h = elim (Bool-cases (has filter spec)) [
    | inl in_ ↦
        let (x, y, z) =
          add-Adds depth filter [] out (λ id stage e. unfold lookup in cc) (rw (named, in_) at h) in
        (x, z ∙ sym in_)
    | inr no_ ↦
        let same : [] ≡ out = let k = rw (named, no_) at h in cc in
        rw (← same) (λ id stage e. unfold lookup in cc, rw no_ (unfold has lookup in refl))
  ]

  -- Where the filter stands on a cycle of dependencies, no depth is enough: the recursion of the
  -- program does not end.
  pub cycle_lem :
      (cycle : String → Bool) (filter : String)
      → (filter == "") ≡ false
      → has filter spec ≡ true
      → cycle filter ≡ true
      → ((id : String) (stage : StageSpec)
          → cycle id ≡ true
          → lookup id spec ≡ some stage
          → (d : String) × (mem d stage.dependency_stages ≡ true)
            × (has d spec ≡ true)
            × (cycle d ≡ true))
      → (depth : ℕ) → select_stages spec depth filter ≡ none
  unfolding select_stages
  cycle_lem cycle filter named in_ c h depth = rw (named, in_) (stuck_lem cycle h depth filter [] c)
