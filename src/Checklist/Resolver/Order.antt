-- ===== src/Checklist/Resolver/Order.antt =====
-- What `topological_sort` returns and when it raises, for every order of the set of ids.
use mathlib.Core.List.{append-nil, append_assoc}
use fptcloud_hc_automation_m.Base.{
  ℕ, zero, suc, ◌≤◌, ◌<◌, String, true, ◌&&◌, ◌||◌, List, [], ◌∷◌, ◌++◌, ◌==◌, ◌≡◌, ◌≢◌, ◌↔◌, ◌⊎◌,
  refl, sym, ◌∙◌, arith, if◌then◌else◌, Bool-cases, inl, inr, ltb, eqb, length, length-le_of_count,
  length-lt_of_count, keep, mem, mem-count, count, count-keep, Dict, keys, insert,
  count-keys-insert, eq_iff,
}
use fptcloud_hc_automation_m.Checklist.Resolver.{
  IsSetOrder, build, ordered, cyclic, sort_run, topological_sort,
}
use fptcloud_hc_automation_m.Checklist.Resolver.Degrees.{
  waits, edges, edges_key, waits-zero, waits-zero_placed, waits-pos, mem-snoc,
}
use fptcloud_hc_automation_m.Checklist.Resolver.Kahn.{ParentsFirst, Inv, sort_run-Inv}

-- The task `c` lists `p` as a dependency.
abbrev pub DependsOn : Dict (List String) → String → String → Type 0
DependsOn deps c p = 0 < edges p c deps

-- `rank` puts every dependency on the checklist below its task, so there is no cycle.
abbrev pub IsRanked : Dict (List String) → (String → ℕ) → Type 0
IsRanked deps rank =
    (p c : String) → DependsOn deps c p → mem p (keys deps) ≡ true → rank p < rank c

build_once :
    (entries deps : Dict (List String)) (c : String)
    → count c (keys deps) ≤ 1
    → count c (keys (build entries deps)) ≤ 1
unfolding build
build_once [] deps c h = h
build_once ((k, ds) ∷ entries) deps c h =
    build_once entries (insert k ds deps) c
      (ground (arith, count-keys-insert k c ds deps, mem-count k (keys deps), eq_iff k c))

-- The keys of the dictionary are those of the pairs.
pub mem-build :
    (ps d : Dict (List String)) (k : String)
    → mem k (keys (build ps d)) ≡ (mem k (keys d) || mem k (keys ps))
unfolding build mem
mem-build [] d k = ground arith
mem-build ((j, ds) ∷ ps) d k = ground (
  arith,
  mem-build ps (insert j ds d) k,
  mem-count k (keys (insert j ds d)),
  mem-count k (keys d),
  count-keys-insert j k ds d,
  eq_iff j k,
  eq_iff k j,
)

-- The dictionary that is built holds each id once, so insertion order is an order of its keys.
pub build-IsSetOrder :
    (entries : Dict (List String)) → IsSetOrder (keys (build entries [])) (keys (build entries []))
build-IsSetOrder entries c =
    let none_yet : count c [] ≤ 1 = unfold count in omega arith in
    ground (arith, build_once entries [] c none_yet, mem-count c (keys (build entries [])))

pub position : String → List String → ℕ
position c [] = 0
position c (x ∷ xs) = let rest = suc (position c xs) in if x == c then 0 else rest

module _ (ids : List String) (deps : Dict (List String))
    (set_order : IsSetOrder ids (keys deps)) where
  run : Inv ids deps (sort_run ids deps) × ((sort_run ids deps).queue ≡ [])
  run = sort_run-Inv ids deps set_order

  pub mem-ids : (c : String) → mem c ids ≡ mem c (keys deps)
  mem-ids c = ground (arith, set_order c, mem-count c ids)

  -- At the end an id is placed, once, exactly if it waits for nothing.
  placed_once :
      (c : String)
      → count c (sort_run ids deps).order
        ≡ (if mem c ids && eqb (waits ids (sort_run ids deps).order c deps) 0 then 1 else 0)
  placed_once c =
      let none_queued : count c (sort_run ids deps).queue ≡ 0 = rw run.1 (unfold count in refl) in
      ground (arith, run.0.seen c, run.0.degree c)

  order-le : (c : String) → count c (sort_run ids deps).order ≤ count c ids
  order-le c = ground (arith, placed_once c, mem-count c ids)

  sort_lem :
      (xs : List String)
      → topological_sort ids deps ≡ ordered xs
      → (xs ≡ (sort_run ids deps).order) × (length xs ≡ length ids)
  unfolding topological_sort
  sort_lem xs h = ground arith

  all_placed :
      (c : String)
      → length (sort_run ids deps).order ≡ length ids
      → count c (sort_run ids deps).order ≡ count c ids
  all_placed c h = elim (Bool-cases (ltb (count c (sort_run ids deps).order) (count c ids))) [
    | inl less ↦ absurd (
        omega
          (arith, h, length-lt_of_count (sort_run ids deps).order ids c order-le (ground arith)))
    | inr no_less ↦ ground (arith, order-le c)
  ]

  -- A returned order holds each key of the dictionary once, and nothing else.
  pub count-order :
      (xs : List String) (c : String)
      → topological_sort ids deps ≡ ordered xs
      → count c xs ≡ (if mem c (keys deps) then 1 else 0)
  count-order xs c h =
      let (same, full) = sort_lem xs h in
      rw same (omega (arith, all_placed c (rw same at full), set_order c))

  pub order-ParentsFirst :
      (xs : List String) → topological_sort ids deps ≡ ordered xs → ParentsFirst ids deps [] xs
  order-ParentsFirst xs h = rw ((sort_lem xs h).0) run.0.sorted

  waits-at :
      (seen before after : List String) (c : String)
      → ParentsFirst ids deps seen (before ++ c ∷ after)
      → waits ids (seen ++ before) c deps ≡ 0
  unfolding ParentsFirst
  waits-at seen [] after c h = rw append-nil h.0
  waits-at seen (x ∷ before) after c h =
      rw append_assoc at (waits-at (seen ++ x ∷ []) before after c h.1)

  -- In a returned order every dependency that is on the checklist stands before its task.
  pub parents_before :
      (before after : List String) (c p : String)
      → topological_sort ids deps ≡ ordered (before ++ c ∷ after)
      → DependsOn deps c p
      → mem p (keys deps) ≡ true
      → mem p before ≡ true
  parents_before before after c p h e k =
      waits-zero_placed ids before p c deps
        (waits-at [] before after c (order-ParentsFirst (before ++ c ∷ after) h)) e (mem-ids p ∙ k)

  position-lt :
      (seen xs : List String) (c p : String)
      → ParentsFirst ids deps seen xs
      → 0 < count c xs
      → DependsOn deps c p
      → mem p ids ≡ true
      → (mem p seen ≡ true) ⊎ (position p xs < position c xs)
  unfolding ParentsFirst position count
  position-lt seen [] c p h n e k = absurd (omega arith)
  position-lt seen (x ∷ xs) c p h n e k = elim (Bool-cases (x == c)) [
    | inl here ↦ inl (waits-zero_placed ids seen p c deps (rw ((eq_iff x c).0 here) at h.0) e k)
    | inr other ↦
        let later : 0 < count c xs = ground arith in
        ground (arith, position-lt (seen ++ x ∷ []) xs c p h.1 later e k, mem-snoc p x seen)
  ]

  -- The position in a returned order ranks the tasks.
  position-IsRanked :
      (xs : List String)
      → topological_sort ids deps ≡ ordered xs
      → IsRanked deps (λ c. position c xs)
  position-IsRanked xs h p c e k =
      let there : 0 < count c xs = ground (arith, count-order xs c h, edges_key p c deps e) in
      elim (position-lt [] xs c p (order-ParentsFirst xs h) there e (mem-ids p ∙ k)) [
        | inl nowhere ↦ absurd (unfold mem in cc)
        | inr less ↦ less
      ]

  module _ (rank : String → ℕ) (ranked : IsRanked deps rank) where
    -- Below any rank every id is placed: what it depends on has a lower rank.
    placed_below :
        (n : ℕ) (c : String)
        → rank c < n
        → mem c ids ≡ true
        → mem c (sort_run ids deps).order ≡ true
    placed_below zero c below h = elim below [ ]
    placed_below (suc n) c below h =
        let idle : waits ids (sort_run ids deps).order c deps ≡ 0 =
          waits-zero ids (sort_run ids deps).order c deps
            λ p e k. placed_below n p (omega (arith, ranked p c e (sym (mem-ids p) ∙ k))) k in
        ground (arith, placed_once c, mem-count c (sort_run ids deps).order)

    ranked_ordered : topological_sort ids deps ≡ ordered (sort_run ids deps).order
    unfolding topological_sort
    ranked_ordered =
        let full : length ids ≤ length (sort_run ids deps).order =
          length-le_of_count ids (sort_run ids deps).order λ c. ground (
            arith,
            placed_below (suc (rank c)) c,
            mem-count c ids,
            mem-count c (sort_run ids deps).order,
            order-le c,
            set_order c,
          ) in
        let no_more : length (sort_run ids deps).order ≤ length ids =
          length-le_of_count (sort_run ids deps).order ids order-le in
        ground arith

  -- The sort returns an order exactly if the dependencies on the checklist have no cycle.
  pub topological_sort_iff :
      ((xs : List String) × (topological_sort ids deps ≡ ordered xs))
      ↔ ((rank : String → ℕ) × IsRanked deps rank)
  topological_sort_iff = (
    λ (xs, h). ((λ c. position c xs), position-IsRanked xs h),
    λ (rank, ranked). ((sort_run ids deps).order, ranked_ordered rank ranked),
  )

  leftover :
      (cs : List String)
      → topological_sort ids deps ≡ cyclic cs
      → (cs ≡ keep (λ c. ltb 0 ((sort_run ids deps).in_degree c)) ids)
        × (length (sort_run ids deps).order ≢ length ids)
  unfolding topological_sort
  leftover cs h = ground arith

  -- Each id that the error names is on the checklist and depends on another id that it names.
  pub cyclic_closed :
      (cs : List String) (c : String)
      → topological_sort ids deps ≡ cyclic cs
      → mem c cs ≡ true
      → (p : String) × DependsOn deps c p × (mem p cs ≡ true)
  cyclic_closed cs c h m =
      let (same, short) = leftover cs h in
      let left = λ (d : String). count-keep (λ e. ltb 0 ((sort_run ids deps).in_degree e)) d ids in
      let m' : mem c (keep (λ d. ltb 0 ((sort_run ids deps).in_degree d)) ids) ≡ true =
        rw same at m in
      let busy : 0 < waits ids (sort_run ids deps).order c deps = ground (
        arith,
        mem-count c (keep (λ d. ltb 0 ((sort_run ids deps).in_degree d)) ids),
        left c,
        run.0.degree c,
      ) in
      let (p, e, known, absent) = waits-pos ids (sort_run ids deps).order c deps busy in
      (
        p,
        e,
        rw same (
            ground (
              arith,
              mem-count p (keep (λ d. ltb 0 ((sort_run ids deps).in_degree d)) ids),
              left p,
              run.0.degree p,
              placed_once p,
              mem-count p (sort_run ids deps).order,
              mem-count p ids,
            )),
      )
