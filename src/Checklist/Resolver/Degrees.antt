-- ===== src/Checklist/Resolver/Degrees.antt =====
-- What the tables of in-degrees and children hold after they are filled.
use fptcloud_hc_automation_m.Base.{
  ℕ, ◌+◌, ◌<◌, String, true, false, not, ◌&&◌, ◌||◌, List, [], ◌∷◌, ◌++◌, ◌==◌, ◌≡◌, refl, arith,
  if◌then◌else◌, mem, count, count-snoc, Dict, keys, eq_iff, eq_refl, Bool-cases, inl, inr, ltb,
}
use fptcloud_hc_automation_m.Checklist.Resolver.{Tables, add_edge, add_deps, add_all, no_edges}

pub mem-snoc :
    (p node : String) (xs : List String) → mem p (xs ++ node ∷ []) ≡ (mem p xs || node == p)
unfolding mem
mem-snoc p node [] = ground arith
mem-snoc p node (x ∷ xs) = ground (arith, mem-snoc p node xs)

module _ (ids : List String) where
  -- How many of the dependencies `ds` are on the checklist and not yet placed.
  pub unmet : List String → List String → ℕ
  unmet placed [] = 0
  unmet placed (p ∷ ds) = (if mem p ids && not (mem p placed) then 1 else 0) + unmet placed ds

  -- The same for the dependencies of `c`.
  pub waits : List String → String → Dict (List String) → ℕ
  waits placed c [] = 0
  waits placed c ((k, ds) ∷ rest) = (if k == c then unmet placed ds else 0) + waits placed c rest

-- How often `p` is a dependency of `c`.
unfoldable pub edges : String → String → Dict (List String) → ℕ
edges p c [] = 0
edges p c ((k, ds) ∷ rest) = (if k == c then count p ds else 0) + edges p c rest

module _ (ids : List String) where
  unmet-place :
      (placed ds : List String) (node : String)
      → mem node ids ≡ true
      → mem node placed ≡ false
      → unmet ids placed ds ≡ unmet ids (placed ++ node ∷ []) ds + count node ds
  unfolding unmet count
  unmet-place placed [] node h k = refl
  unmet-place placed (p ∷ ds) node h k =
      ground (
        arith,
        unmet-place placed ds node h k,
        mem-snoc p node placed,
        eq_iff p node,
        eq_iff node p,
      )

  -- To place an id lowers what `c` waits for by the number of edges from it.
  pub waits-place :
      (placed : List String) (c : String) (deps : Dict (List String)) (node : String)
      → mem node ids ≡ true
      → mem node placed ≡ false
      → waits ids placed c deps ≡ waits ids (placed ++ node ∷ []) c deps + edges node c deps
  unfolding waits edges
  waits-place placed c [] node h k = refl
  waits-place placed c ((j, ds) ∷ rest) node h k =
      ground (arith, waits-place placed c rest node h k, unmet-place placed ds node h k)

  in_degree-add_deps :
      (tc_id : String) (ds : List String) (t : Tables) (c : String)
      → (add_deps ids tc_id ds t).in_degree c
        ≡ t.in_degree c + (if tc_id == c then unmet ids [] ds else 0)
  unfolding add_deps add_edge unmet mem
  in_degree-add_deps tc_id [] t c = ground arith
  in_degree-add_deps tc_id (p ∷ ds) t c =
      ground (arith, in_degree-add_deps tc_id ds (add_edge ids tc_id p t) c, eq_iff tc_id c)

  children-add_deps :
      (tc_id : String) (ds : List String) (t : Tables) (p c : String)
      → count c ((add_deps ids tc_id ds t).children p)
        ≡ count c (t.children p) + (if mem p ids && tc_id == c then count p ds else 0)
  unfolding add_deps add_edge count
  children-add_deps tc_id [] t p c = ground arith
  children-add_deps tc_id (q ∷ ds) t p c = ground (
    arith,
    children-add_deps tc_id ds (add_edge ids tc_id q t) p c,
    eq_iff q p,
    count-snoc c tc_id (t.children q),
  )

  in_degree-add_all :
      (deps : Dict (List String)) (t : Tables) (c : String)
      → (add_all ids deps t).in_degree c ≡ t.in_degree c + waits ids [] c deps
  unfolding add_all waits
  in_degree-add_all [] t c = ground arith
  in_degree-add_all ((k, ds) ∷ rest) t c =
      ground (arith, in_degree-add_all rest (add_deps ids k ds t) c, in_degree-add_deps k ds t c)

  children-add_all :
      (deps : Dict (List String)) (t : Tables) (p c : String)
      → count c ((add_all ids deps t).children p)
        ≡ count c (t.children p) + (if mem p ids then edges p c deps else 0)
  unfolding add_all edges
  children-add_all [] t p c = ground arith
  children-add_all ((k, ds) ∷ rest) t p c =
      ground (arith, children-add_all rest (add_deps ids k ds t) p c, children-add_deps k ds t p c)

  -- The initial in-degree of an id counts its dependencies on the checklist.
  pub in_degree-waits :
      (deps : Dict (List String)) (c : String)
      → (add_all ids deps no_edges).in_degree c ≡ waits ids [] c deps
  in_degree-waits deps c = ground (arith, in_degree-add_all deps no_edges c)

  -- The children of an id on the checklist hold each task once for each edge.
  pub children-edges :
      (deps : Dict (List String)) (p c : String)
      → mem p ids ≡ true
      → count c ((add_all ids deps no_edges).children p) ≡ edges p c deps
  children-edges deps p c h = unfold count in ground (arith, children-add_all deps no_edges p c)

-- Only a key of the dictionary has dependencies.
pub edges_key :
    (p c : String) (deps : Dict (List String)) → 0 < edges p c deps → mem c (keys deps) ≡ true
unfolding edges mem
edges_key p c [] h = absurd (omega arith)
edges_key p c ((k, ds) ∷ rest) h = ground (arith, edges_key p c rest)

module _ (ids placed : List String) where
  unmet-zero :
      (ds : List String)
      → ((p : String) → 0 < count p ds → mem p ids ≡ true → mem p placed ≡ true)
      → unmet ids placed ds ≡ 0
  unfolding unmet count
  unmet-zero [] h = refl
  unmet-zero (p ∷ ds) h =
      ground (arith, h p, eq_refl p, unmet-zero ds (λ q more. h q (omega arith)))

  -- A task with all its dependencies on the checklist placed waits for none.
  pub waits-zero :
      (c : String) (deps : Dict (List String))
      → ((p : String) → 0 < edges p c deps → mem p ids ≡ true → mem p placed ≡ true)
      → waits ids placed c deps ≡ 0
  unfolding waits edges
  waits-zero c [] h = refl
  waits-zero c ((k, ds) ∷ rest) h = elim (Bool-cases (k == c)) [
    | inl here ↦
        let in_ds : unmet ids placed ds ≡ 0 =
          unmet-zero ds (λ p more. h p (rw here (omega arith))) in
        rw here (omega (arith, in_ds, waits-zero c rest (λ p more. h p (omega arith))))
    | inr other ↦ rw other (omega (arith, waits-zero c rest (λ p more. h p (omega arith))))
  ]

  unmet-zero_placed :
      (ds : List String) (p : String)
      → unmet ids placed ds ≡ 0
      → 0 < count p ds
      → mem p ids ≡ true
      → mem p placed ≡ true
  unfolding unmet count
  unmet-zero_placed [] p z h k = absurd (omega arith)
  unmet-zero_placed (q ∷ ds) p z h k = ground (arith, eq_iff q p, unmet-zero_placed ds p)

  -- Conversely, what a task that waits for none depends on is placed.
  pub waits-zero_placed :
      (p c : String) (deps : Dict (List String))
      → waits ids placed c deps ≡ 0
      → 0 < edges p c deps
      → mem p ids ≡ true
      → mem p placed ≡ true
  unfolding waits edges
  waits-zero_placed p c [] z h k = absurd (omega arith)
  waits-zero_placed p c ((j, ds) ∷ rest) z h k =
      ground (arith, unmet-zero_placed ds p, waits-zero_placed p c rest)

  abbrev Missing : (String → ℕ) → Type 0
  Missing times = (p : String) × (0 < times p) × (mem p ids ≡ true) × (mem p placed ≡ false)

  unmet-pos : (ds : List String) → 0 < unmet ids placed ds → Missing (λ p. count p ds)
  unfolding unmet count
  unmet-pos [] h = absurd (omega arith)
  unmet-pos (p ∷ ds) h = elim (Bool-cases (mem p ids && not (mem p placed))) [
    | inl here ↦ (p, ground (arith, eq_refl p), ground arith, ground arith)
    | inr other ↦
        let (q, more, known, absent) = unmet-pos ds (ground arith) in
        (q, omega arith, known, absent)
  ]

  -- A task that waits has a dependency on the checklist that is not placed.
  pub waits-pos :
      (c : String) (deps : Dict (List String))
      → 0 < waits ids placed c deps
      → Missing (λ p. edges p c deps)
  unfolding waits edges
  waits-pos c [] h = absurd (omega arith)
  waits-pos c ((k, ds) ∷ rest) h = elim (Bool-cases (k == c)) [
    | inl here ↦ elim (Bool-cases (ltb 0 (unmet ids placed ds))) [
      | inl inside ↦
          let (q, more, known, absent) = unmet-pos ds (ground arith) in
          (q, rw here (omega arith), known, absent)
      | inr outside ↦
          let (q, more, known, absent) = waits-pos c rest (ground arith) in
          (q, omega arith, known, absent)
    ]
    | inr other ↦
        let (q, more, known, absent) = waits-pos c rest (ground arith) in
        (q, omega arith, known, absent)
  ]
