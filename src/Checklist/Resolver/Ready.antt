-- ===== src/Checklist/Resolver/Ready.antt =====
-- `ready_tasks`: it makes progress, and what it does with dependencies outside the checklist.
use fptcloud_hc_automation_m.Base.{
  ◌≤◌, ◌<◌, String, true, false, not, ◌&&◌, List, [], ◌∷◌, ◌++◌, ◌≡◌, refl, ◌∙◌, arith, Bool,
  Bool-cases, inl, inr, keep, all, mem, mem-count, count, count-keep, Dict, keys, lookup, eq_iff,
  eq_refl,
}
use fptcloud_hc_automation_m.Checklist.Resolver.{
  IsSetOrder, ordered, topological_sort, deps_of, ready_tasks,
}
use fptcloud_hc_automation_m.Checklist.Resolver.Degrees.{edges, mem-snoc, waits-zero_placed}
use fptcloud_hc_automation_m.Checklist.Resolver.Kahn.{ParentsFirst}
use fptcloud_hc_automation_m.Checklist.Resolver.Order.{
  DependsOn, count-order, order-ParentsFirst, mem-ids,
}

all-mem :
    (ds completed : List String)
    → ((p : String) → 0 < count p ds → mem p completed ≡ true)
    → all (λ d. mem d completed) ds ≡ true
unfolding all count
all-mem [] completed h = refl
all-mem (d ∷ ds) completed h =
    ground (arith, h d, eq_refl d, all-mem ds completed (λ p more. h p (omega arith)))

all-mem_member :
    (ds completed : List String) (p : String)
    → all (λ d. mem d completed) ds ≡ true
    → 0 < count p ds
    → mem p completed ≡ true
unfolding all count
all-mem_member [] completed p h n = absurd (omega arith)
all-mem_member (d ∷ ds) completed p h n = ground (arith, eq_iff d p, all-mem_member ds completed p)

-- What the dictionary gives for a task is among its edges.
count-deps_of :
    (deps : Dict (List String)) (p c : String) → count p (deps_of deps c) ≤ edges p c deps
unfolding lookup edges count
count-deps_of [] p c = omega arith
count-deps_of ((k, ds) ∷ rest) p c = ground (arith, count-deps_of rest p c)

module _ (deps : Dict (List String)) (completed : List String) where
  abbrev pub is_ready : String → Bool
  is_ready c =
      (mem c (keys deps) && not (mem c completed)) && all (λ d. mem d completed) (deps_of deps c)

  pub mem-ready :
      (c : String) (xs : List String)
      → mem c (ready_tasks deps xs completed) ≡ (mem c xs && is_ready c)
  unfolding ready_tasks
  mem-ready c xs =
      ground (arith, mem-count c (keep is_ready xs), mem-count c xs, count-keep is_ready c xs)

  -- A ready task has all its dependencies completed, whether or not they are on the checklist.
  pub ready_complete :
      (xs : List String) (c p : String)
      → mem c (ready_tasks deps xs completed) ≡ true
      → 0 < count p (deps_of deps c)
      → mem p completed ≡ true
  ready_complete xs c p h n =
      all-mem_member (deps_of deps c) completed p (ground (arith, mem-ready c xs)) n

  -- A task that depends on an id which no verdict completes is never ready, although the sort
  -- passes such an id over as satisfied if it is not on the checklist.
  pub external_blocks :
      (xs : List String) (c p : String)
      → 0 < count p (deps_of deps c)
      → mem p completed ≡ false
      → mem c (ready_tasks deps xs completed) ≡ false
  external_blocks xs c p n absent = elim (Bool-cases (mem c (ready_tasks deps xs completed))) [
    | inl h ↦ cc (ready_complete xs c p h n)
    | inr h ↦ h
  ]

  module _ (ids : List String) (set_order : IsSetOrder ids (keys deps))
      (known : (p c : String) → DependsOn deps c p → mem p (keys deps) ≡ true) where
    -- The first task of the order that is not completed is ready.
    first_open :
        (seen xs : List String)
        → ParentsFirst ids deps seen xs
        → ((p : String) → mem p seen ≡ true → mem p completed ≡ true)
        → ((x : String) → mem x xs ≡ true → mem x (keys deps) ≡ true)
        → (c : String) → mem c xs ≡ true
        → mem c completed ≡ false
        → (r : String) × (mem r xs ≡ true) × (is_ready r ≡ true)
    unfolding ParentsFirst mem
    first_open seen [] order before inside c there absent = cc
    first_open seen (x ∷ xs) order before inside c there absent =
        elim (Bool-cases (mem x completed)) [
          | inl done ↦
              let (r, among, ready) =
                first_open (seen ++ x ∷ []) xs order.1
                  (λ p h. ground (arith, mem-snoc p x seen, before p, eq_iff x p))
                  (λ y h. inside y (ground arith)) c (ground (arith, eq_iff x c)) absent in
              (r, ground arith, ready)
          | inr open_ ↦
              let parents : all (λ d. mem d completed) (deps_of deps x) ≡ true =
                all-mem (deps_of deps x) completed λ p n.
                  let e : 0 < edges p x deps = omega (arith, count-deps_of deps p x) in
                  before p (
                    waits-zero_placed ids seen p x deps order.0 e
                      (mem-ids ids deps set_order p ∙ known p x e)) in
              (x, ground (arith, eq_refl x), ground (arith, inside x, eq_refl x))
        ]

    -- If every dependency is on the checklist, then as long as a task of the checklist is not
    -- completed some task is ready, whatever has been completed.
    pub ready_progress :
        (xs : List String) (c : String)
        → topological_sort ids deps ≡ ordered xs
        → mem c (keys deps) ≡ true
        → mem c completed ≡ false
        → (r : String) × (mem r (ready_tasks deps xs completed) ≡ true)
    ready_progress xs c h there absent =
        let inside = λ (x : String) (m : mem x xs ≡ true).
          let n = count-order ids deps set_order xs x h in
          let e : mem x (keys deps) ≡ true = ground (arith, mem-count x xs) in e in
        let (r, among, ready) =
          first_open [] xs (order-ParentsFirst ids deps set_order xs h)
            (λ p m. absurd (unfold mem in cc)) inside c
            (ground (arith, mem-count c xs, count-order ids deps set_order xs c h)) absent in
        (r, ground (arith, mem-ready r xs))
