-- ===== src/Checklist/Resolver/Kahn.antt =====
-- The loop of `_topological_sort`: its invariant, and that it ends on the fuel given.
use mathlib.Core.List.{append-nil, append_assoc}
use fptcloud_hc_automation_m.Base.{
  ℕ, zero, suc, ◌+◌, ◌-◌, ◌≤◌, ◌<◌, String, true, false, ◌&&◌, List, [], ◌∷◌, ◌++◌, ◌==◌, ◌≡◌, refl,
  ap, arith, if◌then◌else◌, ltb, eqb, length, length-append, length-le_of_count, mem, mem-count,
  count, count-append, count-snoc, count-keep, Dict, keys, eq_iff, eq_refl,
}
use fptcloud_hc_automation_m.Checklist.Resolver.{
  IsSetOrder, Progress, no_edges, add_all, relax, drain, start, sort_run,
}
use fptcloud_hc_automation_m.Checklist.Resolver.Degrees.{
  waits, edges, waits-place, in_degree-waits, children-edges, edges_key,
}

relax-in_degree :
    (cs : List String) (s : Progress) (c : String)
    → (relax cs s).in_degree c ≡ s.in_degree c - count c cs
unfolding relax count
relax-in_degree [] s c = omega arith
relax-in_degree (child ∷ cs) s c =
    let d = s.in_degree child - 1 in
    let s' : Progress = record s {
      in_degree = λ j. if child == j then d else s.in_degree j;
      queue = if eqb d 0 then s.queue ++ child ∷ [] else s.queue;
    } in
    ground (arith, relax-in_degree cs s' c, eq_iff child c)

relax-order : (cs : List String) (s : Progress) → (relax cs s).order ≡ s.order
unfolding relax
relax-order [] s = refl
relax-order (child ∷ cs) s = relax-order cs _

-- A child joins the queue once, when its last edge is taken off.
relax-queue :
    (cs : List String) (s : Progress) (c : String)
    → count c cs ≤ s.in_degree c
    → count c (relax cs s).queue
      ≡ count c s.queue + (if ltb 0 (count c cs) && eqb (s.in_degree c) (count c cs) then 1 else 0)
unfolding relax count
relax-queue [] s c h = ground arith
relax-queue (child ∷ cs) s c h =
    let d = s.in_degree child - 1 in
    let s' : Progress = record s {
      in_degree = λ j. if child == j then d else s.in_degree j;
      queue = if eqb d 0 then s.queue ++ child ∷ [] else s.queue;
    } in
    ground (arith, relax-queue cs s' c, eq_iff child c, count-snoc c child s.queue)

module _ (ids : List String) (deps : Dict (List String)) where
  -- Each id of `xs` has all its dependencies on the checklist in `seen` or before it.
  unfoldable pub ParentsFirst : List String → List String → Type 0
  ParentsFirst seen [] = Unit
  ParentsFirst seen (x ∷ xs) = (waits ids seen x deps ≡ 0) × ParentsFirst (seen ++ x ∷ []) xs

  ParentsFirst-snoc :
      (seen xs : List String) (x : String)
      → ParentsFirst seen xs
      → waits ids (seen ++ xs) x deps ≡ 0
      → ParentsFirst seen (xs ++ x ∷ [])
  unfolding ParentsFirst
  ParentsFirst-snoc seen [] x h w = (rw append-nil at w, tt)
  ParentsFirst-snoc seen (y ∷ xs) x h w =
      (h.0, ParentsFirst-snoc (seen ++ y ∷ []) xs x h.1 (rw append_assoc w))

  -- Between two rounds of the loop: a degree counts the dependencies that are still to come, and
  -- what has been queued, once, is what waits for none.
  pub record Inv (s : Progress) : Type 0 where
    pub degree : (c : String) → s.in_degree c ≡ waits ids s.order c deps
    pub seen :
        (c : String)
        → count c s.queue + count c s.order ≡ (if mem c ids && eqb (s.in_degree c) 0 then 1 else 0)
    pub sorted : ParentsFirst [] s.order

  module _ (set_order : IsSetOrder ids (keys deps)) where
    pub start-Inv : Inv (start ids (add_all ids deps no_edges))
    unfolding ParentsFirst
    start-Inv = record {
      degree = λ c. in_degree-waits ids deps c;
      seen = λ c.
          unfold count in
          ground (
            arith,
            count-keep (λ d. eqb ((add_all ids deps no_edges).in_degree d) 0) c ids,
            set_order c,
            mem-count c ids,
          );
      sorted = tt;
    }

    -- The next id of the queue is on the checklist, waits for nothing and is not yet placed.
    head_facts :
        (s : Progress) (node : String) (queue : List String)
        → Inv s
        → s.queue ≡ node ∷ queue
        → (mem node ids ≡ true) × (s.in_degree node ≡ 0) × (mem node s.order ≡ false)
    head_facts s node queue v e =
        let once = v.seen node in
        let n : count node s.queue ≡ 1 + count node queue =
          rw e (unfold count in ground (arith, eq_refl node)) in
        ground (arith, mem-count node s.order)

    step-Inv :
        (s : Progress) (node : String) (queue : List String)
        → Inv s
        → s.queue ≡ node ∷ queue
        → Inv (
            relax
              ((add_all ids deps no_edges).children node)
              (record s { queue = queue; order = s.order ++ node ∷ [] }))
    step-Inv s node queue v e = record {
      degree =
          λ c. rw relax-order (omega (arith, relax-in_degree cs t c, edge c, v.degree c, place c));
      seen = λ c.
          let taken = relax-in_degree cs t c in
          let placed = count-snoc c node s.order in
          let split : count c s.queue ≡ (if node == c then 1 else 0) + count c queue =
            rw e (unfold count in refl) in
          rw relax-order (
            ground (
              arith,
              taken,
              placed,
              split,
              relax-queue cs t c (fits c),
              v.seen c,
              edge c,
              place c,
              v.degree c,
              key c,
            ));
      sorted =
          rw relax-order
            (ParentsFirst-snoc [] s.order node v.sorted (omega (arith, v.degree node, facts.1)));
    }
      where
        t : Progress
        t = record s { queue = queue; order = s.order ++ node ∷ [] }

        cs : List String
        cs = (add_all ids deps no_edges).children node

        facts : (mem node ids ≡ true) × (s.in_degree node ≡ 0) × (mem node s.order ≡ false)
        facts = head_facts s node queue v e

        edge : (c : String) → count c cs ≡ edges node c deps
        edge c = children-edges ids deps node c facts.0

        place :
            (c : String)
            → waits ids s.order c deps ≡ waits ids (s.order ++ node ∷ []) c deps + edges node c deps
        place c = waits-place ids s.order c deps node facts.0 facts.2

        fits : (c : String) → count c cs ≤ s.in_degree c
        fits c = omega (arith, edge c, place c, v.degree c)

        key : (c : String) → 0 < edges node c deps → mem c ids ≡ true
        key c h = ground (arith, edges_key node c deps h, set_order c, mem-count c ids)

    -- What is queued or placed is on the checklist, each id once.
    fits_ids : (s : Progress) → Inv s → (c : String) → count c (s.queue ++ s.order) ≤ count c ids
    fits_ids s v c = ground (arith, count-append c s.queue s.order, v.seen c, mem-count c ids)

    drain-Inv :
        (fuel : ℕ) (s : Progress)
        → Inv s
        → length ids ≤ length s.order + fuel
        → let s' = drain fuel (add_all ids deps no_edges).children s in Inv s' × (s'.queue ≡ [])
    unfolding drain
    drain-Inv zero s v enough = (v, empty_queue s.queue refl)
      where
        empty_queue : (q : List String) → s.queue ≡ q → s.queue ≡ []
        empty_queue [] e = e
        empty_queue (node ∷ q) e = absurd (
            omega (
              arith,
              length-le_of_count (s.queue ++ s.order) ids (fits_ids s v),
              length-append s.queue s.order,
              ap length e,
            ))
    drain-Inv (suc fuel) s v enough = next s.queue refl (λ t. drain-Inv fuel t)
      where
        kids : String → List String
        kids = (add_all ids deps no_edges).children

        after : String → List String → Progress
        after node q = relax (kids node) (record s { queue = q; order = s.order ++ node ∷ [] })

        next :
            (q : List String)
            → s.queue ≡ q
            → ((t : Progress)
                → Inv t
                → length ids ≤ length t.order + fuel
                → Inv (drain fuel kids t) × ((drain fuel kids t).queue ≡ []))
            → let s' = drain (suc fuel) kids s in Inv s' × (s'.queue ≡ [])
        next [] e rec = rw (e, drain) (v, e)
        next (node ∷ q) e rec =
            rw (e, drain)
              (rec (after node q) (step-Inv s node q v e)
                (rw relax-order (omega (arith, length-append s.order (node ∷ [])))))

    -- The fuel given, one round for each id, is enough: the loop ends with nothing queued.
    pub sort_run-Inv : Inv (sort_run ids deps) × ((sort_run ids deps).queue ≡ [])
    unfolding sort_run
    sort_run-Inv =
        drain-Inv (length ids) (start ids (add_all ids deps no_edges)) start-Inv (omega arith)
