-- ===== src/Checklist/Resolver/Tests.antt =====
-- A checklist with a diamond of dependencies, one with a cycle, and one with an outside dependency.
use fptcloud_hc_automation_m.Base.{
  ℕ, String, true, List, [], ◌∷◌, ◌≡◌, ◌↔◌, refl, arith, mem, count, Dict, keys, insert, keep,
  eq_iff,
}
use fptcloud_hc_automation_m.Checklist.Resolver.{
  ordered, cyclic, build, topological_sort, sort_run, ready_tasks, add_edge, add_deps, add_all,
  relax, drain,
}
use fptcloud_hc_automation_m.Checklist.Resolver.Degrees.{edges}
use fptcloud_hc_automation_m.Checklist.Resolver.Order.{
  DependsOn, IsRanked, build-IsSetOrder, parents_before, topological_sort_iff, cyclic_closed,
}
use fptcloud_hc_automation_m.Checklist.Resolver.Ready.{ready_progress}

abbrev entries : Dict (List String)
entries = ("TC-003", "TC-001" ∷ "TC-002" ∷ []) ∷ ("TC-001", []) ∷ ("TC-002", "TC-001" ∷ []) ∷ []

abbrev sample : Dict (List String)
sample = build entries []

abbrev sample_ids : List String
sample_ids = keys sample

abbrev sample_order : List String
sample_order = "TC-001" ∷ "TC-002" ∷ "TC-003" ∷ []

sample_sorts : topological_sort sample_ids sample ≡ ordered sample_order
unfolding topological_sort sort_run build insert add_all add_deps add_edge relax drain keep mem
sample_sorts = refl

parents_before_example : mem "TC-001" ("TC-001" ∷ []) ≡ true
unfolding build insert edges mem count
parents_before_example =
    parents_before sample_ids sample (build-IsSetOrder entries) ("TC-001" ∷ []) ("TC-003" ∷ [])
      "TC-002" "TC-001" sample_sorts (omega arith) refl

abbrev looped : Dict (List String)
looped = ("a", "b" ∷ []) ∷ ("b", "a" ∷ []) ∷ ("c", []) ∷ []

looped_cycles :
    topological_sort (keys (build looped [])) (build looped []) ≡ cyclic ("a" ∷ "b" ∷ [])
unfolding topological_sort sort_run build insert add_all add_deps add_edge relax drain keep mem
looped_cycles = refl

topological_sort_iff_example :
    ((xs : List String) × (topological_sort sample_ids sample ≡ ordered xs))
    ↔ ((rank : String → ℕ) × IsRanked sample rank)
topological_sort_iff_example = topological_sort_iff sample_ids sample (build-IsSetOrder entries)

cyclic_closed_example :
    (p : String) × DependsOn (build looped []) "a" p × (mem p ("a" ∷ "b" ∷ []) ≡ true)
unfolding mem
cyclic_closed_example =
    cyclic_closed (keys (build looped [])) (build looped []) (build-IsSetOrder looped)
      ("a" ∷ "b" ∷ []) "a" looped_cycles refl

-- Its dependency "manual" is not on the checklist: the sort accepts it, and it is never ready.
abbrev outside : Dict (List String)
outside = build (("TC-009", "manual" ∷ []) ∷ []) []

outside_sorts : topological_sort (keys outside) outside ≡ ordered ("TC-009" ∷ [])
unfolding topological_sort sort_run build insert add_all add_deps add_edge relax drain keep mem
outside_sorts = refl

sample_known : (p c : String) → DependsOn sample c p → mem p (keys sample) ≡ true
unfolding build insert edges mem count
sample_known p c h = ground (arith, eq_iff "TC-001" p, eq_iff "TC-002" p)

ready_progress_example :
    (r : String) × (mem r (ready_tasks sample sample_order ("TC-001" ∷ [])) ≡ true)
unfolding build insert mem
ready_progress_example =
    ready_progress sample ("TC-001" ∷ []) sample_ids (build-IsSetOrder entries) sample_known
      sample_order "TC-003" sample_sorts refl refl
