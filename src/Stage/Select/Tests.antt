-- ===== src/Stage/Select/Tests.antt =====
-- Three stages in a chain, and one that depends on itself.
use fptcloud_hc_automation_m.Base.{
  ℕ, String, true, false, some, List, [], ◌∷◌, ◌==◌, ◌≡◌, refl, arith, Dict, lookup, insert, mem,
  if◌then◌else◌, eq_iff, Bool-cases, inl, inr, ◌||◌,
}
use fptcloud_hc_automation_m.Stage.{StageSpec}
use fptcloud_hc_automation_m.Stage.Select.{has, select_stages}
use fptcloud_hc_automation_m.Stage.Select.Laws.{IsRank, select_ends, IsClosed, selected_lem}

abbrev stage : String → List String → StageSpec
stage id dependencies = record {
  id = id;
  automation_status = "automated";
  required_inputs = [];
  required_cloud_resources = [];
  cleanup_behavior = "";
  dependency_stages = dependencies;
  safe_for_daily_run = true;
}

abbrev chain : Dict StageSpec
chain = ("a", stage "a" []) ∷ ("b", stage "b" ("a" ∷ [])) ∷ []

abbrev rank : String → ℕ
rank id = if id == "b" then 1 else 0

chain-IsRank : IsRank chain rank
unfolding IsRank lookup mem has
chain-IsRank id s d e m h = elim (Bool-cases ("a" == id)) [
  | inl x ↦
      let same : stage "a" [] ≡ s = let k = rw x at e in cc in
      let none_ : false ≡ true = rw (← same) at m in absurd (cc none_)
  | inr x ↦ elim (Bool-cases ("b" == id)) [
    | inl y ↦
        let same : stage "b" ("a" ∷ []) ≡ s = let k = rw (x, y) at e in cc in
        let first : (("a" == d) || false) ≡ true = rw (← same) at m in
        let f : "a" ≡ d = (eq_iff "a" d).0 (ground arith) in
        let g : "b" ≡ id = (eq_iff "b" id).0 y in rw (← f, ← g) (omega arith)
    | inr y ↦ let k = rw (x, y) at e in cc
  ]
]

select_ends_example : (out : Dict StageSpec) × (select_stages chain 2 "b" ≡ some out)
select_ends_example = select_ends chain rank 2 "b" chain-IsRank (omega arith)

chain_selected : select_stages chain 2 "b" ≡ some chain
unfolding select_stages lookup insert
chain_selected = refl

selected_lem_example : IsClosed chain chain × (has "b" chain ≡ has "b" chain)
selected_lem_example = selected_lem chain 2 "b" chain refl chain_selected
