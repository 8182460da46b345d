-- ===== src/Checklist/Loader/Tests.antt =====
-- A machine that depends on its subnet by the registry, and on a test case that it names.
use fptcloud_hc_automation_m.Base.{
  ◌≤◌, String, not, ◌&&◌, ◌||◌, List, [], ◌∷◌, ◌≡◌, ◌==◌, mem, count,
}
use fptcloud_hc_automation_m.Checklist.Loader.{
  all_depends_on, inferred_deps, collect, is_of, dependencies_lem,
}

abbrev cases : List (String × String)
cases = ("TC-001", "create_subnet") ∷ ("TC-002", "create_instance") ∷ []

abbrev actions : List String
actions = "create_instance" ∷ "create_subnet" ∷ []

dependencies_lem_example :
    let deps =
      all_depends_on
        ("TC-009" ∷ [])
        (inferred_deps (collect cases []) actions "TC-002" ("TC-009" ∷ [])) in
    (mem "TC-001" deps ≡ (
      mem "TC-001" ("TC-009" ∷ []) || (is_of cases actions "TC-001" && not ("TC-001" == "TC-002"))))
    × (count "TC-001" deps ≤ 1)
dependencies_lem_example = dependencies_lem cases actions "TC-002" ("TC-009" ∷ []) "TC-001"
