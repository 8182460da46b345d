-- ===== src/Stage/Laws.antt =====
-- When a stage becomes a check that runs.
use fptcloud_hc_automation_m.Base.{
  String, Bool, true, false, not, some, List, [], ◌∷◌, ◌≡◌, ◌↔◌, refl, arith, ◌==◌, all, keep,
}
use fptcloud_hc_automation_m.Stage.{
  StageSpec, Check, Gate, opened, closed, is_empty, safe_cleanup, runnable_spec, then_inputs,
  spec_preflight, if_open, check_from_spec, preflight,
}

none_left : (p : String → Bool) (xs : List String) → is_empty (keep (λ n. not (p n)) xs) ≡ all p xs
unfolding keep all
none_left p [] = refl
none_left p (x ∷ xs) = ground (arith, none_left p xs)

module _ (input_configured stage_ok : String → Bool) where
  -- A stage that may run: automated, safe, with a cleanup if it makes resources, its inputs there
  -- and its dependencies done.
  pub record IsRunnable (s : StageSpec) : Type 0 where
    pub automated : (s.automation_status == "automated") ≡ true
    pub safe : s.safe_for_daily_run ≡ true
    pub cleans :
        is_empty s.required_cloud_resources ≡ false → safe_cleanup s.cleanup_behavior ≡ true
    pub inputs : all input_configured s.required_inputs ≡ true
    pub dependencies : all stage_ok s.dependency_stages ≡ true

  preflight_iff :
      (s : StageSpec) → (spec_preflight input_configured stage_ok s ≡ opened) ↔ IsRunnable s
  unfolding spec_preflight runnable_spec then_inputs
  preflight_iff s =
      let no_missing = none_left input_configured s.required_inputs in
      let no_waiting = none_left stage_ok s.dependency_stages in
      (
        λ h. record {
          automated = ground arith;
          safe = ground arith;
          cleans = λ r. ground arith;
          inputs = ground arith;
          dependencies = ground arith;
        },
        λ m. ground (arith, m.automated, m.safe, m.cleans, m.inputs, m.dependencies),
      )

  module _ {V : Type 0} (has_env : String → Bool) (has_var : V → String → Bool)
      (has_region : V → Bool) (s : StageSpec) (module_name : String) (vars : V)
      (required_vars : List String) where
    -- The check that a stage becomes.
    abbrev pub made : Check V
    made = record {
      name = s.id;
      module_name = module_name;
      vars = vars;
      required_env = [];
      required_vars = required_vars;
      blocked_by = [];
    }

    made_iff : (preflight has_env stage_ok has_var has_region made ≡ opened) ↔ (
        (all (has_var vars) required_vars ≡ true)
        × ((module_name == "object_storage") ≡ true → has_region vars ≡ true))
    unfolding preflight keep
    made_iff =
        let no_empty = none_left (has_var vars) required_vars in
        (λ h. (ground arith, λ m. ground arith), λ h. ground (arith, h.0, h.1))

    check_lem :
        (check_from_spec input_configured stage_ok s module_name vars required_vars ≡ some made)
        ↔ (spec_preflight input_configured stage_ok s ≡ opened)
    unfolding check_from_spec
    check_lem = gate (spec_preflight input_configured stage_ok s)
      where
        gate : (g : Gate) → (if_open input_configured stage_ok g made ≡ some made) ↔ (g ≡ opened)
        gate opened = (λ h. refl, λ h. refl)
        gate (closed reason) = (λ h. cc, λ h. cc)

    -- A stage of the catalog is made into a check that passes its own preflight exactly if the
    -- stage is automated, safe for daily runs, with a safe cleanup where it makes resources, all of
    -- its inputs and dependencies are there, and the check's required variables and, for object
    -- storage, its region are set.
    pub runs_iff :
        ((check_from_spec input_configured stage_ok s module_name vars required_vars ≡ some made)
          × (preflight has_env stage_ok has_var has_region made ≡ opened))
        ↔ (IsRunnable s
            × (all (has_var vars) required_vars ≡ true)
            × ((module_name == "object_storage") ≡ true → has_region vars ≡ true))
    runs_iff = (
      λ (made_, open_).
          ((preflight_iff s).0 (check_lem.0 made_), (made_iff.0 open_).0, (made_iff.0 open_).1),
      λ (able, vars_, region). (check_lem.1 ((preflight_iff s).1 able), made_iff.1 (vars_, region)),
    )
