-- ===== src/Stage/Select.antt =====
-- The stages that a filter selects (select_stages of src/healthcheck/spec_loader.py): one stage and
-- what it depends on. The recursion is bounded by a depth; `none` is Python's RecursionError.
mod Laws
mod Tests
use fptcloud_hc_automation_m.Base.{
  ℕ, zero, suc, String, Bool, true, false, Option, none, some, List, [], ◌∷◌, ◌==◌, ◌>>=◌,
  if◌then◌else◌, Dict, lookup, insert,
}
use fptcloud_hc_automation_m.Stage.{StageSpec}

-- k in d
pub has {ℓ} : {V : Type ℓ} → String → Dict V → Bool
has k d = elim (lookup k d) [ none ↦ false | some v ↦ true ]

module _ (spec : Dict StageSpec) where
  -- The loop over the dependencies, where `add` is the recursive call.
  each :
      (String → Dict StageSpec → Option (Dict StageSpec))
      → List String
      → Dict StageSpec
      → Option (Dict StageSpec)
  unfolding has
  each add [] selected = some selected
  each add (d ∷ ds) selected =
      (if has d spec then add d selected else some selected) >>= (λ s. each add ds s)

  add_with_dependencies : ℕ → String → Dict StageSpec → Option (Dict StageSpec)
  unfolding each
  add_with_dependencies zero id selected = none
  add_with_dependencies (suc n) id selected = lookup id spec >>= (λ stage.
      each (add_with_dependencies n) stage.dependency_stages selected
      >>= (λ s. some (insert id stage s)))

  -- The filter is "" if there is none. `depth` bounds the recursion.
  pub select_stages : ℕ → String → Option (Dict StageSpec)
  unfolding add_with_dependencies has
  select_stages depth filter =
      if filter == ""
      then some spec
      else if has filter spec
      then add_with_dependencies depth filter []
      else some []
