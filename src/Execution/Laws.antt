-- ===== src/Execution/Laws.antt =====
-- When an execution succeeds, and what it leaves.
use fptcloud_hc_automation_m.Base.{
  ℕ, String, Bool, true, false, ◌||◌, ◌&&◌, ◌⊎◌, sym, Option, none, some, ◌≡◌, ◌↔◌, inl, inr, refl,
  arith, eqb, Bool-cases,
}
use fptcloud_hc_automation_m.Classification.Patterns.{ClassifiedError}
use fptcloud_hc_automation_m.Execution.{
  Run, ended, command_error, other_error, Steps, Execution, returned, escaped, failed, applied,
  planned, bootstrapped, execute,
}

-- A command that ends with one of the codes.
abbrev pub exits : Run → (ℕ → Bool) → Bool
exits (ended code stdout stderr) test = test code
exits (command_error m) test = false
exits (other_error m) test = false

abbrev no_error : Option String → Bool
no_error none = true
no_error (some text) = false

-- terraform plan -detailed-exitcode: 0 is no change, 2 is changes.
abbrev pub plans : Steps → Bool
plans s = no_error s.bootstrap && exits s.plan (λ n. eqb n 0 || eqb n 2)

-- All steps pass.
abbrev pub passes : Steps → Bool
passes s = plans s && exits s.apply (λ n. eqb n 0)

-- The command raises an exception with the message.
abbrev pub Raises : Run → String → Type 0
Raises r m = (r ≡ command_error m) ⊎ (r ≡ other_error m)

module _ (classify : String → ClassifiedError) (plan_message : ℕ → ClassifiedError → String) where
  -- What an execution's outcome says of the steps. It succeeds exactly if all steps pass; an error
  -- is reported exactly otherwise; a success has the state that was shown; and the workspace goes
  -- exactly after a success that was to clean up. An exception is one of the apply step after a
  -- plan, or one of the plan that is no error of the executor.
  pub IsExplained : Steps → Execution → Type 0
  IsExplained s (escaped message) =
      ((plans s ≡ true) × Raises s.apply message)
      ⊎ ((s.bootstrap ≡ none) × (s.plan ≡ other_error message))
  IsExplained s (returned r kept) =
      (r.success ≡ passes s)
      × ((r.success ≡ true) ↔ (r.error ≡ none))
      × ((r.success ≡ true) → (r.state ≡ s.show))
      × ((kept ≡ false) ↔ ((passes s ≡ true) × (s.cleanup_on_success ≡ true)))

  failed_lem :
      (s : Steps) (code : Option ℕ) (text : String)
      → passes s ≡ false
      → IsExplained s (failed classify plan_message code text)
  unfolding IsExplained failed
  failed_lem s code text bad = (sym bad, (λ h. cc, λ h. cc), λ h. cc, (λ h. cc, λ h. cc (h.0, bad)))

  applied_lem :
      (s : Steps) (code : ℕ) (a : Run)
      → s.apply ≡ a
      → plans s ≡ true
      → IsExplained s (applied classify plan_message s code a)
  unfolding applied
  applied_lem s code (command_error m) e p = unfold IsExplained in inl (p, inl e)
  applied_lem s code (other_error m) e p = unfold IsExplained in inl (p, inr e)
  applied_lem s code (ended rc out err) e p = elim (Bool-cases (eqb rc 0)) [
    | inl ok_ ↦
        let all_ : passes s ≡ true = rw (p, e) ok_ in
        rw ok_ (
          unfold IsExplained in
          (
            sym all_,
            (λ h. refl, λ h. refl),
            λ h. refl,
            (λ h. (all_, ground arith), λ h. ground arith),
          ))
    | inr bad ↦ rw bad (failed_lem s (some code) _ (rw (p, e) bad))
  ]

  planned_lem :
      (s : Steps) (p : Run)
      → s.bootstrap ≡ none
      → s.plan ≡ p
      → IsExplained s (planned classify plan_message s p)
  unfolding planned
  planned_lem s (command_error m) b e = failed_lem s none m (rw (b, e) refl)
  planned_lem s (other_error m) b e = unfold IsExplained in inr (b, e)
  planned_lem s (ended rc out err) b e = elim (Bool-cases (eqb rc 0 || eqb rc 2)) [
    | inl ok_ ↦ rw ok_ (applied_lem s rc s.apply refl (rw (b, e) ok_))
    | inr bad ↦ rw bad (failed_lem s none _ (rw (b, e, bad) refl))
  ]

  bootstrapped_lem :
      (s : Steps) (b : Option String)
      → s.bootstrap ≡ b
      → IsExplained s (bootstrapped classify plan_message s b)
  unfolding bootstrapped
  bootstrapped_lem s none e = planned_lem s s.plan e refl
  bootstrapped_lem s (some text) e = failed_lem s none text (rw e refl)

  -- An execution that returns succeeds exactly if nothing is raised before the plan, the plan ends
  -- with 0 or 2, and the apply with 0; it reports an error exactly otherwise; a success has the
  -- state that was shown, and the workspace is removed exactly after a success that was to clean
  -- up. An exception that leaves it is one of the apply step, or one of the plan that is no error
  -- of the executor.
  pub execute_lem : (s : Steps) → IsExplained s (execute classify plan_message s)
  unfolding execute
  execute_lem s = bootstrapped_lem s s.bootstrap refl
