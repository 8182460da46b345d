-- ===== src/Classification/Laws.antt =====
-- Which texts are quota failures, and a rule that is never reached.
use fptcloud_hc_automation_m.Base.{
  ℕ, String, Bool, true, false, List, [], ◌∷◌, ◌++◌, ◌≡◌, ◌≢◌, ◌↔◌, refl, arith, codes, lower,
  within, is_prefix,
}
use fptcloud_hc_automation_m.Classification.{
  Failure, is_quota_error, has, says_quota, after_quota, classify_error,
  instance_password_policy_invalid, subnet_cidr_overlap, backend_error_after_valid_inputs,
  endpoint_or_datasource_mismatch, backend_system_error, object_storage_region_disabled,
}

prefix-append : (p q ys : List ℕ) → is_prefix (p ++ q) ys ≡ true → is_prefix p ys ≡ true
prefix-append [] q ys h = refl
prefix-append (x ∷ p) q [] h = cc
prefix-append (x ∷ p) q (y ∷ ys) h = ground (arith, prefix-append p q ys)

-- What a text holds, it holds the beginning of.
within-append : (p q ys : List ℕ) → within (p ++ q) ys ≡ true → within p ys ≡ true
unfolding within
within-append p q [] h = prefix-append p q [] h
within-append p q (y ∷ ys) h = ground (arith, prefix-append p q (y ∷ ys), within-append p q ys)

-- A text that speaks of an exceeded password is never a password failure, although a rule says so:
-- it also holds "exceed", and the rules on quotas come first.
pub exceeded_password_lem :
    (validated : Bool) (text resource_type : String)
    → has "exceeded password" (lower text) ≡ true
    → classify_error validated text resource_type ≢ instance_password_policy_invalid
unfolding classify_error says_quota after_quota
exceeded_password_lem validated text resource_type h e =
    let lowered = lower text in
    let exceed : has "exceed" lowered ≡ true =
      within-append (codes "exceed") (codes "ed password") lowered h in
    ground arith

-- The faults of the provider that the rules before those on quotas name.
pub is_provider_fault : Failure → Bool
is_provider_fault subnet_cidr_overlap = true
is_provider_fault backend_error_after_valid_inputs = true
is_provider_fault endpoint_or_datasource_mismatch = true
is_provider_fault backend_system_error = true
is_provider_fault object_storage_region_disabled = true
is_provider_fault _ = false

after_lem : (lowered : List ℕ) → is_quota_error (after_quota lowered) ≡ false
unfolding after_quota is_quota_error
after_lem lowered = ground arith

not_fault : (lowered : List ℕ) → is_provider_fault (after_quota lowered) ≡ false
unfolding after_quota is_provider_fault
not_fault lowered = ground arith

-- A failure counts as one of quota, which starts a reclaim, exactly if its text speaks of a quota
-- or a limit and it is not one of the provider's own faults.
pub quota_iff :
    (validated : Bool) (text resource_type : String)
    → (is_quota_error (classify_error validated text resource_type) ≡ true) ↔ (
        (says_quota (lower text) ≡ true)
        × (is_provider_fault (classify_error validated text resource_type) ≡ false))
unfolding classify_error is_quota_error is_provider_fault
quota_iff validated text resource_type =
    let no = after_lem (lower text) in
    let off = not_fault (lower text) in (λ h. (ground arith, ground arith), λ h. ground arith)
