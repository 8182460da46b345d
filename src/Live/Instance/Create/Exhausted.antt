-- ===== src/Live/Instance/Create/Exhausted.antt =====
-- What the retries of an entry did that used up its attempts.
use fptcloud_hc_automation_m.Base.{
  ℕ, zero, suc, ◌+◌, false, Option, none, some, List, [], ◌∷◌, ◌≡◌, inl, inr, refl, ◌++◌,
  Bool-cases,
}
use fptcloud_hc_automation_m.Live.Instance.Attempt.{
  ImageCreateResult, Creation, Setting, attempt_image,
}
use fptcloud_hc_automation_m.Live.Instance.Create.{
  Queued, Fate, exhausted, judge, started, refailed, retry_image,
}

module _ (c : Setting) where
  -- An attempt with the number failed for the entry's image, and not by a quota.
  pub record IsFailed (number : ℕ) (q : Queued) : Type 0 where
    pub before : Creation
    pub result : ImageCreateResult
    pub after : Creation
    pub ends : attempt_image c number q.image q.rest before ≡ some (result, after)
    pub not_succeeded : result.succeeded ≡ false
    pub not_quota : result.is_quota ≡ false

  -- The second and the third attempt failed.
  abbrev pub IsUsedUp : Queued → Type 0
  IsUsedUp q = IsFailed 2 q × IsFailed 3 q

  abbrev pub AllUsedUp : List Queued → Type 0
  AllUsedUp [] = Unit
  AllUsedUp (q ∷ qs) = IsUsedUp q × AllUsedUp qs

  pub AllUsedUp-snoc :
      (qs : List Queued) (q : Queued) → AllUsedUp qs → IsUsedUp q → AllUsedUp (qs ++ q ∷ [])
  AllUsedUp-snoc [] q a u = (u, tt)
  AllUsedUp-snoc (p ∷ qs) q a u = (a.0, AllUsedUp-snoc qs q a.1 u)

  -- The attempts that `left` more retries from a number on make, all of which failed.
  abbrev AllFailed : ℕ → ℕ → Queued → Type 0
  AllFailed zero number q = IsFailed number q
  AllFailed (suc left) number q = IsFailed number q × AllFailed left (number + 1) q

  judge_exhausted :
      (r : ImageCreateResult) (v w : Creation) (later : Creation → Option Fate)
      → judge r v later ≡ some (exhausted w)
      → (r.succeeded ≡ false) × (r.is_quota ≡ false) × (later v ≡ some (exhausted w))
  unfolding judge
  judge_exhausted r v w later h = elim (Bool-cases r.succeeded) [
    | inl yes_ ↦ absurd (let k = rw yes_ at h in cc)
    | inr no_ ↦ elim (Bool-cases r.is_quota) [
      | inl full ↦ absurd (let k = rw (no_, full) at h in cc)
      | inr other ↦ (no_, other, rw (no_, other) at h)
    ]
  ]

  tried_exhausted :
      (number : ℕ) (q : Queued) (s w : Creation)
      (later : ImageCreateResult → Creation → Option Fate)
      (o : Option (ImageCreateResult × Creation))
      → attempt_image c number q.image q.rest s ≡ o
      → Path
          (Option Fate)
          (elim o [ none ↦ none | some p ↦ judge p.0 p.1 (λ v. later p.0 v) ])
          (some (exhausted w))
      → IsFailed number q
        × ((r : ImageCreateResult) × (v : Creation) × (later r v ≡ some (exhausted w)))
  tried_exhausted number q s w later none e h = absurd (cc h)
  tried_exhausted number q s w later (some (r, v)) e h =
      let (a, b, next) = judge_exhausted r v w (later r) h in
      (
        record { before = s; result = r; after = v; ends = e; not_succeeded = a; not_quota = b },
        (r, v, next),
      )

  pub exhausted_lem :
      (left number : ℕ) (q : Queued) (s w : Creation)
      → retry_image c.check (attempt_image c) left number q s ≡ some (exhausted w)
      → AllFailed left number q
  unfolding retry_image
  exhausted_lem zero number q s w h =
      (tried_exhausted number q (started s) w _ (attempt_image c number q.image q.rest (started s))
        refl h).0
  exhausted_lem (suc left) number q s w h =
      let (failed, (r, v, next)) =
        tried_exhausted number q (started s) w _ (attempt_image c number q.image q.rest (started s))
          refl h in
      (failed, exhausted_lem left (number + 1) q (refailed v) w next)
