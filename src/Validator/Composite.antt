-- ===== src/Validator/Composite.antt =====
-- CompositeValidator: the verdict over all the assertions of a task, in three modes. A validator is
-- a function of the assertion; the task and the state are those of the call.
use mathlib.Core.List.Permᴰ
use mathlib.Core.List.{Permᴰ}
use fptcloud_hc_automation_m.Base.{
  String, Bool, true, false, none, some, List, [], ◌∷◌, ◌++◌, map, ◌==◌, ◌≡◌, refl, ap, ◌∙◌, arith,
  if◌then◌else◌, Dict, lookup, any,
}
use fptcloud_hc_automation_m.Validator.Model.{
  Verdict, pass, fail, inconclusive, ValidationResult, result, ExpectedAssertion, Reason,
  no_assertions, unknown_validator,
}

abbrev is_verdict : Verdict → Verdict → Bool
is_verdict pass pass = true
is_verdict fail fail = true
is_verdict inconclusive inconclusive = true
is_verdict _ _ = false

pub join_messages : List ValidationResult → List Reason
join_messages [] = []
join_messages (r ∷ rs) = r.message ++ join_messages rs

-- `any(result.verdict == v for result in results)`
any_verdict : Verdict → List ValidationResult → Bool
any_verdict v rs = any (λ r. is_verdict r.verdict v) rs

joined : Verdict → List ValidationResult → ValidationResult
joined v rs = record { verdict = v; message = join_messages rs }

or_mode : List ValidationResult → ValidationResult
unfolding joined any_verdict
or_mode rs =
    if any_verdict pass rs
    then joined pass rs
    else if any_verdict inconclusive rs
    then joined inconclusive rs
    else joined fail rs

and_mode : List ValidationResult → ValidationResult
unfolding joined any_verdict
and_mode rs =
    if any_verdict fail rs
    then joined fail rs
    else if any_verdict inconclusive rs
    then joined inconclusive rs
    else joined pass rs

abbrev negated : Verdict → Verdict
negated pass = fail
negated fail = pass
negated inconclusive = inconclusive

-- Only the first result counts; `joined` is not made.
not_mode : ValidationResult → ValidationResult
not_mode first = record { verdict = negated first.verdict; message = first.message }

module _ (validators : Dict (ExpectedAssertion → ValidationResult)) where
  pub evaluate : ExpectedAssertion → ValidationResult
  evaluate a = elim (lookup a.type validators) [
    | none ↦ result fail (unknown_validator a.type)
    | some v ↦ v a
  ]

  pub evaluate_all : List ExpectedAssertion → String → ValidationResult
  unfolding or_mode and_mode not_mode
  evaluate_all [] mode = result inconclusive no_assertions
  evaluate_all (a ∷ as_) mode =
      let results = map evaluate (a ∷ as_) in
      if mode == "or"
      then or_mode results
      else if mode == "not"
      then not_mode (evaluate a)
      else and_mode results

-- The verdicts in order: fail, inconclusive, pass. The lower and the higher of two.
pub worse : Verdict → Verdict → Verdict
worse fail v = fail
worse inconclusive fail = fail
worse inconclusive _ = inconclusive
worse pass v = v

pub better : Verdict → Verdict → Verdict
better pass v = pass
better inconclusive pass = pass
better inconclusive _ = inconclusive
better fail v = v

pub worst : List Verdict → Verdict
worst [] = pass
worst (v ∷ vs) = worse v (worst vs)

pub best : List Verdict → Verdict
best [] = fail
best (v ∷ vs) = better v (best vs)

-- The verdict of each assertion by itself.
abbrev pub verdicts :
    Dict (ExpectedAssertion → ValidationResult) → List ExpectedAssertion → List Verdict
verdicts validators as_ = map (λ a. (evaluate validators a).verdict) as_

and_mode-worst :
    (rs : List ValidationResult) → (and_mode rs).verdict ≡ worst (map (λ r. r.verdict) rs)
unfolding and_mode worst worse any
and_mode-worst [] = refl
and_mode-worst (r ∷ rs) = ground (arith, and_mode-worst rs)

or_mode-best : (rs : List ValidationResult) → (or_mode rs).verdict ≡ best (map (λ r. r.verdict) rs)
unfolding or_mode best better any
or_mode-best [] = refl
or_mode-best (r ∷ rs) = ground (arith, or_mode-best rs)

module _ (validators : Dict (ExpectedAssertion → ValidationResult)) where
  map-verdicts :
      (xs : List ExpectedAssertion)
      → map (λ (r : ValidationResult). r.verdict) (map (evaluate validators) xs)
        ≡ verdicts validators xs
  map-verdicts [] = refl
  map-verdicts (a ∷ xs) = ap (◌∷◌ (evaluate validators a).verdict) (map-verdicts xs)

  -- Without assertions nothing is concluded, in any mode. With some, the mode "or" gives the best
  -- verdict of the assertions, every mode but "or" and "not" the worst, and "not" the opposite of
  -- the first one's verdict.
  pub evaluate_all_verdict :
      (a : ExpectedAssertion) (xs : List ExpectedAssertion) (mode : String)
      → ((evaluate_all validators [] mode).verdict ≡ inconclusive)
        × ((evaluate_all validators (a ∷ xs) mode).verdict ≡ (
            if mode == "or"
            then best (verdicts validators (a ∷ xs))
            else if mode == "not"
            then negated (evaluate validators a).verdict
            else worst (verdicts validators (a ∷ xs))))
  unfolding evaluate_all
  evaluate_all_verdict a xs mode =
      let results = map (evaluate validators) (a ∷ xs) in
      (refl, ground (arith, and_mode-worst results, or_mode-best results, map-verdicts (a ∷ xs)))

worse_swap : (u v w : Verdict) → worse u (worse v w) ≡ worse v (worse u w)
unfolding worse
worse_swap pass v w = refl
worse_swap fail pass w = refl
worse_swap fail fail w = refl
worse_swap fail inconclusive w = refl
worse_swap inconclusive pass w = refl
worse_swap inconclusive fail w = refl
worse_swap inconclusive inconclusive w = refl

worst-perm : (xs ys : List Verdict) → Permᴰ xs ys → worst xs ≡ worst ys
unfolding worst worse
worst-perm _ _ Permᴰ.nil = refl
worst-perm (x ∷ xs) (y ∷ ys) (Permᴰ.cons e p) = rw (e, worst-perm xs ys p) refl
worst-perm (a ∷ b ∷ l) (a' ∷ b' ∷ _) (Permᴰ.swap e f) = rw (e, f) (worse_swap b' a' (worst l))
worst-perm xs zs (Permᴰ.trans p q) = worst-perm _ _ p ∙ worst-perm _ _ q

better_swap : (u v w : Verdict) → better u (better v w) ≡ better v (better u w)
unfolding better
better_swap fail v w = refl
better_swap pass fail w = refl
better_swap pass pass w = refl
better_swap pass inconclusive w = refl
better_swap inconclusive fail w = refl
better_swap inconclusive pass w = refl
better_swap inconclusive inconclusive w = refl

best-perm : (xs ys : List Verdict) → Permᴰ xs ys → best xs ≡ best ys
unfolding best better
best-perm _ _ Permᴰ.nil = refl
best-perm (x ∷ xs) (y ∷ ys) (Permᴰ.cons e p) = rw (e, best-perm xs ys p) refl
best-perm (a ∷ b ∷ l) (a' ∷ b' ∷ _) (Permᴰ.swap e f) = rw (e, f) (better_swap b' a' (best l))
best-perm xs zs (Permᴰ.trans p q) = best-perm _ _ p ∙ best-perm _ _ q

-- In every mode but "not" the verdict does not depend on the order of the assertions.
pub evaluate_all_order :
    (validators : Dict (ExpectedAssertion → ValidationResult)) (a b : ExpectedAssertion)
    (xs ys : List ExpectedAssertion) (mode : String)
    → (mode == "not") ≡ false
    → Permᴰ (a ∷ xs) (b ∷ ys)
    → (evaluate_all validators (a ∷ xs) mode).verdict
      ≡ (evaluate_all validators (b ∷ ys) mode).verdict
evaluate_all_order validators a b xs ys mode e p =
    let f = λ (c : ExpectedAssertion). (evaluate validators c).verdict in
    ground (
      arith,
      evaluate_all_verdict validators a xs mode,
      evaluate_all_verdict validators b ys mode,
      worst-perm _ _ (Permᴰ.map f p),
      best-perm _ _ (Permᴰ.map f p),
      e,
    )
