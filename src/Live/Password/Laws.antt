-- ===== src/Live/Password/Laws.antt =====
-- Every password that is generated fulfils the policy.
use fptcloud_hc_automation_m.Base.{
  ℕ, zero, suc, ◌+◌, ◌-◌, ◌≤◌, ◌<◌, Bool, true, false, not, some, List, [], ◌∷◌, ◌≡◌, refl, arith,
  if◌then◌else◌, any, all, ltb, eqb, length, Bool-cases, inl, inr, ◌∙◌, sym, ap,
}
use fptcloud_hc_automation_m.Live.Password.{
  is_lower, is_upper, is_digit, is_special, is_allowed, password_policy_result,
  password_policy_valid, item_at, set_at, swapped, shuffled, generate_instance_password, lowercase,
  uppercase, digits, specials, alphabet, required, drawn,
}

-- How many characters pass a test.
pub tally : (ℕ → Bool) → List ℕ → ℕ
tally p [] = 0
tally p (x ∷ xs) = (if p x then 1 else 0) + tally p xs

any-tally : (p : ℕ → Bool) (xs : List ℕ) → any p xs ≡ ltb 0 (tally p xs)
unfolding any tally
any-tally p [] = refl
any-tally p (x ∷ xs) = ground (arith, any-tally p xs)

all-tally : (p : ℕ → Bool) (xs : List ℕ) → all p xs ≡ eqb 0 (tally (λ x. not (p x)) xs)
unfolding all tally
all-tally p [] = refl
all-tally p (x ∷ xs) = ground (arith, all-tally p xs)

length-set_at : (k v : ℕ) (xs : List ℕ) → length (set_at k v xs) ≡ length xs
unfolding set_at
length-set_at k v [] = refl
length-set_at zero v (x ∷ xs) = refl
length-set_at (suc k) v (x ∷ xs) = ap suc (length-set_at k v xs)

module _ (p : ℕ → Bool) where
  tally-set_at :
      (k v : ℕ) (xs : List ℕ)
      → k < length xs
      → tally p (set_at k v xs) + (if p (item_at k xs) then 1 else 0)
        ≡ tally p xs + (if p v then 1 else 0)
  unfolding set_at item_at tally
  tally-set_at k v [] h = absurd (omega arith)
  tally-set_at zero v (x ∷ xs) h = omega arith
  tally-set_at (suc k) v (x ∷ xs) h = omega (arith, tally-set_at k v xs (omega arith))

  item-set_at :
      (j i v : ℕ) (xs : List ℕ)
      → j < length xs
      → item_at j (set_at i v xs) ≡ (if eqb i j then v else item_at j xs)
  unfolding set_at item_at
  item-set_at j i v [] h = absurd (omega arith)
  item-set_at zero zero v (x ∷ xs) h = ground arith
  item-set_at zero (suc i) v (x ∷ xs) h = ground arith
  item-set_at (suc j) zero v (x ∷ xs) h = ground arith
  item-set_at (suc j) (suc i) v (x ∷ xs) h = ground (arith, item-set_at j i v xs (omega arith))

  tally-swapped :
      (i j : ℕ) (xs : List ℕ)
      → i < length xs
      → j < length xs
      → tally p (swapped i j xs) ≡ tally p xs
  unfolding swapped
  tally-swapped i j xs h k =
      let a = item_at i xs in
      let b = item_at j xs in
      let ys = set_at i b xs in
      let kept : item_at j ys ≡ b = ground (arith, item-set_at j i b xs k) in
      let last = tally-set_at j a ys (omega (arith, length-set_at i b xs, k)) in
      ground (arith, tally-set_at i b xs h, rw kept at last)

  tally-shuffled :
      (draw : ℕ → ℕ) (n : ℕ) (xs : List ℕ)
      → n < length xs
      → ((k : ℕ) → draw k ≤ k)
      → (tally p (shuffled draw n xs) ≡ tally p xs) × (length (shuffled draw n xs) ≡ length xs)
  unfolding shuffled swapped
  tally-shuffled draw zero xs h d = (refl, refl)
  tally-shuffled draw (suc n) xs h d =
      let ys = swapped (suc n) (draw (suc n)) xs in
      let size : length ys ≡ length xs =
        length-set_at (draw (suc n)) (item_at (suc n) xs)
          (set_at (suc n) (item_at (draw (suc n)) xs) xs)
        ∙ length-set_at (suc n) (item_at (draw (suc n)) xs) xs in
      let (same, long) = tally-shuffled draw n ys (omega (arith, size, h)) d in
      (same ∙ tally-swapped (suc n) (draw (suc n)) xs h (omega (arith, d (suc n), h)), long ∙ size)

no_space : (xs : List ℕ) → all is_allowed xs ≡ true → any (λ n. eqb 32 n) xs ≡ false
unfolding all any is_allowed is_special
no_space [] h = refl
no_space (x ∷ xs) h = ground (arith, no_space xs)

-- What `choice` of `secrets` promises: an element of a list that is not empty.
abbrev pub IsChoice : (ℕ → List ℕ → ℕ) → Type 0
IsChoice choice =
    (k : ℕ) (x : ℕ) (xs : List ℕ) → any (λ m. eqb m (choice k (x ∷ xs))) (x ∷ xs) ≡ true

-- What is drawn: of each required kind one, the rest from the whole alphabet.
record IsDrawn (size : ℕ) (lower upper digit special : ℕ) (remaining : List ℕ) (draw : ℕ → ℕ)
    : Type 0 where
  lower_ok : is_lower lower ≡ true
  upper_ok : is_upper upper ≡ true
  digit_ok : is_digit digit ≡ true
  special_ok : is_special special ≡ true
  remaining_ok : all is_allowed remaining ≡ true
  remaining_size : length remaining + 4 ≡ size
  below : (k : ℕ) → draw k ≤ k

module _ (size lower upper digit special : ℕ) (remaining : List ℕ) (draw : ℕ → ℕ)
    (m : IsDrawn size lower upper digit special remaining draw) where
  abbrev chars : List ℕ
  chars = lower ∷ upper ∷ digit ∷ special ∷ remaining

  abbrev password : List ℕ
  password = shuffled draw (length chars - 1) chars

  any_kept : (p : ℕ → Bool) → any p password ≡ any p chars
  any_kept p =
      let same = tally-shuffled p draw (length chars - 1) chars (omega arith) m.below in
      any-tally p password ∙ (ap (ltb 0) same.0 ∙ sym (any-tally p chars))

  all_kept : (p : ℕ → Bool) → all p password ≡ all p chars
  all_kept p =
      let q = λ (x : ℕ). not (p x) in
      let same = tally-shuffled q draw (length chars - 1) chars (omega arith) m.below in
      all-tally p password ∙ (ap (eqb 0) same.0 ∙ sym (all-tally p chars))

  size_kept : length password ≡ size
  size_kept =
      let same = tally-shuffled is_lower draw (length chars - 1) chars (omega arith) m.below in
      omega (arith, same.1, m.remaining_size)

  allowed : all is_allowed chars ≡ true
  unfolding all is_allowed
  allowed = ground (arith, m.lower_ok, m.upper_ok, m.digit_ok, m.special_ok, m.remaining_ok)

  valid_lem : 12 ≤ size → password_policy_valid password ≡ true
  unfolding password_policy_valid password_policy_result
  valid_lem long =
      let lower_ : any is_lower password ≡ true =
        any_kept is_lower ∙ unfold any in ground (arith, m.lower_ok) in
      let upper_ : any is_upper password ≡ true =
        any_kept is_upper ∙ unfold any in ground (arith, m.upper_ok) in
      let digit_ : any is_digit password ≡ true =
        any_kept is_digit ∙ unfold any in ground (arith, m.digit_ok) in
      let special_ : any is_special password ≡ true =
        any_kept is_special ∙ unfold any in ground (arith, m.special_ok) in
      let fine : all is_allowed password ≡ true = all_kept is_allowed ∙ allowed in
      let spaceless = no_space password fine in
      rw (spaceless, upper_, lower_, digit_, special_, fine) (ground (arith, size_kept))

-- A member of a list of which all elements pass a test passes it.
passes_member :
    (p : ℕ → Bool) (v : ℕ) (xs : List ℕ)
    → all p xs ≡ true
    → any (λ m. eqb m v) xs ≡ true
    → p v ≡ true
unfolding all any
passes_member p v [] h k = absurd (cc k)
passes_member p v (x ∷ xs) h k = elim (Bool-cases (eqb x v)) [
  | inl here ↦ let e : x ≡ v = ground arith in ap p (sym e) ∙ ground arith
  | inr other ↦ passes_member p v xs (ground arith) (ground arith)
]

module _ (choice : ℕ → List ℕ → ℕ) (good : IsChoice choice) where
  lower_lem : is_lower (choice 0 lowercase) ≡ true
  unfolding lowercase all
  lower_lem = passes_member is_lower (choice 0 lowercase) lowercase refl (good 0 _ _)

  upper_lem : is_upper (choice 1 uppercase) ≡ true
  unfolding uppercase all
  upper_lem = passes_member is_upper (choice 1 uppercase) uppercase refl (good 1 _ _)

  digit_lem : is_digit (choice 2 digits) ≡ true
  unfolding digits all
  digit_lem = passes_member is_digit (choice 2 digits) digits refl (good 2 _ _)

  special_lem : is_special (choice 3 specials) ≡ true
  unfolding specials all is_special any
  special_lem = passes_member is_special (choice 3 specials) specials refl (good 3 _ _)

  alphabet_lem : (k : ℕ) → is_allowed (choice k alphabet) ≡ true
  unfolding alphabet lowercase uppercase digits specials all is_allowed is_special any
  alphabet_lem k = passes_member is_allowed (choice k alphabet) alphabet refl (good k _ _)

  drawn_lem :
      (k n : ℕ) → (all is_allowed (drawn choice k n) ≡ true) × (length (drawn choice k n) ≡ n)
  unfolding drawn all
  drawn_lem k zero = (refl, refl)
  drawn_lem k (suc n) =
      let (a, l) = drawn_lem (k + 1) n in (ground (arith, alphabet_lem k), ap suc l)

-- For whatever `choice` and `randbelow` draw, a password of at least twelve characters is
-- generated. It has the length that is asked for, and fulfils the policy.
pub generated_lem :
    (choice : ℕ → List ℕ → ℕ) (draw : ℕ → ℕ) (size : ℕ)
    → IsChoice choice
    → ((k : ℕ) → draw k ≤ k)
    → 12 ≤ size
    → (password : List ℕ) × (generate_instance_password choice draw size ≡ some password)
      × (length password ≡ size)
      × (password_policy_valid password ≡ true)
unfolding generate_instance_password required
generated_lem choice draw size good below long =
    let enough : ltb size 12 ≡ false = ground arith in
    let rest = drawn choice 4 (size - 4) in
    let (fine, count) = drawn_lem choice good 4 (size - 4) in
    let m : IsDrawn size (choice 0 lowercase) (choice 1 uppercase) (choice 2 digits)
        (choice 3 specials) rest draw =
      record {
        lower_ok = lower_lem choice good;
        upper_ok = upper_lem choice good;
        digit_ok = digit_lem choice good;
        special_ok = special_lem choice good;
        remaining_ok = fine;
        remaining_size = omega (arith, count);
        below = below;
      } in
    (
      password size (choice 0 lowercase) (choice 1 uppercase) (choice 2 digits) (choice 3 specials)
          rest draw m,
      rw enough refl,
      size_kept size (choice 0 lowercase) (choice 1 uppercase) (choice 2 digits) (choice 3 specials)
          rest draw m,
      valid_lem size (choice 0 lowercase) (choice 1 uppercase) (choice 2 digits) (choice 3 specials)
          rest draw m long,
    )
