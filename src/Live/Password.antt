-- ===== src/Live/Password.antt =====
-- The generated password (generate_instance_password of src/healthcheck/state.py) and its policy
-- (src/healthcheck/instance_runner.py). A text is the list of its code points; what the module
-- `secrets` draws are arguments.
pub mod Laws
mod Tests
use fptcloud_hc_automation_m.Base.{
  ℕ, zero, suc, ◌+◌, ◌-◌, String, Bool, true, false, not, ◌&&◌, ◌||◌, Option, none, some, List, [],
  ◌∷◌, ◌++◌, if◌then◌else◌, any, all, leb, ltb, eqb, length, codes,
}

abbrev password_min_length : ℕ
password_min_length = 12

abbrev pub is_lower : ℕ → Bool
is_lower n = leb b'a' n && leb n b'z'

abbrev pub is_upper : ℕ → Bool
is_upper n = leb b'A' n && leb n b'Z'

abbrev pub is_digit : ℕ → Bool
is_digit n = leb b'0' n && leb n b'9'

-- char in PASSWORD_SPECIALS
pub is_special : ℕ → Bool
is_special n = any (λ m. eqb m n) (codes "?@*%$&!#")

pub is_allowed : ℕ → Bool
unfolding is_special
is_allowed n = is_lower n || is_upper n || is_digit n || is_special n

-- password_policy_result; `password_redacted` is always set.
pub record PolicyResult : Type 0 where
  pub generated : Bool
  pub length_ok : Bool
  pub no_spaces : Bool
  pub uppercase_present : Bool
  pub lowercase_present : Bool
  pub number_present : Bool
  pub allowed_special_present : Bool
  pub no_disallowed_specials : Bool

pub password_policy_result : List ℕ → PolicyResult
unfolding is_special is_allowed
password_policy_result password = record {
  generated = ltb 0 (length password);
  length_ok = leb password_min_length (length password);
  no_spaces = not (any (λ n. eqb 32 n) password);
  uppercase_present = any is_upper password;
  lowercase_present = any is_lower password;
  number_present = any is_digit password;
  allowed_special_present = any is_special password;
  no_disallowed_specials = all is_allowed password;
}

pub password_policy_valid : List ℕ → Bool
unfolding password_policy_result
password_policy_valid password =
    let r = password_policy_result password in
    r.generated && r.length_ok && r.no_spaces && r.uppercase_present && r.lowercase_present
    && r.number_present && r.allowed_special_present && r.no_disallowed_specials

-- chars[k], within the list, and chars[k] = v.
item_at : ℕ → List ℕ → ℕ
item_at k [] = 0
item_at zero (x ∷ xs) = x
item_at (suc k) (x ∷ xs) = item_at k xs

set_at : ℕ → ℕ → List ℕ → List ℕ
set_at k v [] = []
set_at zero v (x ∷ xs) = v ∷ xs
set_at (suc k) v (x ∷ xs) = x ∷ set_at k v xs

-- chars[i], chars[j] = chars[j], chars[i]
swapped : ℕ → ℕ → List ℕ → List ℕ
unfolding item_at set_at
swapped i j xs = set_at j (item_at i xs) (set_at i (item_at j xs) xs)

-- The loop `for index in range(n, 0, -1)`; `randbelow` gives what is drawn at an index.
shuffled : (ℕ → ℕ) → ℕ → List ℕ → List ℕ
unfolding swapped
shuffled randbelow zero chars = chars
shuffled randbelow (suc n) chars = shuffled randbelow n (swapped (suc n) (randbelow (suc n)) chars)

-- ascii_lowercase, digits and PASSWORD_SPECIALS.
pub lowercase : List ℕ
lowercase = codes "abcdefghijklmnopqrstuvwxyz"

pub uppercase : List ℕ
uppercase = codes "ABCDEFGHIJKLMNOPQRSTUVWXYZ"

pub digits : List ℕ
digits = codes "0123456789"

pub specials : List ℕ
specials = codes "?@*%$&!#"

pub alphabet : List ℕ
unfolding lowercase uppercase digits specials
alphabet = lowercase ++ uppercase ++ digits ++ specials

-- `choice k chars` is what the draw with the number k gives.
module _ (choice : ℕ → List ℕ → ℕ) where
  pub required : List ℕ
  unfolding lowercase uppercase digits specials
  required = choice 0 lowercase ∷ choice 1 uppercase ∷ choice 2 digits ∷ choice 3 specials ∷ []

  -- As many draws from the alphabet, the first with this number.
  pub drawn : ℕ → ℕ → List ℕ
  unfolding alphabet
  drawn k zero = []
  drawn k (suc n) = choice k alphabet ∷ drawn (k + 1) n

-- `none` is the ValueError.
pub generate_instance_password : (ℕ → List ℕ → ℕ) → (ℕ → ℕ) → ℕ → Option (List ℕ)
unfolding shuffled required drawn
generate_instance_password choice randbelow size =
    let chars = required choice ++ drawn choice 4 (size - length (required choice)) in
    if ltb size password_min_length
    then none
    else some (shuffled randbelow (length chars - 1) chars)
