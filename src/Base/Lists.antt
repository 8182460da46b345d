-- ===== src/Base/Lists.antt =====
-- Lists measured and searched by native numbers, under the library's names. A list of texts is
-- compared by how often it holds each text: `count` says at once what is a member and how often.
use Prim.Native.Nat.{ℕ, zero, suc, ◌+◌, ◌≤◌, ◌<◌}
use Prim.Native.String.{String}
use mathlib.Core.Path.{◌≡◌, refl, ap}
use mathlib.Core.Logic.{inl, inr}
use mathlib.Core.Bool.{Bool, true, false, ◌&&◌, ◌||◌}
use mathlib.Core.List.{List, [], ◌∷◌, ◌++◌}
use native.Mathlib.Omega.{arith}
use text.Mathlib.Text.{◌==◌}
use text.Mathlib.TextEquality.{eq_iff}
use text.Mathlib.TextPositions.{eq_refl}
use fptcloud_hc_automation_m.Base.Tests.{ltb, Bool-cases, if◌then◌else◌}

module _ {ℓ} {A : Type ℓ} where
  abbrev pub length : List A → ℕ
  length [] = 0
  length (x ∷ xs) = suc (length xs)

  abbrev pub take : ℕ → List A → List A
  take zero xs = []
  take (suc n) [] = []
  take (suc n) (x ∷ xs) = x ∷ take n xs

  -- A comprehension with a test, by a Boolean function.
  unfoldable pub keep : (A → Bool) → List A → List A
  keep p [] = []
  keep p (x ∷ xs) = let rest = keep p xs in if p x then x ∷ rest else rest

  unfoldable pub any : (A → Bool) → List A → Bool
  any p [] = false
  any p (x ∷ xs) = p x || any p xs

  unfoldable pub all : (A → Bool) → List A → Bool
  all p [] = true
  all p (x ∷ xs) = p x && all p xs

  pub length-append : (xs ys : List A) → length (xs ++ ys) ≡ length xs + length ys
  length-append [] ys = omega arith
  length-append (x ∷ xs) ys = omega (arith, length-append xs ys)

-- Python's `x in xs` on texts.
unfoldable pub mem : String → List String → Bool
mem c [] = false
mem c (x ∷ xs) = x == c || mem c xs

unfoldable pub count : String → List String → ℕ
count c [] = 0
count c (x ∷ xs) = (if x == c then 1 else 0) + count c xs

pub count-append : (c : String) (xs ys : List String) → count c (xs ++ ys) ≡ count c xs + count c ys
unfolding count
count-append c [] ys = omega arith
count-append c (x ∷ xs) ys = ground (arith, count-append c xs ys)

pub mem-count : (c : String) (xs : List String) → mem c xs ≡ ltb 0 (count c xs)
unfolding mem count
mem-count c [] = refl
mem-count c (x ∷ xs) = ground (arith, mem-count c xs)

pub count-snoc :
    (c x : String) (xs : List String)
    → count c (xs ++ x ∷ []) ≡ count c xs + (if x == c then 1 else 0)
unfolding count
count-snoc c x xs = ground (arith, count-append c xs (x ∷ []))

pub count-keep :
    (p : String → Bool) (c : String) (xs : List String)
    → count c (keep p xs) ≡ (if p c then count c xs else 0)
unfolding keep count
count-keep p c [] = ground arith
count-keep p c (x ∷ xs) = elim (Bool-cases (x == c)) [
  | inl here ↦ let e = (eq_iff x c).0 here in ground (arith, count-keep p c xs, ap p e)
  | inr other ↦ ground (arith, count-keep p c xs)
]

-- xs.remove(c), the first occurrence.
unfoldable pub remove : String → List String → List String
remove c [] = []
remove c (x ∷ xs) = let rest = x ∷ remove c xs in if x == c then xs else rest

length-remove :
    (c : String) (xs : List String) → 0 < count c xs → length (remove c xs) + 1 ≡ length xs
unfolding remove count
length-remove c [] h = absurd (omega arith)
length-remove c (x ∷ xs) h = ground (arith, length-remove c xs)

pub count-remove :
    (c d : String) (xs : List String)
    → 0 < count c xs
    → count d (remove c xs) + (if c == d then 1 else 0) ≡ count d xs
unfolding remove count
count-remove c d [] h = absurd (omega arith)
count-remove c d (x ∷ xs) h =
    ground (arith, count-remove c d xs, eq_iff x c, eq_iff c d, eq_iff x d)

-- A list that holds nothing more often than another is no longer.
pub length-le_of_count :
    (xs ys : List String) → ((c : String) → count c xs ≤ count c ys) → length xs ≤ length ys
length-le_of_count [] ys h = omega arith
length-le_of_count (x ∷ xs) ys h =
    let present : 0 < count x ys = unfold count in ground (arith, h x, eq_refl x) in
    omega (
      arith,
      length-remove x ys present,
      length-le_of_count xs (remove x ys)
          (λ c. unfold count in ground (arith, h c, count-remove x c ys present)),
    )

-- If it holds something less often, it is shorter.
pub length-lt_of_count :
    (xs ys : List String) (c : String)
    → ((d : String) → count d xs ≤ count d ys)
    → count c xs < count c ys
    → length xs < length ys
length-lt_of_count xs ys c h less =
    length-le_of_count (c ∷ xs) ys (λ d. unfold count in ground (arith, h d, eq_iff c d))
