-- ===== src/Base/Texts.antt =====
-- Python's `str`: the methods that the program uses. A text that is searched or lowered is the list
-- of its code points. Letters and spaces are those of ASCII.
use Prim.Native.Nat.{ℕ, ◌+◌}
use Prim.Native.Char.{Char, code}
use Prim.Native.String.{String, ◌++◌}
use mathlib.Core.Bool.{Bool, true, false, ◌&&◌, ◌||◌}
use mathlib.Core.List.{List, [], ◌∷◌, map, ◌++◌ as append}
use mathlib.Core.Path.{◌≡◌, ap}
use text.Mathlib.TextLemmas.{nil-append, cons-append}
use text.Mathlib.Text.{◌==◌}
use fptcloud_hc_automation_m.Base.Tests.{leb, eqb, if◌then◌else◌}

abbrev pub codes : String → List ℕ
codes String.[] = []
codes (String.◌∷◌ c s) = code c ∷ codes s

abbrev pub lower_code : ℕ → ℕ
lower_code n = if leb b'A' n && leb n b'Z' then n + 32 else n

-- s.lower()
unfoldable pub lower : String → List ℕ
lower s = map lower_code (codes s)

-- `==` on lists of code points.
abbrev pub same_codes : List ℕ → List ℕ → Bool
same_codes [] [] = true
same_codes (x ∷ xs) (y ∷ ys) = eqb x y && same_codes xs ys
same_codes _ _ = false

abbrev pub is_prefix : List ℕ → List ℕ → Bool
is_prefix [] ys = true
is_prefix (x ∷ xs) [] = false
is_prefix (x ∷ xs) (y ∷ ys) = eqb x y && is_prefix xs ys

-- `part in whole`
unfoldable pub within : List ℕ → List ℕ → Bool
within part [] = is_prefix part []
within part (x ∷ xs) = is_prefix part (x ∷ xs) || within part xs

abbrev pub is_space : Char → Bool
is_space c = eqb (code c) 32 || (leb 9 (code c) && leb (code c) 13)

unfoldable pub lstrip : String → String
lstrip String.[] = String.[]
lstrip (String.◌∷◌ c s) = let rest = lstrip s in if is_space c then rest else String.◌∷◌ c s

unfoldable pub rstrip : String → String
rstrip String.[] = String.[]
rstrip (String.◌∷◌ c s) =
    let rest = rstrip s in if is_space c && rest == "" then String.[] else String.◌∷◌ c rest

-- s.strip()
unfoldable pub strip : String → String
unfolding lstrip rstrip
strip s = rstrip (lstrip s)

abbrev prepend : Char → List String → List String
prepend d [] = String.◌∷◌ d String.[] ∷ []
prepend d (p ∷ ps) = String.◌∷◌ d p ∷ ps

-- s.split(c)
abbrev pub split_on : ℕ → String → List String
split_on c String.[] = "" ∷ []
split_on c (String.◌∷◌ d s) =
    let rest = split_on c s in if eqb (code d) c then "" ∷ rest else prepend d rest

-- s.isdigit()
abbrev all_digits : String → Bool
all_digits String.[] = true
all_digits (String.◌∷◌ c s) = leb b'0' (code c) && leb (code c) b'9' && all_digits s

abbrev pub is_digits : String → Bool
is_digits String.[] = false
is_digits (String.◌∷◌ c s) = all_digits (String.◌∷◌ c s)

pub codes-append : (s t : String) → codes (s ++ t) ≡ append (codes s) (codes t)
codes-append String.[] t = rw nil-append
codes-append (String.◌∷◌ c s) t = rw cons-append (ap (◌∷◌ (code c)) (codes-append s t))
