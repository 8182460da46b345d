-- ===== src/Validator/InVm/Quoting.antt =====
-- How the shell that a file test is sent to reads the path back (_build_in_vm_command).
use Prim.Native.Char.{Char, code}
use Prim.Native.String.{◌++◌ as text_append}
use fptcloud_hc_automation_m.Base.{
  ℕ, zero, suc, String, true, false, ◌||◌, Option, none, some, List, [], ◌∷◌, ◌++◌, ◌≡◌, refl, ap,
  arith, eqb, codes, codes-append, Bool-cases, inl, inr,
}
use fptcloud_hc_automation_m.Validator.InVm.{ssh, winrm, replace_quote, file_command}

pub data Mode : Type 0 where
  plain : Mode
  single : Mode
  double : Mode

abbrev pub drop : ℕ → List ℕ → List ℕ
drop zero cs = cs
drop (suc n) [] = []
drop (suc n) (c ∷ cs) = drop n cs

abbrev push : ℕ → Option (List ℕ) → Option (List ℕ)
push c none = none
push c (some cs) = some (c ∷ cs)

-- One word of a POSIX shell command line, up to a space. Single quotes keep all to the next single
-- quote, double quotes all to the next double quote; the characters that are special between double
-- quotes are not read.
pub word : Mode → List ℕ → Option (List ℕ)
word plain [] = some []
word single [] = none
word double [] = none
word plain (c ∷ cs) = elim (eqb c 39) [
  | true ↦ word single cs
  | false ↦ elim (eqb c 34) [
    | true ↦ word double cs
    | false ↦ elim (eqb c 32) [ true ↦ some [] | false ↦ push c (word plain cs) ]
  ]
]
word single (c ∷ cs) = elim (eqb c 39) [ true ↦ word plain cs | false ↦ push c (word single cs) ]
word double (c ∷ cs) = elim (eqb c 34) [
  | true ↦ word plain cs
  | false ↦ elim (eqb c 36 || eqb c 92 || eqb c 96) [
    | true ↦ none
    | false ↦ push c (word double cs)
  ]
]

-- A literal text of PowerShell after its opening quote: a doubled quote stands for one.
pub data Seen : Type 0 where
  text : Seen
  quote : Seen

pub literal : Seen → List ℕ → Option (List ℕ)
literal text [] = none
literal quote [] = some []
literal text (c ∷ cs) = elim (eqb c 39) [
  | true ↦ literal quote cs
  | false ↦ push c (literal text cs)
]
literal quote (c ∷ cs) = elim (eqb c 39) [ true ↦ push c (literal text cs) | false ↦ some [] ]

is_quote : (n : ℕ) → eqb n 39 ≡ true → n ≡ 39
is_quote n e = ground arith

module _ (by : String) (c : Char) (s : String) where
  replace_mark :
      eqb (code c) 39 ≡ true
      → replace_quote by (String.◌∷◌ c s) ≡ text_append by (replace_quote by s)
  unfolding replace_quote
  replace_mark e = rw e refl

  replace_other :
      eqb (code c) 39 ≡ false
      → replace_quote by (String.◌∷◌ c s) ≡ String.◌∷◌ c (replace_quote by s)
  unfolding replace_quote
  replace_other e = rw e refl

word_other :
    (c : ℕ) (cs : List ℕ) → eqb c 39 ≡ false → word single (c ∷ cs) ≡ push c (word single cs)
unfolding word
word_other c cs e = rw (word, e) refl

literal_other :
    (c : ℕ) (cs : List ℕ) → eqb c 39 ≡ false → literal text (c ∷ cs) ≡ push c (literal text cs)
unfolding literal
literal_other c cs e = rw (literal, e) refl

word-replace :
    (s : String) (tail : List ℕ)
    → word single (codes (replace_quote "'\"'\"'" s) ++ 39 ∷ 32 ∷ tail) ≡ some (codes s)
unfolding word replace_quote
word-replace String.[] tail = refl
word-replace (String.◌∷◌ c s) tail = elim (Bool-cases (eqb (code c) 39)) [
  | inl e ↦
      rw (replace_mark "'\"'\"'" c s e, codes-append)
        (rw (is_quote (code c) e) (ap (push 39) (word-replace s tail)))
  | inr e ↦
      rw (replace_other "'\"'\"'" c s e, word_other (code c) _ e)
        (ap (push (code c)) (word-replace s tail))
]

literal-replace :
    (s : String) (tail : List ℕ)
    → literal text (codes (replace_quote "''" s) ++ 39 ∷ 41 ∷ tail) ≡ some (codes s)
unfolding literal replace_quote
literal-replace String.[] tail = refl
literal-replace (String.◌∷◌ c s) tail = elim (Bool-cases (eqb (code c) 39)) [
  | inl e ↦
      rw (replace_mark "''" c s e, codes-append)
        (rw (is_quote (code c) e) (ap (push 39) (literal-replace s tail)))
  | inr e ↦
      rw (replace_other "''" c s e, literal_other (code c) _ e)
        (ap (push (code c)) (literal-replace s tail))
]

-- The POSIX shell reads the word after `test -e ` as the path itself, whatever the path holds.
pub file_command_ssh :
    (path : String) → word plain (drop 8 (codes (file_command ssh path))) ≡ some (codes path)
unfolding file_command word
file_command_ssh path =
    rw (codes-append, codes-append) (word-replace path (codes "&& echo true || echo false"))

-- PowerShell reads the literal after `if (Test-Path -LiteralPath '` as the path itself.
pub file_command_winrm :
    (path : String) → literal text (drop 28 (codes (file_command winrm path))) ≡ some (codes path)
unfolding file_command
file_command_winrm path =
    rw (codes-append, codes-append) (literal-replace path (codes " { 'true' } else { 'false' }"))
