-- ===== src/Queue/Wire.antt =====
-- A serialiser that meets the record `Codec`, for the tests: a value is written in front of a text
-- and read off it again.
pub mod Values
use Prim.Native.Char.{Char, code}
use fptcloud_hc_automation_m.Base.{
  ℕ, zero, suc, String, Bool, true, false, Option, none, some, List, [], ◌∷◌, ◌++◌, ◌≡◌, refl, ap,
  ◌∙◌, sym, arith, eqb,
}
use fptcloud_hc_automation_m.Queue.Json.{
  Json, null, bool, num, str, arr, obj, Items, nil, cons, Members, end, member,
}
use fptcloud_hc_automation_m.Queue.Task.{RetryPolicy, TaskSpec, Scheduled, Codec}

pub record Wire {ℓ} (A : Type ℓ) : Type ℓ where
  pub put : A → String → String
  pub get : String → Option (A × String)
  pub get-put : (a : A) (s : String) → get (put a s) ≡ some (a, s)

put_nat : ℕ → String → String
put_nat zero s = String.◌∷◌ "0" s
put_nat (suc n) s = String.◌∷◌ "1" (put_nat n s)

abbrev one_more : Option (ℕ × String) → Option (ℕ × String)
one_more none = none
one_more (some (n, s)) = some (suc n, s)

get_nat : String → Option (ℕ × String)
get_nat String.[] = none
get_nat (String.◌∷◌ c s) = elim (eqb (code c) 49) [
  | true ↦ one_more (get_nat s)
  | false ↦ some (0, s)
]

get_nat-put_nat : (n : ℕ) (s : String) → get_nat (put_nat n s) ≡ some (n, s)
unfolding get_nat put_nat
get_nat-put_nat zero s = refl
get_nat-put_nat (suc n) s = ap one_more (get_nat-put_nat n s)

pub nat : Wire ℕ
nat = record { put = put_nat; get = get_nat; get-put = get_nat-put_nat }

put_text : String → String → String
put_text String.[] s = String.◌∷◌ "0" s
put_text (String.◌∷◌ c t) s = String.◌∷◌ "1" (String.◌∷◌ c (put_text t s))

abbrev one_longer : Char → Option (String × String) → Option (String × String)
one_longer c none = none
one_longer c (some (t, s)) = some (String.◌∷◌ c t, s)

get_text : String → Option (String × String)
get_text String.[] = none
get_text (String.◌∷◌ m String.[]) = some ("", "")
get_text (String.◌∷◌ m (String.◌∷◌ c s)) = elim (eqb (code m) 49) [
  | true ↦ one_longer c (get_text s)
  | false ↦ some ("", String.◌∷◌ c s)
]

get_text-end : (s : String) → get_text (String.◌∷◌ "0" s) ≡ some ("", s)
unfolding get_text
get_text-end String.[] = refl
get_text-end (String.◌∷◌ c s) = refl

get_text-put_text : (t s : String) → get_text (put_text t s) ≡ some (t, s)
unfolding get_text put_text
get_text-put_text String.[] s = get_text-end s
get_text-put_text (String.◌∷◌ c t) s = ap (one_longer c) (get_text-put_text t s)

pub text : Wire String
text = record { put = put_text; get = get_text; get-put = get_text-put_text }

module _ {ℓ κ} {A : Type ℓ} {B : Type κ} where
  abbrev then_get : Wire B → Option (A × String) → Option ((A × B) × String)
  then_get w none = none
  then_get w (some (a, s)) = elim (w.get s) [ none ↦ none | some (b, u) ↦ some ((a, b), u) ]

  abbrev pub pair : Wire A → Wire B → Wire (A × B)
  pair v w = record {
    put = λ (a, b) s. v.put a (w.put b s);
    get = λ s. then_get w (v.get s);
    get-put = λ (a, b) s. rw (v.get-put a (w.put b s), then_get, w.get-put b s) refl;
  }

  abbrev read_as : (B → A) → Option (B × String) → Option (A × String)
  read_as f none = none
  read_as f (some (b, s)) = some (f b, s)

  -- A value that is written as another one.
  abbrev pub via : (to : A → B) (from : B → A) → ((a : A) → from (to a) ≡ a) → Wire B → Wire A
  via to from back w = record {
    put = λ a s. w.put (to a) s;
    get = λ s. read_as from (w.get s);
    get-put = λ a s. rw (w.get-put (to a) s) (ap (λ x. some (x, s)) (back a));
  }

module _ {ℓ} {A : Type ℓ} (w : Wire A) where
  size : List A → ℕ
  size [] = 0
  size (a ∷ as_) = suc (size as_)

  put_all : List A → String → String
  put_all [] s = s
  put_all (a ∷ as_) s = w.put a (put_all as_ s)

  abbrev in_front : A → Option (List A × String) → Option (List A × String)
  in_front a none = none
  in_front a (some (as_, s)) = some (a ∷ as_, s)

  get_all : ℕ → String → Option (List A × String)
  get_all zero s = some ([], s)
  get_all (suc n) s = elim (w.get s) [ none ↦ none | some (a, u) ↦ in_front a (get_all n u) ]

  get_all-put_all : (as_ : List A) (s : String) → get_all (size as_) (put_all as_ s) ≡ some (as_, s)
  unfolding get_all put_all size
  get_all-put_all [] s = refl
  get_all-put_all (a ∷ as_) s =
      rw (w.get-put a (put_all as_ s)) (ap (in_front a) (get_all-put_all as_ s))

  abbrev sized_get : Option (ℕ × String) → Option (List A × String)
  sized_get none = none
  sized_get (some (n, s)) = get_all n s

  pub list : Wire (List A)
  list = record {
    put = λ as_ s. put_nat (size as_) (put_all as_ s);
    get = λ s. sized_get (get_nat s);
    get-put = λ as_ s. rw (get_nat-put_nat (size as_) (put_all as_ s)) (get_all-put_all as_ s);
  }

  abbrev to_list : Option A → List A
  to_list none = []
  to_list (some a) = a ∷ []

  abbrev from_list : List A → Option A
  from_list [] = none
  from_list (a ∷ _) = some a

  from-to_list : (o : Option A) → from_list (to_list o) ≡ o
  from-to_list none = refl
  from-to_list (some a) = refl

  pub optional : Wire (Option A)
  optional = via to_list from_list from-to_list list
