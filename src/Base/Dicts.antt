-- ===== src/Base/Dicts.antt =====
-- Python's `dict` with text keys: an association list in insertion order. Assignment to a key that
-- is present keeps the key's position. A dictionary whose keys are fixed is also modelled as the
-- function that `update` changes at one key.
use Prim.Native.Nat.{◌+◌}
use Prim.Native.String.{String}
use mathlib.Core.Path.{◌≡◌, refl}
use mathlib.Core.Bool.{not}
use mathlib.Core.Option.{Option, none, some}
use mathlib.Core.List.{List, [], ◌∷◌, map}
use native.Mathlib.Omega.{arith}
use text.Mathlib.Text.{◌==◌}
use text.Mathlib.TextEquality.{eq_iff}
use fptcloud_hc_automation_m.Base.Tests.{if◌then◌else◌}
use fptcloud_hc_automation_m.Base.Lists.{count, mem, keep}

abbrev pub Dict {ℓ} : Type ℓ → Type ℓ
Dict V = List (String × V)

abbrev pub update {ℓ} : {V : Type ℓ} → (String → V) → String → V → String → V
update f k v j = if k == j then v else f j

module _ {ℓ} {V : Type ℓ} where
  abbrev pub keys : Dict V → List String
  keys = map (λ e. e.0)

  -- d.get(k)
  unfoldable pub lookup : String → Dict V → Option V
  lookup k [] = none
  lookup k ((j, v) ∷ d) = let rest = lookup k d in if j == k then some v else rest

  -- d[k] = v
  unfoldable pub insert : String → V → Dict V → Dict V
  insert k v [] = (k, v) ∷ []
  insert k v ((j, w) ∷ d) = let rest = (j, w) ∷ insert k v d in if j == k then (j, v) ∷ d else rest

  pub lookup-insert :
      (k j : String) (v : V) (d : Dict V)
      → lookup j (insert k v d) ≡ (if k == j then some v else lookup j d)
  unfolding lookup insert
  lookup-insert k j v [] = refl
  lookup-insert k j v ((i, w) ∷ d) =
      ground (arith, eq_iff k j, eq_iff i k, eq_iff i j, lookup-insert k j v d)

  -- Assignment adds the key once if it is absent and changes no other key.
  pub count-keys-insert :
      (k j : String) (v : V) (d : Dict V)
      → count j (keys (insert k v d))
        ≡ count j (keys d) + (if mem k (keys d) then 0 else (if k == j then 1 else 0))
  unfolding insert count mem
  count-keys-insert k j v [] = ground arith
  count-keys-insert k j v ((i, w) ∷ d) =
      ground (arith, eq_iff k j, eq_iff i k, eq_iff i j, count-keys-insert k j v d)

  -- To drop every entry of a key drops that key and no other.
  pub lookup-keep_ne :
      (k j : String) (d : Dict V)
      → lookup j (keep (λ e. not (e.0 == k)) d) ≡ (if k == j then none else lookup j d)
  unfolding lookup keep
  lookup-keep_ne k j [] = ground arith
  lookup-keep_ne k j ((i, v) ∷ d) =
      ground (arith, lookup-keep_ne k j d, eq_iff i k, eq_iff i j, eq_iff k j)
