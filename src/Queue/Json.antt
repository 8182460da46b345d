-- ===== src/Queue/Json.antt =====
-- The values of a JSON document, as Python's `dict`, `list`, `str`, `int`, `bool` and `None`.
use fptcloud_hc_automation_m.Base.{
  ℕ, String, Bool, true, false, not, Option, none, some, List, [], ◌∷◌, ◌==◌, eqb, if◌then◌else◌,
}

mutual
  pub data Json : Type 0 where
    null : Json
    bool : Bool → Json
    num : ℕ → Json
    str : String → Json
    arr : Items → Json
    obj : Members → Json

  pub data Items : Type 0 where
    nil : Items
    cons : Json → Items → Items

  pub data Members : Type 0 where
    end : Members
    member : String → Json → Members → Members

-- d.get(k)
unfoldable pub get : String → Members → Option Json
get k end = none
get k (member j v d) = let rest = get k d in if j == k then some v else rest

-- bool(v)
unfoldable pub truthy : Json → Bool
truthy null = false
truthy (bool b) = b
truthy (num n) = not (eqb n 0)
truthy (str s) = not (s == "")
truthy (arr nil) = false
truthy (arr (cons v vs)) = true
truthy (obj end) = false
truthy (obj (member k v d)) = true

-- `a or b`, where a missing value is `None`.
abbrev pub or_else : Option Json → Json → Json
or_else none b = b
or_else (some a) b = if truthy a then a else b

unfoldable pub items : Items → List Json
items nil = []
items (cons v vs) = v ∷ items vs
