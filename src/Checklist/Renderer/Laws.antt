-- ===== src/Checklist/Renderer/Laws.antt =====
-- When rendering succeeds: the keys that the texts refer to are those of the context.
use fptcloud_hc_automation_m.Base.{
  String, Bool, true, false, ◌&&◌, Option, none, some, List, [], ◌∷◌, ◌++◌, ◌≡◌, refl, arith, all,
}
use fptcloud_hc_automation_m.Queue.Json.{
  Json, null, bool, num, str, arr, obj, Items, nil, cons, Members, end, member, get,
}
use fptcloud_hc_automation_m.Checklist.Renderer.{
  Piece, literal, reference, substitute, resolve_string, resolve, resolve_members, resolve_items,
  validate_context, render,
}

abbrev pub is_some {ℓ} : {A : Type ℓ} → Option A → Bool
is_some none = false
is_some (some a) = true

joined :
    {A B C : Type 0} (a : Option A) (b : Option B) (f : A → B → C)
    → is_some (elim a [ none ↦ none | some x ↦ elim b [ none ↦ none | some y ↦ some (f x y) ] ])
      ≡ (is_some a && is_some b)
joined none b f = refl
joined (some x) none f = refl
joined (some x) (some y) f = refl

all-append : (p : String → Bool) (xs ys : List String) → all p (xs ++ ys) ≡ (all p xs && all p ys)
unfolding all
all-append p [] ys = refl
all-append p (x ∷ xs) ys = ground (arith, all-append p xs ys)

unfoldable pub keys_of : List Piece → List String
keys_of [] = []
keys_of (literal t ∷ ps) = keys_of ps
keys_of (reference key ∷ ps) = key ∷ keys_of ps

abbrev pub has : Members → String → Bool
has context key = is_some (get key context)

module _ (pieces : String → List Piece) (text_of : Json → String) where
  -- The keys that the texts of a value refer to, whether or not a context has them.
  unfoldable mutual
    pub references : Json → List String
    references (str s) = keys_of (pieces s)
    references (obj d) = member_references d
    references (arr vs) = item_references vs
    references _ = []

    pub member_references : Members → List String
    member_references end = []
    member_references (member k v d) = references v ++ member_references d

    pub item_references : Items → List String
    item_references nil = []
    item_references (cons v vs) = references v ++ item_references vs

  found-substitute :
      (context : Members) (ps : List Piece)
      → is_some (substitute pieces text_of context ps) ≡ all (has context) (keys_of ps)
  unfolding substitute keys_of all
  found-substitute context [] = refl
  found-substitute context (literal t ∷ ps) = ground (arith, found-substitute context ps)
  found-substitute context (reference key ∷ ps) = ground (arith, found-substitute context ps)

  mutual
    unfolding resolve resolve_members resolve_items resolve_string references member_references
        item_references all

    found-resolve :
        (context : Members) (j : Json)
        → is_some (resolve pieces text_of context j) ≡ all (has context) (references j)
    found-resolve context (str s) = ground (arith, found-substitute context (pieces s))
    found-resolve context (obj d) = ground (arith, found-resolve_members context d)
    found-resolve context (arr vs) = ground (arith, found-resolve_items context vs)
    found-resolve context null = refl
    found-resolve context (bool b) = refl
    found-resolve context (num n) = refl

    found-resolve_members :
        (context d : Members)
        → is_some (resolve_members pieces text_of context d)
          ≡ all (has context) (member_references d)
    found-resolve_members context end = refl
    found-resolve_members context (member k v d) =
        rw
          (
            joined (resolve pieces text_of context v) (resolve_members pieces text_of context d)
                (member k),
            found-resolve context v,
            found-resolve_members context d,
            all-append (has context) (references v) (member_references d),
          )
          refl

    found-resolve_items :
        (context : Members) (vs : Items)
        → is_some (resolve_items pieces text_of context vs) ≡ all (has context) (item_references vs)
    found-resolve_items context nil = refl
    found-resolve_items context (cons v vs) =
        rw
          (
            joined (resolve pieces text_of context v) (resolve_items pieces text_of context vs)
                cons,
            found-resolve context v,
            found-resolve_items context vs,
            all-append (has context) (references v) (item_references vs),
          )
          refl

  -- Rendering succeeds exactly if the context holds scalars only and has every key that a text of
  -- the variables refers to, at any depth.
  pub render_lem :
      (vars context : Members)
      → is_some (render pieces text_of vars context)
        ≡ (validate_context context && all (has context) (member_references vars))
  unfolding render
  render_lem vars context = ground (arith, found-resolve_members context vars)
