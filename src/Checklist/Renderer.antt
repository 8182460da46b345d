-- ===== src/Checklist/Renderer.antt =====
-- TemplateRenderer (src/hc/checklist/renderer.py). What `_CONTEXT_REF` finds in a text is a
-- parameter: its matches, each a key, and the text between them. `none` is the RendererError.
pub mod Laws
mod Tests
use fptcloud_hc_automation_m.Base.{
  String, Bool, true, false, ◌&&◌, Option, none, some, List, [], ◌∷◌, ◌++◌, if◌then◌else◌,
}
use fptcloud_hc_automation_m.Queue.Json.{
  Json, null, bool, num, str, arr, obj, Items, nil, cons, Members, end, member, get,
}
use Prim.Native.String.{◌++◌ as text_append}

pub data Piece : Type 0 where
  literal : String → Piece
  reference : String → Piece

unfoldable pub is_scalar : Json → Bool
is_scalar (arr vs) = false
is_scalar (obj d) = false
is_scalar _ = true

unfoldable pub validate_context : Members → Bool
unfolding is_scalar
validate_context end = true
validate_context (member k v d) = is_scalar v && validate_context d

module _ (pieces : String → List Piece) (text_of : Json → String) where
  -- re.sub with `_replace`.
  unfoldable pub substitute : Members → List Piece → Option String
  substitute context [] = some ""
  substitute context (literal t ∷ ps) = elim (substitute context ps) [
    | none ↦ none
    | some rest ↦ some (text_append t rest)
  ]
  substitute context (reference key ∷ ps) =
      let after = substitute context ps in
      elim (get key context) [
        | none ↦ none
        | some v ↦ elim after [ none ↦ none | some rest ↦ some (text_append (text_of v) rest) ]
      ]

  unfoldable pub resolve_string : Members → String → Option String
  resolve_string context s = substitute context (pieces s)

  unfoldable mutual
    pub resolve : Members → Json → Option Json
    resolve context (str s) = elim (resolve_string context s) [
      | none ↦ none
      | some t ↦ some (str t)
    ]
    resolve context (obj d) = elim (resolve_members context d) [
      | none ↦ none
      | some e ↦ some (obj e)
    ]
    resolve context (arr vs) = elim (resolve_items context vs) [
      | none ↦ none
      | some ws ↦ some (arr ws)
    ]
    resolve context null = some null
    resolve context (bool b) = some (bool b)
    resolve context (num n) = some (num n)

    pub resolve_members : Members → Members → Option Members
    resolve_members context end = some end
    resolve_members context (member k v d) = elim (resolve context v) [
      | none ↦ none
      | some w ↦ elim (resolve_members context d) [ none ↦ none | some e ↦ some (member k w e) ]
    ]

    pub resolve_items : Members → Items → Option Items
    resolve_items context nil = some nil
    resolve_items context (cons v vs) = elim (resolve context v) [
      | none ↦ none
      | some w ↦ elim (resolve_items context vs) [ none ↦ none | some ws ↦ some (cons w ws) ]
    ]

  unfoldable pub render : Members → Members → Option Members
  render vars context = if validate_context context then resolve_members context vars else none
