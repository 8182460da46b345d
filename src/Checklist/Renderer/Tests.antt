-- ===== src/Checklist/Renderer/Tests.antt =====
-- Variables with a reference inside a list.
use fptcloud_hc_automation_m.Base.{
  ◌&&◌, all, String, List, [], ◌∷◌, ◌≡◌, refl, some, none, ◌==◌, if◌then◌else◌,
}
use fptcloud_hc_automation_m.Queue.Json.{Json, str, num, arr, cons, nil, Members, end, member, get}
use fptcloud_hc_automation_m.Checklist.Renderer.Laws.{
  is_some, has, keys_of, member_references, render_lem,
}
use fptcloud_hc_automation_m.Checklist.Renderer.{
  Piece, literal, reference, validate_context, render, is_scalar, resolve, resolve_members,
  resolve_items, resolve_string, substitute,
}

abbrev pieces : String → List Piece
pieces s = if s == "${context.vpc}-x" then reference "vpc" ∷ literal "-x" ∷ [] else literal s ∷ []

abbrev pub as_text : Json → String
as_text (str s) = s
as_text _ = ""

abbrev vars : Members
vars = member "names" (arr (cons (str "${context.vpc}-x") (cons (num 3) nil))) end

abbrev context : Members
context = member "vpc" (str "v1") end

vars_render :
    render pieces as_text vars context
    ≡ some (member "names" (arr (cons (str "v1-x") (cons (num 3) nil))) end)
unfolding render validate_context is_scalar resolve_members resolve resolve_items resolve_string
    substitute get
vars_render = refl

-- An absent key and a value that is no scalar are errors.
no_key : render pieces as_text vars end ≡ none
unfolding render validate_context resolve_members resolve resolve_items resolve_string substitute
    get
no_key = refl

no_scalar : render pieces as_text end (member "vpc" (arr nil) end) ≡ none
unfolding render validate_context is_scalar
no_scalar = refl

render_lem_example :
    is_some (render pieces as_text vars context)
    ≡ (validate_context context && all (has context) ("vpc" ∷ []))
unfolding member_references keys_of
render_lem_example = render_lem pieces as_text vars context
