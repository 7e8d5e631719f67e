-- ===== src/Docs/Url.antt =====
-- web/app/api/page.tsx: the values of the parameters, and the URL that a test goes to.
use Prim.Native.String.{count, [], ◌∷◌}
use wgtemporary_email.Base.{
  String, Bool, true, false, Option, none, some, List, [], ◌∷◌, str_eq, filter, map, if◌then◌else◌,
}
use wgtemporary_email.Base.Dict.{Dict, lookup, insert}
use wgtemporary_email.Base.Text.{
  ◌+++◌, is_empty, or_empty, trim, join, starts_with, drop_chars, encode_uri_component,
}
use wgtemporary_email.Docs.Endpoints.{
  ParamDef, ParamKind, path, query, body, body_text, header, Endpoint, ep_key,
}

-- What the user typed, by endpoint and by parameter.
abbrev pub Values : Type 0
Values = Dict (Dict String)

-- `getSavedToken`, from the saved address: none where there is none or it cannot be read, and else its
-- `token`.
abbrev pub get_saved_token : Option (Option String) → String
get_saved_token none = ""
get_saved_token (some token) = or_empty token

-- `ep.params.find((p) => p.name === name)?.defaultFrom === "savedToken"`
abbrev has_default : String → List ParamDef → Bool
has_default name [] = false
has_default name (p ∷ ps) = if str_eq p.name name then p.default_from else has_default name ps

abbrev pub entry_of : String → Option (Dict String) → Option String
entry_of name none = none
entry_of name (some d) = lookup name d

-- `values[epKey(ep)]?.[name]`
abbrev pub typed_value : String → String → Values → Option String
typed_value key name values = entry_of name (lookup key values)

abbrev pub or_default : Option (Option String) → Endpoint → String → Option String → String
or_default saved ep name (some v) = v
or_default saved ep name none = if has_default name ep.params then get_saved_token saved else ""

-- `getParam`
unfoldable pub get_param : Option (Option String) → Values → Endpoint → String → String
unfolding ep_key
get_param saved values ep name = or_default saved ep name (typed_value (ep_key ep) name values)

abbrev pub or_new : Option (Dict String) → Dict String
or_new none = []
or_new (some d) = d

-- `setParam`
unfoldable pub set_param : Endpoint → String → String → Values → Values
unfolding ep_key
set_param ep name value values =
    insert (ep_key ep) (insert name value (or_new (lookup (ep_key ep) values))) values

-- `s.replace(p, by)`, at a `p` that is not empty and a `by` without `$`: the first occurrence.
unfoldable pub replace_first : String → String → String → String
unfolding starts_with drop_chars
replace_first p by [] = []
replace_first p by (c ∷ s) =
    let rest = replace_first p by s in
    if starts_with p (c ∷ s) then by +++ drop_chars (count p) (c ∷ s) else c ∷ rest

abbrev pub same_kind : ParamKind → ParamKind → Bool
same_kind path path = true
same_kind query query = true
same_kind body body = true
same_kind body_text body_text = true
same_kind header header = true
same_kind _ _ = false

-- `ep.params.filter((x) => x.type === kind)`
abbrev pub params_of : ParamKind → Endpoint → List ParamDef
params_of kind ep = filter (λ p. same_kind p.kind kind) ep.params

-- The loop over the path's parameters, over their values: none where one is empty.
unfoldable pub fill_path : (String → String) → List ParamDef → String → Option String
unfolding replace_first encode_uri_component trim
fill_path value [] text = some text
fill_path value (p ∷ ps) text =
    let v = trim (value p.name) in
    let rest =
      fill_path value ps (replace_first ("{" +++ p.name +++ "}") (encode_uri_component v) text) in
    if is_empty v then none else rest

-- The query's parameters that have a value, with it.
unfoldable pub query_pairs : (String → String) → List ParamDef → Dict String
unfolding trim
query_pairs value [] = []
query_pairs value (p ∷ ps) =
    let rest = query_pairs value ps in
    let v = trim (value p.name) in if is_empty v then rest else (p.name, v) ∷ rest

abbrev pair_text : String × String → String
pair_text (name, value) = encode_uri_component name +++ "=" +++ encode_uri_component value

-- `qs.length ? "?" + … : ""`
abbrev query_text : Dict String → String
query_text [] = ""
query_text (x ∷ xs) = "?" +++ join "&" (map pair_text (x ∷ xs))

-- `buildUrl`, without its alert, which follows where it is none
unfoldable pub build_url : (api_url : String) → (String → String) → Endpoint → Option String
unfolding fill_path query_pairs join
build_url api_url value ep = elim (fill_path value (params_of path ep) ep.path) [
  | none ↦ none
  | some text ↦ some (api_url +++ text +++ query_text (query_pairs value (params_of query ep)))
]
