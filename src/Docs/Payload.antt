-- ===== src/Docs/Payload.antt =====
-- web/app/api/page.tsx: the body of a test. `N` is JavaScript's numbers, `number` its `Number`, none
-- where that is NaN, and `parses` is whether `JSON.parse` reads a text.
use wgtemporary_email.Base.{
  String, Bool, not, Option, none, some, List, [], ◌∷◌, str_eq, filter, map, first, if◌then◌else◌,
  ◌||◌,
}
use wgtemporary_email.Base.Dict.{Dict, insert}
use wgtemporary_email.Base.Text.{is_empty, trim, split}
use wgtemporary_email.Page.{Phrase, plain}
use wgtemporary_email.Docs.Endpoints.{ParamDef, body, body_text, Endpoint}
use wgtemporary_email.Docs.Url.{params_of}

-- A value in the object that is sent.
pub data Field (N : Type 0) : Type 0 where
  str : String → Field N
  flag : Bool → Field N
  num : N → Field N
  strs : List String → Field N

-- What a test sends: nothing, the text as it is, or the text of an object.
pub data Payload (N : Type 0) : Type 0 where
  absent : Payload N
  raw : String → Payload N
  json : Dict (Field N) → Payload N

-- `buildBody`: null, with its alert, or a body.
pub data Built (N : Type 0) : Type 0 where
  refused : Phrase → Built N
  built : Payload N → Built N

-- `v.split(",").map((s) => s.trim()).filter(Boolean)`
unfoldable pub domains_of : String → List String
unfolding split trim
domains_of v = filter (λ s. not (is_empty s)) (map trim (split 0x2c v))

abbrev is_number : String → Bool
is_number name = str_eq name "address_lifetime_hours" || str_eq name "max_storage_mb"

module _ {N : Type 0} (number : String → Option N) where
  -- The field of a parameter with the value `v`, none where it is left out.
  unfoldable pub field_of : String → String → Option (Field N)
  unfolding domains_of
  field_of name v =
      if is_empty v
      then none
      else if str_eq name "domains"
      then some (strs (domains_of v))
      else if str_eq name "allow_custom_usernames"
      then some (flag (str_eq v "true"))
      else if is_number name
      then elim (number v) [ none ↦ none | some n ↦ some (num n) ]
      else some (str v)

  abbrev put_field : String → Option (Field N) → Dict (Field N) → Dict (Field N)
  put_field name none d = d
  put_field name (some v) d = insert name v d

  -- The loop over the fields of the body.
  unfoldable pub fields_of : (String → String) → List ParamDef → Dict (Field N) → Dict (Field N)
  unfolding field_of trim
  fields_of value [] d = d
  fields_of value (p ∷ ps) d =
      fields_of value ps (put_field p.name (field_of p.name (trim (value p.name))) d)

  abbrev raw_body : (String → Bool) → String → Built N
  raw_body parses text =
      if is_empty text
      then refused (plain "api.fillParams")
      else if parses text
      then built (raw text)
      else refused (plain "api.invalidJson")

  abbrev object_body : (String → String) → List ParamDef → Built N
  object_body value [] = built absent
  object_body value (p ∷ ps) = built (json (fields_of value (p ∷ ps) []))

  -- `buildBody`
  unfoldable pub build_body : (parses : String → Bool) → (String → String) → Endpoint → Built N
  unfolding fields_of trim
  build_body parses value ep = elim (first (params_of body_text ep)) [
    | some p ↦ raw_body parses (trim (value p.name))
    | none ↦ object_body value (params_of body ep)
  ]
