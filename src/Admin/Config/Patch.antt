-- ===== src/Admin/Config/Patch.antt =====
-- web/app/admin/config/page.tsx: the patch that handleSave makes of the form. `integer` is JavaScript's
-- `Number` on a text, where that is an integer that is not negative; a number of another kind is refused
-- as a text that is none.
use wgtemporary_email.Base.{
  ℕ, String, Bool, true, false, not, ◌&&◌, Option, none, some, List, [], ◌∷◌, str_eq, ltb, filter,
  map, if◌then◌else◌, same_bool,
}
use wgtemporary_email.Base.Dict.{lookup, insert}
use wgtemporary_email.Base.Text.{is_empty, trim, split, join, show}
use wgtemporary_email.Page.{Phrase, say}
use wgtemporary_email.Admin.Requests.{Value, bool, num, str, strs}
use wgtemporary_email.Admin.Config.Fields.{
  IntField, BoolField, int_fields, bool_fields, min_allowed, Config, get_value, Input, typed,
  ticked, Form, name_of, text_input, allow_origins,
}

-- `(patch[section] ||= {})[key] = value`
abbrev pub put : String → String → Value → Config → Config
put section key value patch =
    insert section (insert key value (elim (lookup section patch) [ none ↦ [] | some d ↦ d ])) patch

-- What the code above the request does: it has a patch, it shows an error and stops, or it throws.
pub data Step : Type 0 where
  patched : Config → Step
  refused : Phrase → Step
  thrown : Step

-- `(form[name] ?? "").toString().trim()`
abbrev pub trimmed : Option Input → String
trimmed none = ""
trimmed (some (typed s)) = trim s
trimmed (some (ticked true)) = "true"
trimmed (some (ticked false)) = "false"

-- `form[name] === true`
abbrev pub is_ticked : Option Input → Bool
is_ticked (some (ticked b)) = b
is_ticked _ = false

-- `current !== next` for a Boolean `next`
abbrev pub differs : Option Value → Bool → Bool
differs (some (bool b)) next = not (same_bool b next)
differs _ next = true

-- `current !== text`
abbrev pub differs_text : Option Value → String → Bool
differs_text (some (str s)) t = not (str_eq s t)
differs_text _ t = true

-- `raw === "" || raw === undefined`
abbrev pub is_blank : Option Input → Bool
is_blank none = true
is_blank (some (typed s)) = is_empty s
is_blank (some (ticked _)) = false

abbrev pub int_error : IntField → Step
int_error f = refused (say "admin.intMinError" (("n", show (min_allowed f)) ∷ []))

-- The loop over BOOL_FIELDS.
unfoldable pub patch_bools : Config → Form → List BoolField → Config → Config
unfolding get_value
patch_bools config form [] patch = patch
patch_bools config form (f ∷ fs) patch =
    let next = is_ticked (lookup (name_of f.section f.key) form) in
    patch_bools config form fs (
      if differs (get_value config f.section f.key) next
      then put f.section f.key (bool next) patch
      else patch)

-- The host names of the form, where they are new.
unfoldable pub patch_hosts : Config → Form → Config → Config
unfolding get_value trim
patch_hosts config form patch =
    let hostname = trimmed (lookup "server.hostname" form) in
    let web_hostname = trimmed (lookup "web.hostname" form) in
    let with_host =
      if not (is_empty hostname) && differs_text (get_value config "server" "hostname") hostname
      then put "server" "hostname" (str hostname) patch
      else patch in
    if str_eq web_hostname (text_input (get_value config "web" "hostname"))
    then with_host
    else put "web" "hostname" (str web_hostname) with_host

abbrev pub token_changed : String → Bool
token_changed admin_token_input = not (is_empty (trim admin_token_input))

abbrev pub patch_token : String → Config → Config
patch_token token patch =
    if token_changed token then put "admin" "token" (str (trim token)) patch else patch

-- The origins of the text area, a line each.
unfoldable pub origins_of : String → List String
unfolding split trim
origins_of text = filter (λ s. not (is_empty s)) (map trim (split 10 text))

unfoldable pub patch_origins : String → Option (List String) → Config → Step
unfolding origins_of join
patch_origins text none patch = thrown
patch_origins text (some current) patch =
    if str_eq (join "\n" (origins_of text)) (join "\n" current)
    then patched patch
    else patched (put "cors" "allow_origins" (strs (origins_of text)) patch)

-- What follows the loop over INT_FIELDS. It reads the configuration, which is null until it came.
unfoldable pub patch_rest : Option Config → Form → String → String → Step → Step
unfolding patch_bools patch_hosts patch_origins allow_origins
patch_rest config form token origins (refused m) = refused m
patch_rest config form token origins thrown = thrown
patch_rest none form token origins (patched p) = thrown
patch_rest (some config) form token origins (patched p) =
    patch_origins origins (allow_origins config)
      (patch_token token (patch_hosts config form (patch_bools config form bool_fields p)))

module _ (integer : String → Option ℕ) where
  -- `Number(raw)` of a field that is neither "" nor undefined
  abbrev pub number_of : Input → Option ℕ
  number_of (typed s) = integer s
  number_of (ticked true) = some 1
  number_of (ticked false) = some 0

  -- A field's number, checked against its least value.
  abbrev pub checked_int : IntField → Option Input → Option ℕ
  checked_int f none = none
  checked_int f (some raw) = elim (number_of raw) [
    | none ↦ none
    | some n ↦ if ltb n (min_allowed f) then none else some n
  ]

  -- A round of the loop over INT_FIELDS, with what the later rounds make of a field that is skipped, and
  -- of a number.
  abbrev pub patch_int : IntField → Option Input → Step → (ℕ → Step) → Step
  patch_int f raw skipped rest =
      if is_blank raw
      then skipped
      else elim (checked_int f raw) [ none ↦ int_error f | some n ↦ rest n ]

  -- The loop over INT_FIELDS.
  unfoldable pub patch_ints : Form → List IntField → Config → Step
  unfolding min_allowed
  patch_ints form [] patch = patched patch
  patch_ints form (f ∷ fs) patch =
      patch_int f (lookup (name_of f.section f.key) form) (patch_ints form fs patch)
        (λ n. patch_ints form fs (put f.section f.key (num n) patch))

  -- handleSave up to its test for an empty patch.
  unfoldable pub patch_of : Option Config → Form → String → String → Step
  unfolding patch_ints patch_rest
  patch_of config form token origins =
      patch_rest config form token origins (patch_ints form int_fields [])
