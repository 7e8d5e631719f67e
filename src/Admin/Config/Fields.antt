-- ===== src/Admin/Config/Fields.antt =====
-- web/app/admin/config/page.tsx: the settings that the page edits, and its form.
use wgtemporary_email.Base.{
  ℕ, String, Bool, true, false, Option, none, some, List, [], ◌∷◌, ◌==◌, if◌then◌else◌,
}
use wgtemporary_email.Base.Dict.{Dict, lookup, insert}
use wgtemporary_email.Base.Text.{◌+++◌, is_empty, join, show}
use wgtemporary_email.Admin.Requests.{Value, null, bool, num, str, strs}

pub record IntField : Type 0 where
  pub section : String
  pub key : String
  pub label_key : String
  pub min : Option ℕ
  pub allow_zero : Bool

pub record BoolField : Type 0 where
  pub section : String
  pub key : String
  pub label_key : String

abbrev from_one : String → String → String → IntField
from_one section key label = record {
  section = section;
  key = key;
  label_key = label;
  min = some 1;
  allow_zero = false;
}

abbrev from_zero : String → String → String → IntField
from_zero section key label = record {
  section = section;
  key = key;
  label_key = label;
  min = none;
  allow_zero = true;
}

-- INT_FIELDS
abbrev pub int_fields : List IntField
int_fields =
    from_one "server" "max_message_size_mb" "admin.maxMsgSizeMb"
    ∷ from_one "tempmail" "address_lifetime_hours" "admin.addressLifetime"
    ∷ from_one "tempmail" "max_emails_per_address" "admin.maxEmailsPerAddress"
    ∷ from_zero "tempmail" "max_storage_mb" "admin.maxStorageMb"
    ∷ from_one "tempmail" "cleanup_interval_hours" "admin.cleanupInterval"
    ∷ from_one "tempmail" "min_username_length" "admin.minUsernameLength"
    ∷ from_one "tempmail" "max_username_length" "admin.maxUsernameLength"
    ∷ from_one "database" "pool_size" "admin.poolSize"
    ∷ from_one "database" "max_overflow" "admin.maxOverflow"
    ∷ from_zero "rate_limits" "address_create_per_minute" "admin.rlAddressCreate"
    ∷ from_zero "rate_limits" "permanent_create_per_minute" "admin.rlPermanentCreate"
    ∷ from_zero "rate_limits" "api_create_per_minute" "admin.rlApiCreate"
    ∷ from_zero "rate_limits" "setup_per_minute" "admin.rlSetup"
    ∷ from_zero "rate_limits" "admin_per_minute" "admin.rlAdmin"
    ∷ from_zero "rate_limits" "email_read_per_minute" "admin.rlEmailRead"
    ∷ []

abbrev switch : String → String → String → BoolField
switch section key label = record { section = section; key = key; label_key = label }

-- BOOL_FIELDS
abbrev pub bool_fields : List BoolField
bool_fields =
    switch "server" "docs_enabled" "admin.docsEnabled"
    ∷ switch "tempmail" "allow_custom_usernames" "admin.allowCustomUsernames"
    ∷ switch "validation" "check_dkim" "admin.checkDkim"
    ∷ switch "validation" "check_spf" "admin.checkSpf"
    ∷ switch "validation" "check_dmarc" "admin.checkDmarc"
    ∷ switch "validation" "store_results" "admin.storeResults"
    ∷ switch "tls" "enabled" "admin.tlsEnabledLabel"
    ∷ switch "web" "allow_ip_access" "admin.allowIpAccessLabel"
    ∷ []

-- `field.allowZero ? 0 : (field.min ?? 1)`
unfoldable pub min_allowed : IntField → ℕ
min_allowed f = if f.allow_zero then 0 else elim f.min [ none ↦ 1 | some n ↦ n ]

-- The configuration, by section, and what the server answers for it.
abbrev pub Config : Type 0
Config = Dict (Dict Value)

-- `getValue`, `none` for a setting that is not there, "" in the source.
unfoldable pub get_value : Config → String → String → Option Value
get_value c section key = elim (lookup section c) [ none ↦ none | some d ↦ lookup key d ]

-- A field of the form: `string | boolean`.
pub data Input : Type 0 where
  typed : String → Input
  ticked : Bool → Input

abbrev pub Form : Type 0
Form = Dict Input

-- `String(v)`
abbrev pub shown_value : Value → String
shown_value null = "null"
shown_value (bool true) = "true"
shown_value (bool false) = "false"
shown_value (num n) = show n
shown_value (str s) = s
shown_value (strs ss) = join "," ss

-- `v === "" ? "" : String(v)`
abbrev pub int_input : Option Value → Input
int_input none = typed ""
int_input (some v) = typed (shown_value v)

-- `v === true`
abbrev pub bool_input : Option Value → Input
bool_input (some (bool b)) = ticked b
bool_input _ = ticked false

-- `typeof v === "string" ? String(v) : ""`
abbrev pub text_input : Option Value → String
text_input (some (str s)) = s
text_input _ = ""

-- `${section}.${key}`
abbrev pub name_of : String → String → String
name_of section key = section +++ "." +++ key

-- The loops of fetchConfig.
abbrev read_ints : Config → List IntField → Form → Form
read_ints c [] form = form
read_ints c (f ∷ fs) form =
    read_ints c fs (insert (name_of f.section f.key) (int_input (get_value c f.section f.key)) form)

abbrev read_bools : Config → List BoolField → Form → Form
read_bools c [] form = form
read_bools c (f ∷ fs) form =
    read_bools c fs
      (insert (name_of f.section f.key) (bool_input (get_value c f.section f.key)) form)

-- The form that fetchConfig fills in.
unfoldable pub read_form : Config → Form
unfolding get_value
read_form c = insert "web.hostname" (typed (text_input (get_value c "web" "hostname"))) (
    insert "server.hostname" (typed (text_input (get_value c "server" "hostname")))
      (read_bools c bool_fields (read_ints c int_fields [])))

-- `cfg.cors?.allow_origins || []`, `none` where it has no `join`.
abbrev origins_value : Option Value → Option (List String)
origins_value none = some []
origins_value (some null) = some []
origins_value (some (bool true)) = none
origins_value (some (bool false)) = some []
origins_value (some (num n)) = if n == 0 then some [] else none
origins_value (some (str s)) = if is_empty s then some [] else none
origins_value (some (strs ss)) = some ss

unfoldable pub allow_origins : Config → Option (List String)
unfolding get_value
allow_origins c = origins_value (get_value c "cors" "allow_origins")
