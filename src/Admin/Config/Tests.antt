-- ===== src/Admin/Config/Tests.antt =====
-- web/app/admin/config/page.tsx: runs of the page at concrete inputs.
use wgtemporary_email.Base.{
  arith, ℕ, String, str_eq, if◌then◌else◌, ◌≡◌, refl, true, false, Option, none, some, [], ◌∷◌, All,
}
use wgtemporary_email.Base.Task.{run, asks}
use wgtemporary_email.Base.Task.Ends.{Ends}
use wgtemporary_email.Base.Text.{includes, to_lower, show, split, trim, join}
use wgtemporary_email.Admin.Requests.{bool, strs, num, str}
use wgtemporary_email.Admin.Panel.{Panel}
use wgtemporary_email.Admin.Config.Redact.{
  Json, text, number, object, entry, end, key, redact_config, at, IsShown, redact_config-IsShown,
}
use wgtemporary_email.Admin.Config.Fields.{
  int_fields, read_form, Config, Form, typed, ticked, get_value, min_allowed, allow_origins,
}
use wgtemporary_email.Admin.Config.Patch.{
  patched, patch_of, patch_ints, patch_rest, patch_bools, patch_hosts, patch_origins, origins_of,
}
use wgtemporary_email.Admin.Config.Handlers.{View, handle_save, handle_issue_cert, send}
use wgtemporary_email.Admin.Config.Untouched.{IsReadable, patch_of-untouched}
use wgtemporary_email.Admin.Config.Ending.{handle_save-Ends, handle_issue_cert-Ends}

edited : Unit {0}
unfolding show handle_save send patch_of patch_ints patch_rest patch_bools patch_hosts patch_origins
    origins_of get_value min_allowed allow_origins split trim join redact_config handle_issue_cert
edited = tt

-- `Number` at two texts.
abbrev integer : String → Option ℕ
integer s = if str_eq s "48" then some 48 else if str_eq s "0" then some 0 else none

abbrev config : Config
config =
    ("tempmail", ("address_lifetime_hours", num 24) ∷ []) ∷ ("web", ("hostname", str "") ∷ []) ∷ []

abbrev form_of : String → Form
form_of hours =
    ("tempmail.address_lifetime_hours", typed hours) ∷ ("server.docs_enabled", ticked true) ∷ []

abbrev view : String → View
view hours = record {
  config = some config;
  form = form_of hours;
  cors_origins = "";
  admin_token_input = "";
  loading = false;
  error = none;
  notice = none;
  tls_status = none;
  tls_email = " a@b.org ";
  tls_busy = false;
  tls_notice = none;
  tls_error = none;
  api_key_status = none;
  api_key_new = "";
  api_key_busy = false;
}

abbrev page : String → Panel View
page hours = record { view = view hours; stored = some "secret"; alerts = []; route = none }

-- A lifetime of 0 hours is refused.
handle_save_test : asks (run (handle_save integer (view "0")) (page "0")).1 ≡ []
unfolding edited
handle_save_test = refl

handle_save-Ends_example :
    Ends 2 (λ s. s.view.loading ≡ false) (handle_save integer (view "48")) (page "48")
handle_save-Ends_example = handle_save-Ends integer (view "48") (page "48")

handle_issue_cert-Ends_example :
    Ends 73 (λ s. s.view.tls_busy ≡ false) (handle_issue_cert (view "48")) (page "48")
unfolding edited
handle_issue_cert-Ends_example = handle_issue_cert-Ends (view "48") (page "48")

abbrev keyed : Json
keyed =
    object (entry "web" (object (entry "API_Key" (text "k") (entry "port" (number 80) end))) end)

redact_config-IsShown_example :
    IsShown true (some (text "k")) (at (key "web" ∷ key "API_Key" ∷ []) (redact_config keyed))
unfolding includes to_lower
redact_config-IsShown_example = redact_config-IsShown (key "web" ∷ []) (key "API_Key") keyed refl

redact_config_test :
    redact_config keyed
    ≡ object
        (entry "web" (object (entry "API_Key" (text "***") (entry "port" (number 80) end))) end)
unfolding redact_config
redact_config_test = refl

-- A configuration as the server answers it, with a switch that it does not list.
abbrev served : Config
served =
    ("tempmail", ("address_lifetime_hours", num 48) ∷ ("allow_custom_usernames", bool true) ∷ [])
    ∷ ("server", ("hostname", str "mail.example.org") ∷ [])
    ∷ ("cors", ("allow_origins", strs ("https://example.org" ∷ [])) ∷ [])
    ∷ []

served-IsReadable : All (λ f. IsReadable integer f (get_value served f.section f.key)) int_fields
unfolding edited
served-IsReadable = (
  tt,
  (
    (omega arith, refl),
    (tt, (tt, (tt, (tt, (tt, (tt, (tt, (tt, (tt, (tt, (tt, (tt, (tt, tt))))))))))))),
  ),
)

-- The server did not list the switch of DKIM, so an untouched form switches it off.
patch_of-untouched_example :
    (p : Config) × (patch_of integer (some served) (read_form served) "" "https://example.org"
      ≡ patched p)
    × (get_value p "validation" "check_dkim" ≡ some (bool false))
unfolding edited
patch_of-untouched_example =
    patch_of-untouched served integer ("https://example.org" ∷ []) "validation" "check_dkim"
      served-IsReadable refl refl refl refl
