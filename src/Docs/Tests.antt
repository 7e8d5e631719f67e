-- ===== src/Docs/Tests.antt =====
-- web/app/api/page.tsx: runs of the page at concrete inputs.
use wgtemporary_email.Base.{
  ℕ, String, ◌≡◌, refl, Bool, true, false, Option, none, some, [], ◌∷◌, arith,
}
use wgtemporary_email.Base.Text.{encode_uri_component, trim}
use wgtemporary_email.Base.Task.Ends.{Ends}
use wgtemporary_email.Docs.Endpoints.{
  Endpoint, path, param, token_param, endpoint, get, delete, ep_key,
}
use wgtemporary_email.Docs.Url.{
  get_param, set_param, build_url, fill_path, params_of, replace_first,
}
use wgtemporary_email.Docs.Escaping.{tally, IsReserved, fill_path-tally}
use wgtemporary_email.Admin.Requests.{delete_email}
use wgtemporary_email.Docs.Wire.{Agrees, admin_wire-Agrees}
use wgtemporary_email.Docs.Tried.{get_param-set_param}
use wgtemporary_email.Docs.Ending.{run_test-Ends}
use wgtemporary_email.Docs.Run.{Docs, run_test}

documented : Unit {0}
unfolding get_param set_param ep_key build_url fill_path encode_uri_component trim tally run_test
    replace_first
documented = tt

-- The endpoint that removes a domain.
abbrev removal : Endpoint
removal =
    endpoint delete "/api/v1/admin/domains/{domain}" "api.descAdminRemoveDomain"
      (param path "domain" "domain" ∷ []) "" true

abbrev info : Endpoint
info = endpoint get "/api/v1/{token}/info" "api.descAddressInfo" (token_param ∷ []) "" false

-- What is typed for the domain is read for it, and the token of another endpoint is still the saved one.
get_param-set_param_example :
    get_param (some (some "t1")) (set_param removal "domain" "a/b" []) removal "domain" ≡ "a/b"
unfolding documented
get_param-set_param_example =
    get_param-set_param (some (some "t1")) [] removal removal "domain" "domain" "a/b"

saved_token_test :
    get_param (some (some "t1")) (set_param removal "domain" "a/b" []) info "token" ≡ "t1"
unfolding documented
saved_token_test = refl

-- A slash is escaped.
slash-IsReserved : IsReserved 0x2f
slash-IsReserved = record { not_kept = refl; not_percent = (λ h. omega arith) }

fill_path-tally_example : tally 0x2f "/api/v1/admin/domains/a%2Fb" ≡ 5
unfolding documented
fill_path-tally_example =
    fill_path-tally 0x2f (λ _. " a/b ") (params_of path removal) "/api/v1/admin/domains/{domain}"
      "/api/v1/admin/domains/a%2Fb" slash-IsReserved (refl, tt) refl

abbrev page : Docs
page = record {
  admin_token = " secret ";
  values = ("DELETE /api/v1/admin/domains/{domain}", ("domain", "a.org") ∷ []) ∷ [];
  results = [];
  testing_key = none;
  copied_curl = "";
  alerts = [];
  saved = none;
}

abbrev no_number : String → Option ℕ
no_number _ = none

abbrev reads_none : String → Bool
reads_none _ = false

abbrev shows_none : String → Option String
shows_none _ = none

run_test-Ends_test :
    Ends 2
      (λ s. s.testing_key ≡ none)
      (run_test shows_none no_number reads_none "" true removal page)
      page
run_test-Ends_test = run_test-Ends no_number reads_none shows_none "" true removal page page refl

admin_wire-Agrees_example : Agrees (delete_email "e1") (
    some (
      endpoint delete "/api/v1/admin/emails/{id}" "api.descAdminDeleteEmail"
        (param path "id" "email id" ∷ [])
        "curl -X DELETE -H \"Authorization: Bearer <admin.token>\" \"BASE/api/v1/admin/emails/{id}\""
        true))
unfolding documented
admin_wire-Agrees_example = admin_wire-Agrees (delete_email "e1") (refl, refl, refl)
