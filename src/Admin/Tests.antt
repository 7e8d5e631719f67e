-- ===== src/Admin/Tests.antt =====
-- web/lib/admin-api.ts, web/app/admin/page.tsx and web/app/admin/layout.tsx at concrete inputs.
use wgtemporary_email.Base.{ℕ, ◌≡◌, ◌≢◌, ◌↔◌, refl, true, false, none, some, [], ◌∷◌, ◌≤◌, ◌<◌}
use wgtemporary_email.Base.Text.{or_empty, show, encode_uri_component, trim}
use wgtemporary_email.Base.Task.{run}
use wgtemporary_email.Api.{answer, missing, text, SetupStatus}
use wgtemporary_email.Page.{Phrase, say, verbatim}
use wgtemporary_email.Admin.Types.{AdminStats}
use wgtemporary_email.Admin.Requests.{admin_wire, remove_domain}
use wgtemporary_email.Admin.Client.{
  headers, get_admin_token, receive, fulfilled, api_error, Accepts, is_401, receive_lem,
  receive-verbatim,
}
use wgtemporary_email.Admin.Display.{uptime, days_hours, minutes, IsRead, uptime-IsRead}
use wgtemporary_email.Admin.Login.{
  Login, handle_login, stats_answered, layout_gate, Layout, is_unset, stats_answered_ok,
  stats_answered_refused, layout_gate-eq-setup_iff,
}

panel : Unit {0}
unfolding receive headers admin_wire encode_uri_component show uptime stats_answered layout_gate
    trim handle_login
panel = tt

abbrev stats : AdminStats
stats = record {
  domains = "example.org" ∷ [];
  total_addresses = 1;
  active_addresses = 1;
  total_emails = 0;
  unread_emails = 0;
  emails_24h = 0;
  total_attachments = 0;
  email_size_bytes = 0;
  attachment_size_bytes = 0;
  max_storage_mb = 100;
  db_ok = true;
  uptime_seconds = 90061;
  address_lifetime_hours = 24;
  cleanup_interval_hours = 1;
  permanent_email_retention_days = 30;
}

abbrev signing_in : Login
signing_in = record {
  token = " secret ";
  error = none;
  loading = true;
  stored = some "secret";
  route = none;
}

abbrev set_up : SetupStatus
set_up = record {
  initialized = true;
  web_hostname = some "mail.example.org";
  setup_key_required = none;
  permanent_email_retention_days = none;
}

abbrev not_set_up : SetupStatus
not_set_up = record {
  initialized = false;
  web_hostname = none;
  setup_key_required = none;
  permanent_email_retention_days = none;
}

client_tests :
    (headers (some "secret")
      ≡ ("Content-Type", "application/json") ∷ ("Authorization", "Bearer secret") ∷ [])
    × (headers (some "") ≡ ("Content-Type", "application/json") ∷ [])
    × ((admin_wire (remove_domain "a b.org")).path ≡ "/api/v1/admin/domains/a%20b.org")
    × (uptime 90061 ≡ days_hours 1 1)
    × (uptime 59 ≡ minutes 0)
unfolding panel
client_tests = (refl, refl, refl, refl, refl)

handle_login_test : (run (handle_login signing_in) signing_in).0.stored ≡ some "secret"
unfolding panel
handle_login_test = refl

receive_lem_example :
    let (after, outcome) = receive (answer 401 (some (stats, missing))) (some "secret") in
    (after ≡ none)
    × ((outcome ≡ fulfilled stats) ↔ Accepts (answer 401 (some (stats, missing))) stats)
    × ((outcome ≡ api_error 401 (say "admin.sessionExpired" []))
        ↔ (is_401 (answer 401 (some (stats, missing))) ≡ true))
receive_lem_example = receive_lem (answer 401 (some (stats, missing))) (some "secret") stats

receive-verbatim_example :
    ((receive (answer 422 (some (stats, text "bad host"))) none).1
      ≡ api_error 422 (verbatim "bad host"))
    ↔ ((400 ≤ 422) × (422 < 500) × (◌≢◌ {A = ℕ} 422 401) × (◌≢◌ {A = ℕ} 422 429))
receive-verbatim_example = receive-verbatim 422 stats "bad host" none

stats_answered_ok_test :
    let after = (run (stats_answered (answer 200 (some (stats, missing)))) signing_in).0 in
    (after.loading ≡ false)
    × (after.stored ≡ some "secret")
    × (after.route ≡ some "/admin/dashboard")
    × (after.error ≡ none)
stats_answered_ok_test =
    stats_answered_ok (answer 200 (some (stats, missing))) signing_in stats (refl, refl)

stats_answered_refused_example :
    let after = (run (stats_answered (answer 401 none)) signing_in).0 in
    (after.loading ≡ false)
    × (get_admin_token after.stored ≡ "")
    × (after.route ≡ none)
    × ((m : Phrase) × (after.error ≡ some m))
stats_answered_refused_example = stats_answered_refused (answer 401 none) signing_in (λ b h. h.1)

layout_gate_lem_test :
    let opened : Layout = record { ready = false; web_hostname = "" } in
    layout_gate false (answer 200 (some (set_up, missing))) none opened
    ≡ (record { ready = false; web_hostname = or_empty set_up.web_hostname }, some "/admin")
unfolding panel
layout_gate_lem_test = refl

layout_gate-eq-setup_iff_example :
    let opened : Layout = record { ready = false; web_hostname = "" } in
    ((layout_gate false (answer 500 (some (not_set_up, missing))) (some "secret") opened).1
      ≡ some "/setup")
    ↔ (is_unset (answer 500 (some (not_set_up, missing))) ≡ true)
layout_gate-eq-setup_iff_example =
    layout_gate-eq-setup_iff false (answer 500 (some (not_set_up, missing))) (some "secret")
      (record { ready = false; web_hostname = "" })

uptime-IsRead_test : IsRead (uptime 90061) 90061
uptime-IsRead_test = uptime-IsRead 90061
