-- ===== src/Home/Tests.antt =====
-- web/app/page.tsx: runs of the page at concrete inputs.
use wgtemporary_email.Base.{
  map, ℕ, String, ◌≡◌, refl, true, false, none, some, List, [], ◌∷◌, if◌then◌else◌,
}
use wgtemporary_email.Base.Text.{show}
use wgtemporary_email.Base.Task.{done, update, call, run, asks, Waiting}
use wgtemporary_email.Base.Task.Schedule.{opened, resume}
use wgtemporary_email.Api.{
  AddressResponse, EmailSummary, EmailDetail, answer, missing, ok, result, get_address_info,
  list_emails, create_address, get_domains,
}
use wgtemporary_email.Page.{mark_read, Ask, Answer, net, say}
use wgtemporary_email.Home.State.{View, Page, entry, commit, get_time_until_expiry}
use wgtemporary_email.Home.Handlers.{
  create_error, confirm_address_gone, fetch_emails, created, create_answered, payload, inbox_params,
  init_inbox, delete_answered, email_deleted, email_answered, refresh_tick, show_notice,
}
use wgtemporary_email.Home.Events.{edit_search, initial_view, after_init}
use wgtemporary_email.Home.Events.Stored.{Reachable-IsStored}
use wgtemporary_email.Home.Rotation.{confirm_address_gone-false, fetch_emails-rounds}
use wgtemporary_email.Home.Inbox.{has_id, with_id, read, delete_answered_ok, email_answered_ok}
use wgtemporary_email.Home.Refresh.{
  IsArmed, commit-IsArmed, edit_search-refresh_tick, asks-refresh_tick_all,
}

home : Unit {0}
unfolding init_inbox fetch_emails created commit show_notice mark_read email_deleted delete_answered
    email_answered edit_search refresh_tick payload get_time_until_expiry show result
home = tt

abbrev ann : AddressResponse
ann = record {
  id = "1";
  email = "ann@example.org";
  token = "t1";
  created_at = some 0;
  expires_at = some 86400000;
}

abbrev mail : String → EmailSummary
mail id = record {
  id = id;
  subject = some "hello";
  from_address = "bob@example.org";
  to_address = "ann@example.org";
  received_at = some 5;
  is_read = false;
  has_attachments = false;
  size_bytes = 10;
}

abbrev opened_mail : EmailDetail
opened_mail = record {
  id = "a";
  message_id = none;
  subject = some "hello";
  from_address = "bob@example.org";
  to_address = "ann@example.org";
  raw_headers = "";
  body_plain = some "hi";
  body_html = none;
  size_bytes = 10;
  dkim_valid = none;
  spf_result = none;
  dmarc_result = none;
  has_attachments = false;
  received_at = some 5;
  is_read = true;
  attachments = [];
}

-- The page while it shows two emails.
abbrev inbox : View
inbox =
    let v : View = initial_view 1000 in
    record v { address = some ann; emails = mail "a" ∷ mail "b" ∷ []; domains = "example.org" ∷ [] }

abbrev shown : ℕ → Page
shown now = record {
  view = inbox;
  address_object = 1;
  saved = some (entry ann);
  can_store = true;
  now = now;
  alerts = [];
  route = none;
  timer_env = inbox;
  timer_object = 1;
}

get_time_until_expiry_tests :
    (get_time_until_expiry (some ann) 1000 ≡ "23h 59m")
    × (get_time_until_expiry (some ann) 86400000 ≡ "0h 0m")
    × (get_time_until_expiry (some ann) 90060000 ≡ "-2h -1m")
unfolding home
get_time_until_expiry_tests = (refl, refl, refl)

-- A first visit: the page asks for a new address and for the domains.
first_visit_test :
    asks (after_init 1 "" true none 1000).1
    ≡ net (create_address (record { username = none; domain = none })) ∷ net get_domains ∷ []
unfolding home
first_visit_test = refl

-- The page once the server has answered the request for an address.
abbrev first_render : Page
first_render = commit (after_init 0 "" true none 1000).0

abbrev answered : Page × List (Waiting Page Ask Answer)
answered =
    run (create_answered (λ tok. fetch_emails 0 (initial_view 1000) tok false) "" done (ok ann))
      first_render

Reachable-IsStored_example : answered.0.saved ≡ some (entry ann)
unfolding home
Reachable-IsStored_example = Reachable-IsStored 0 "" none 1000 (
    resume []
      (
        net (create_address (record { username = none; domain = none })),
        (λ e.
            create_answered (λ tok. fetch_emails 0 (initial_view 1000) tok false) "" done
              (result (create_address (record { username = none; domain = none })) e)),
      )
      _ (answer 201 (some (ann, missing))) opened)

fetch_emails-rounds_example : fetch_emails 3 inbox "t1" true ≡ fetch_emails 0 inbox "t1" true
fetch_emails-rounds_example = fetch_emails-rounds 3 inbox "t1" true

confirm_address_gone-false_example :
    confirm_address_gone "t1" (λ gone. if gone then update (λ p. p) done else done)
    ≡ call (net (get_address_info "t1")) (λ _. done)
confirm_address_gone-false_example =
    confirm_address_gone-false "t1" (λ gone. if gone then update (λ p. p) done else done)

delete_answered_ok_example :
    has_id "a" (run (delete_answered 0 inbox "t1" "a" (ok tt)) (shown 1000)).0.view.emails ≡ false
unfolding home
delete_answered_ok_example = delete_answered_ok 0 inbox "t1" "a" "a" (shown 1000)

email_answered_ok_example :
    let after = (run (email_answered 0 inbox "t1" "a" (ok opened_mail)) (shown 1000)).0.view in
    (after.selected_email ≡ some opened_mail)
    × (after.loading ≡ false)
    × (map (λ e. e.id) after.emails ≡ "a" ∷ "b" ∷ [])
    × (with_id "a" after.emails ≡ read (mail "a") ∷ [])
email_answered_ok_example = email_answered_ok 0 inbox "t1" "a" "a" opened_mail (shown 1000)

commit-IsArmed_test : IsArmed (commit (created ann (shown 1000)))
commit-IsArmed_test = commit-IsArmed (created ann (shown 1000))

edit_search-refresh_tick_example :
    let p = commit (run (edit_search "code") (shown 1000)).0 in
    (p.view.search_query ≡ "code")
    × (asks (run (refresh_tick 0 p.timer_env ann) p).1
        ≡ net (list_emails "t1" (inbox_params inbox)) ∷ [])
edit_search-refresh_tick_example =
    edit_search-refresh_tick 0 "code" ann (shown 1000) (refl, refl) refl

asks-refresh_tick_all_example :
    asks (run (refresh_tick 0 inbox ann) (shown 86400000)).1
    ≡ net (create_address (record { username = none; domain = none })) ∷ []
asks-refresh_tick_all_example = asks-refresh_tick_all 0 inbox ann (shown 86400000) refl

-- Where the storage is full, the new address is shown and not stored, and the alert says that there is
-- none.
lost_address_test :
    let full : Page = record (shown 1000) { saved = none; can_store = false } in
    let after = (run (create_answered (λ tok. done) "" done (ok ann)) full).0 in
    (after.view.address ≡ some ann)
    × (after.saved ≡ none)
    × (after.alerts ≡ say "home.failedToCreate" [] ∷ [])
unfolding home create_error
lost_address_test = (refl, refl, refl)
