-- ===== src/Mailbox/Tests.antt =====
-- web/app/mailbox/page.tsx: runs of the page at concrete inputs.
use wgtemporary_email.Base.{◌≡◌, refl, true, none, some, [], ◌∷◌}
use wgtemporary_email.Base.Task.{run, asks}
use wgtemporary_email.Base.Task.Schedule.{opened, resume}
use wgtemporary_email.Api.{
  AddressInfo, PermanentAddress, SetupStatus, missing, answer, ok, result, list_emails,
  get_setup_status,
}
use wgtemporary_email.Page.{net}
use wgtemporary_email.Mailbox.State.{Session, session, Box, commit, save_session, logout}
use wgtemporary_email.Mailbox.Handlers.{
  inbox_params, emails_answered, fetch_emails, handle_create, status_answered, open_mailbox,
  create_answered, login_answered, restored,
}
use wgtemporary_email.Mailbox.Events.{after_open, first_box, first_view, refresh_tick}
use wgtemporary_email.Mailbox.Events.Session.{Reachable-IsSession}
use wgtemporary_email.Mailbox.Answers.{
  HasSession, IsSignedIn, Reachable-refresh_tick, emails_answered-HasSession, login_answered_ok,
  create_answered-IsSignedIn,
}

opened_mailbox : Unit {0}
unfolding open_mailbox restored fetch_emails emails_answered commit save_session logout result
    handle_create
opened_mailbox = tt

abbrev ann : Session
ann = record { email = "ann@example.org"; token = "t1" }

abbrev status : SetupStatus
status = record {
  initialized = true;
  web_hostname = none;
  setup_key_required = none;
  permanent_email_retention_days = some 7;
}

abbrev first_render : Box
first_render = commit (after_open (some (session ann)) 1000).0

-- The page once the setup status has come.
abbrev restored_box : Box
restored_box = commit (run (status_answered (ok status)) first_render).0

Reachable-IsSession_example : restored_box.saved ≡ some (session ann)
unfolding opened_mailbox
Reachable-IsSession_example = Reachable-IsSession (some (session ann)) 1000 (
    resume [] (net get_setup_status, λ e. status_answered (result get_setup_status e)) []
      (answer 200 (some (status, missing))) opened)

Reachable-refresh_tick_example :
    asks (run (refresh_tick restored_box.timer) restored_box).1
    ≡ net (list_emails "t1" (inbox_params "")) ∷ []
unfolding opened_mailbox
Reachable-refresh_tick_example = Reachable-refresh_tick (some (session ann)) 1000 (
    resume [] (net get_setup_status, λ e. status_answered (result get_setup_status e)) []
      (answer 200 (some (status, missing))) opened)

-- A blank user name asks for nothing.
handle_create_test : asks (run (handle_create (first_view 0)) (first_box none 0)).1 ≡ []
unfolding opened_mailbox
handle_create_test = refl

abbrev carl : Session
carl = record { email = "carl@example.org"; token = "t3" }

-- A late 404 for the token "t1" signs out the session of "t3".
emails_answered-HasSession_example : HasSession none (
    (run
      (emails_answered true (result (list_emails "t1" (inbox_params "")) (answer 404 none)))
      (save_session carl restored_box)).0)
emails_answered-HasSession_example =
    emails_answered-HasSession true "t1" (inbox_params "") (answer 404 none) carl restored_box

abbrev info : AddressInfo
info = record {
  id = "1";
  email = "ann@example.org";
  address_type = "permanent";
  created_at = some 0;
  expires_at = none;
}

login_answered_ok_test :
    let r = run (login_answered "t1" (ok info)) (first_box none 0) in
    IsSignedIn ann r × (r.0.view.login_token ≡ "")
login_answered_ok_test = login_answered_ok "t1" info (first_box none 0)

abbrev bob : PermanentAddress
bob = record {
  id = "2";
  email = "bob@example.org";
  token = "t2";
  address_type = "permanent";
  created_at = some 0;
}

create_answered-IsSignedIn_test :
    let r = run (create_answered (ok bob)) (first_box none 0) in
    IsSignedIn (record { email = "bob@example.org"; token = "t2" }) r
    × (r.0.view.created ≡ some (record { email = "bob@example.org"; token = "t2" }))
create_answered-IsSignedIn_test = create_answered-IsSignedIn bob (first_box none 0)
