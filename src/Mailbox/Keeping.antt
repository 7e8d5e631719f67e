-- ===== src/Mailbox/Keeping.antt =====
-- web/app/mailbox/page.tsx: each task keeps the session that is shown the one that is stored.
use wgtemporary_email.Base.{
  String, ◌≡◌, refl, Bool, true, false, Option, none, some, List, [], ◌∷◌, str_eq, filter, not,
}
use wgtemporary_email.Base.Text.{is_empty, trim, or_none}
use wgtemporary_email.Base.Task.{spawn, run}
use wgtemporary_email.Base.Task.Schedule.{if-Keeps, Keeps, run-Keeps}
use wgtemporary_email.Api.{
  EmailSummary, EmailListResponse, EmailDetail, SetupStatus, PermanentAddress, AddressInfo, Thrown,
  Result, ok, thrown, result, get_domains, list_emails, get_setup_status, get_email, delete_email,
  create_permanent_address, get_address_info,
}
use wgtemporary_email.Page.{request, has_status}
use wgtemporary_email.Mailbox.State.{
  Session, Mailbox, Saved, session, garbage, Box, set_error, set_emails, show_session,
}
use wgtemporary_email.Mailbox.Handlers.{
  Job, inbox_params, emails_answered, fetch_emails, domains_answered, restored, status_answered,
  configured, stop_busy, open_mailbox, create_answered, handle_create, login_answered, handle_login,
  copied_job, refused, email_answered, handle_email_click, close_detail, delete_answered,
  handle_delete,
}

abbrev pub Unless : Bool → Type 0 → Type 0
Unless true A = Unit
Unless false A = A

-- Where a token is shown, localStorage holds it with the shown address.
abbrev pub IsSession : Box → Type 0
IsSession p =
    Unless (is_empty p.view.token)
      (p.saved ≡ some (session (record { email = p.view.email; token = p.view.token })))

abbrev pub JobKeeps : Job → Box → Type 0
JobKeeps j p = Keeps IsSession j p

unless : (b : Bool) (A : Type 0) → A → Unless b A
unless true A a = tt
unless false A a = a

-- A session that is both shown and stored.
session-IsSession :
    (s : Session) (p : Box)
    → p.saved ≡ some (session s)
    → IsSession (record p { view = record (p.view) { email = s.email; token = s.token } })
session-IsSession s p h =
    unless (is_empty s.token)
      (p.saved ≡ some (session (record { email = s.email; token = s.token }))) h

emails_answered-Keeps :
    (silent : Bool) (r : Result EmailListResponse) (p : Box)
    → IsSession p
    → JobKeeps (emails_answered silent r) p
unfolding emails_answered
emails_answered-Keeps true (ok d) p h = h
emails_answered-Keeps false (ok d) p h = h
emails_answered-Keeps true (thrown e) p h = if-Keeps IsSession (has_status 404 e) _ _ p tt h
emails_answered-Keeps false (thrown e) p h = if-Keeps IsSession (has_status 404 e) _ _ p tt h

pub fetch_emails-Keeps :
    (tok search : String) (silent : Bool) (p : Box)
    → IsSession p
    → JobKeeps (fetch_emails tok search silent) p
unfolding fetch_emails
fetch_emails-Keeps tok search true p h = (
  h,
  λ e p' h'. emails_answered-Keeps true (result (list_emails tok (inbox_params search)) e) p' h',
)
fetch_emails-Keeps tok search false p h = (
  h,
  λ e p' h'. emails_answered-Keeps false (result (list_emails tok (inbox_params search)) e) p' h',
)

domains_answered-Keeps :
    (r : Result (List String)) (p : Box) → IsSession p → JobKeeps (domains_answered r) p
domains_answered-Keeps (ok []) p h = h
domains_answered-Keeps (ok (d ∷ ds)) p h = h
domains_answered-Keeps (thrown e) p h = h

fetch_domains-Keeps : (p : Box) → IsSession p → JobKeeps (request get_domains domains_answered) p
fetch_domains-Keeps p h = (h, λ e p' h'. domains_answered-Keeps (result get_domains e) p' h')

-- The first list of a session that is stored, and then what keeps it.
listed-Keeps :
    (s : Session) (p : Box) (next : Job)
    → p.saved ≡ some (session s)
    → ((q : Box) → IsSession q → JobKeeps next q)
    → JobKeeps (spawn (fetch_emails s.token "" false) next) (show_session s p)
listed-Keeps s p next same keeps =
    let k = fetch_emails-Keeps s.token "" false (show_session s p) (session-IsSession s p same) in
    (
      k,
      keeps (run (fetch_emails s.token "" false) (show_session s p)).0
          (run-Keeps IsSession (fetch_emails s.token "" false) (show_session s p) k).0,
    )

restored-Keeps : (o : Option Saved) (p : Box) → p.saved ≡ o → IsSession p → JobKeeps (restored o) p
unfolding restored
restored-Keeps none p same h = fetch_domains-Keeps p h
restored-Keeps (some garbage) p same h = fetch_domains-Keeps p h
restored-Keeps (some (session s)) p same h =
    listed-Keeps s p (request get_domains domains_answered) same fetch_domains-Keeps

status_answered-Keeps :
    (r : Result SetupStatus) (p : Box) → IsSession p → JobKeeps (status_answered r) p
status_answered-Keeps (thrown e) p h = restored-Keeps p.saved p refl h
status_answered-Keeps (ok status) p h =
    if-Keeps IsSession status.initialized _ _ p
      (restored-Keeps p.saved (configured status p) refl h) h

pub open_mailbox-Keeps : (p : Box) → IsSession p → JobKeeps open_mailbox p
unfolding open_mailbox
open_mailbox-Keeps p h = (h, λ e p' h'. status_answered-Keeps (result get_setup_status e) p' h')

stop_busy-Keeps : (p : Box) → IsSession p → JobKeeps stop_busy p
stop_busy-Keeps p h = h

create_answered-Keeps :
    (r : Result PermanentAddress) (p : Box) → IsSession p → JobKeeps (create_answered r) p
unfolding create_answered
create_answered-Keeps (thrown e) p h = h
create_answered-Keeps (ok a) p h =
    listed-Keeps (record { email = a.email; token = a.token })
      (record p {
        view = record (p.view) { created = some (record { email = a.email; token = a.token }) };
        saved = some (session (record { email = a.email; token = a.token }));
      })
      stop_busy refl stop_busy-Keeps

pub handle_create-Keeps : (env : Mailbox) (p : Box) → IsSession p → JobKeeps (handle_create env) p
unfolding handle_create
handle_create-Keeps env p h =
    if-Keeps IsSession (is_empty (trim env.username)) _ _ (set_error none p) h (
      h,
      λ e p' h'.
          create_answered-Keeps
            (result (create_permanent_address (trim env.username) (or_none env.selected_domain)) e)
            p' h',
    )

login_answered-Keeps :
    (tok : String) (r : Result AddressInfo) (p : Box)
    → IsSession p
    → JobKeeps (login_answered tok r) p
unfolding login_answered
login_answered-Keeps tok (thrown e) p h = h
login_answered-Keeps tok (ok info) p h =
    listed-Keeps (record { email = info.email; token = tok })
      (record p {
        view = record (p.view) { login_token = "" };
        saved = some (session (record { email = info.email; token = tok }));
      })
      stop_busy refl stop_busy-Keeps

pub handle_login-Keeps : (env : Mailbox) (p : Box) → IsSession p → JobKeeps (handle_login env) p
unfolding handle_login
handle_login-Keeps env p h =
    if-Keeps IsSession (is_empty (trim env.login_token)) _ _ (set_error none p) h (
      h,
      λ e p' h'.
          login_answered-Keeps (trim env.login_token)
            (result (get_address_info (trim env.login_token)) e) p' h',
    )

pub copied-Keeps : (b : Bool) (p : Box) → IsSession p → JobKeeps (copied_job b) p
copied-Keeps true p h = ((h, λ e p' h'. h'), h)
copied-Keeps false p h = h

refused-Keeps :
    (message : String) (e : Thrown) (p : Box) → IsSession p → JobKeeps (refused message e) p
unfolding refused
refused-Keeps message e p h = if-Keeps IsSession (has_status 404 e) _ _ p tt h

module _ (env : Mailbox) where
  email_answered-Keeps :
      (id : String) (r : Result EmailDetail) (p : Box)
      → IsSession p
      → JobKeeps (email_answered env id r) p
  unfolding email_answered
  email_answered-Keeps id (ok d) p h = h
  email_answered-Keeps id (thrown e) p h = refused-Keeps "home.failedToLoad" e p h

  pub handle_email_click-Keeps :
      (e : EmailSummary) (p : Box) → IsSession p → JobKeeps (handle_email_click env e) p
  unfolding handle_email_click
  handle_email_click-Keeps e p h =
      if-Keeps IsSession (is_empty env.token) _ _ p h
        (h, λ r p' h'. email_answered-Keeps e.id (result (get_email env.token e.id true) r) p' h')

  close_detail-Keeps :
      (id : String) (o : Option EmailDetail) (p : Box)
      → IsSession p
      → JobKeeps (close_detail env id o) p
  close_detail-Keeps id none p h = h
  close_detail-Keeps id (some d) p h = if-Keeps IsSession (str_eq d.id id) _ _ p h h

  delete_answered-Keeps :
      (id : String) (r : Result (Unit {0})) (p : Box)
      → IsSession p
      → JobKeeps (delete_answered env id r) p
  unfolding delete_answered
  delete_answered-Keeps id (ok _) p h =
      close_detail-Keeps id env.detail
        (set_emails (filter (λ e. not (str_eq e.id id)) env.emails) p) h
  delete_answered-Keeps id (thrown e) p h = refused-Keeps "home.failedToDelete" e p h

  pub handle_delete-Keeps :
      (confirmed : Bool) (id : String) (p : Box)
      → IsSession p
      → JobKeeps (handle_delete env confirmed id) p
  unfolding handle_delete
  handle_delete-Keeps confirmed id p h = if-Keeps IsSession (is_empty env.token) _ _ p h (
      if-Keeps IsSession confirmed _ _ p
        (h, λ r p' h'. delete_answered-Keeps id (result (delete_email env.token id) r) p' h') h)
