-- ===== src/Mailbox/Handlers.antt =====
-- web/app/mailbox/page.tsx: the effects and handlers. A handler is given the render whose closure it
-- is (`env`); the first effect's is the first render.
use wgtemporary_email.Base.{
  ℕ, String, Bool, true, false, not, Option, none, some, List, [], ◌∷◌, if◌then◌else◌, str_eq,
  filter, ◌==◌,
}
use wgtemporary_email.Base.Text.{is_empty, or_none, or_empty, trim}
use wgtemporary_email.Base.Task.{Task, done, update, inspect, call, spawn}
use wgtemporary_email.Api.{
  Detail, ListParams, missing, text, other, EmailDetail, EmailSummary, EmailListResponse,
  SetupStatus, PermanentAddress, AddressInfo, get_setup_status, create_permanent_address,
  get_address_info, get_domains, list_emails, get_email, delete_email, Thrown, Result, ok, thrown,
  detail_of,
}
use wgtemporary_email.Page.{
  Ask, sleep, copy, Answer, request, Phrase, plain, verbatim, has_status, mark_read,
}
use wgtemporary_email.Mailbox.State.{
  Session, Mailbox, Saved, session, Box, set_view, set_error, set_busy, set_loading_emails,
  set_copied, set_emails, set_detail, show_session, save_session, logout, emails_loaded,
}

abbrev pub Job : Type 0
Job = Task Box Ask Answer

-- The writes of a refusal that ends the session.
unfoldable pub session_ended : Box → Box
unfolding logout
session_ended p = logout (set_error (some (plain "mailbox.failedLogin")) p)

-- The `finally` of fetchEmails.
abbrev pub finish_fetch : Bool → Job
finish_fetch true = done
finish_fetch false = update (set_loading_emails false) done

-- What follows the request of fetchEmails.
unfoldable pub emails_answered : Bool → Result EmailListResponse → Job
unfolding session_ended
emails_answered silent (ok d) = update (emails_loaded d) (finish_fetch silent)
emails_answered silent (thrown e) =
    if has_status 404 e then update session_ended (finish_fetch silent) else finish_fetch silent

abbrev pub inbox_params : String → ListParams
inbox_params search = record {
  page = none;
  per_page = some 50;
  unread_only = none;
  search = or_none search;
}

abbrev pub list_inbox : String → String → Bool → Job
list_inbox tok search silent =
    request (list_emails tok (inbox_params search)) (emails_answered silent)

-- `fetchEmails`
unfoldable pub fetch_emails : String → String → Bool → Job
unfolding emails_answered
fetch_emails tok search true = list_inbox tok search true
fetch_emails tok search false = update (set_loading_emails true) (list_inbox tok search false)

abbrev pub domains_loaded : List String → Box → Box
domains_loaded [] p = set_view (record (p.view) { domains = [] }) p
domains_loaded (d ∷ ds) p = set_view (record (p.view) { domains = d ∷ ds; selected_domain = d }) p

abbrev pub domains_answered : Result (List String) → Job
domains_answered (ok ds) = update (domains_loaded ds) done
domains_answered (thrown _) = done

-- `if (days) setRetentionDays(days)`
abbrev pub retention : Option ℕ → ℕ → ℕ
retention none days = days
retention (some n) days = if n == 0 then days else n

abbrev pub configured : SetupStatus → Box → Box
configured status p =
    set_view
      (record (p.view) {
        web_hostname = or_empty status.web_hostname;
        retention_days = retention status.permanent_email_retention_days p.view.retention_days;
      })
      p

-- The stored session, once it is read, and the domains.
unfoldable pub restored : Option Saved → Job
unfolding fetch_emails
restored (some (session s)) =
    update (show_session s)
      (spawn (fetch_emails s.token "" false) (request get_domains domains_answered))
restored _ = request get_domains domains_answered

abbrev pub restore : Job
restore = inspect (λ p. restored p.saved)

abbrev pub status_answered : Result SetupStatus → Job
status_answered (ok status) =
    if status.initialized
    then update (configured status) restore
    else update (λ p. record p { route = some "/setup" }) done
status_answered (thrown _) = restore

-- The first effect.
unfoldable pub open_mailbox : Job
unfolding restored
open_mailbox =
    update (λ p. set_view (record (p.view) { mounted = true }) p)
      (request get_setup_status status_answered)

-- `String(e.detail)`, where it is truthy
abbrev pub detail_error : Detail → Phrase
detail_error missing = plain "mailbox.failedCreate"
detail_error (text s) = if is_empty s then plain "mailbox.failedCreate" else verbatim s
detail_error (other s) = verbatim s

-- The error of handleCreate's `catch`.
unfoldable pub create_error : Thrown → Phrase
create_error e =
    if has_status 409 e
    then plain "mailbox.usernameTaken"
    else if has_status 429 e
    then plain "home.rateLimited"
    else detail_error (detail_of e)

abbrev pub stop_busy : Job
stop_busy = update (set_busy false) done

abbrev pub show_created : Session → Box → Box
show_created s p = set_view (record (p.view) { created = some s }) p

-- What follows the request of handleCreate.
unfoldable pub create_answered : Result PermanentAddress → Job
unfolding fetch_emails create_error save_session
create_answered (ok a) =
    let s : Session = record { email = a.email; token = a.token } in
    update (show_created s)
      (update (save_session s) (spawn (fetch_emails a.token "" false) stop_busy))
create_answered (thrown e) = update (set_error (some (create_error e))) stop_busy

-- `handleCreate`
unfoldable pub handle_create : Mailbox → Job
unfolding create_answered trim
handle_create env = update (set_error none) (
    if is_empty (trim env.username)
    then update (set_error (some (plain "mailbox.needUsername"))) done
    else update (set_busy true) (
        request (create_permanent_address (trim env.username) (or_none env.selected_domain))
          create_answered))

-- What follows the request of handleLogin, which tries the token `tok`.
unfoldable pub login_answered : String → Result AddressInfo → Job
unfolding fetch_emails save_session
login_answered tok (ok info) =
    update (λ p. set_view (record (p.view) { login_token = "" }) p)
      (update (save_session (record { email = info.email; token = tok }))
        (spawn (fetch_emails tok "" false) stop_busy))
login_answered tok (thrown _) = update (set_error (some (plain "mailbox.failedLogin"))) stop_busy

-- `handleLogin`
unfoldable pub handle_login : Mailbox → Job
unfolding login_answered trim
handle_login env = update (set_error none) (
    if is_empty (trim env.login_token)
    then done
    else update (set_busy true)
        (request (get_address_info (trim env.login_token)) (login_answered (trim env.login_token))))

abbrev pub copied_job : Bool → Job
copied_job true =
    update (set_copied true) (spawn (call (sleep 2000) (λ _. update (set_copied false) done)) done)
copied_job false = done

-- `copyText`
unfoldable pub copy_text : String → Job
copy_text value = call (copy value) copied_job

-- The `catch` of a click or a delete.
unfoldable pub refused : String → Thrown → Job
unfolding session_ended
refused message e =
    if has_status 404 e
    then update session_ended done
    else update (set_error (some (plain message))) done

module _ (env : Mailbox) where
  -- What follows the request of handleEmailClick.
  unfoldable pub email_answered : String → Result EmailDetail → Job
  unfolding refused mark_read
  email_answered id (ok d) =
      update (set_detail (some d)) (update (set_emails (mark_read id env.emails)) done)
  email_answered id (thrown e) = refused "home.failedToLoad" e

  -- `handleEmailClick`
  unfoldable pub handle_email_click : EmailSummary → Job
  unfolding email_answered
  handle_email_click e =
      if is_empty env.token
      then done
      else request (get_email env.token e.id true) (email_answered e.id)

  abbrev pub close_detail : String → Option EmailDetail → Job
  close_detail id none = done
  close_detail id (some d) = if str_eq d.id id then update (set_detail none) done else done

  -- What follows the request of handleDelete.
  unfoldable pub delete_answered : String → Result (Unit {0}) → Job
  unfolding refused
  delete_answered id (ok _) =
      update (set_emails (filter (λ e. not (str_eq e.id id)) env.emails))
        (close_detail id env.detail)
  delete_answered id (thrown e) = refused "home.failedToDelete" e

  -- `handleDelete`, after the user has answered `confirm`
  unfoldable pub handle_delete : Bool → String → Job
  unfolding delete_answered
  handle_delete confirmed id =
      if is_empty env.token
      then done
      else if confirmed
      then request (delete_email env.token id) (delete_answered id)
      else done
