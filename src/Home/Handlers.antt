-- ===== src/Home/Handlers.antt =====
-- web/app/page.tsx: the effects and handlers, on the requests of Handlers/Requests.
mod Requests
use wgtemporary_email.Base.{
  ℕ, zero, suc, String, Bool, true, false, not, Option, none, some, List, [], ◌∷◌, if◌then◌else◌,
  str_eq, filter,
}
use wgtemporary_email.Base.Text.{is_empty, or_none, or_empty}
use wgtemporary_email.Base.Task.{Task, done, update, inspect, call, spawn}
use wgtemporary_email.Api.{
  AddressCreate, AddressResponse, EmailDetail, EmailSummary, EmailListResponse, ListParams,
  get_setup_status, get_address_info, get_domains, create_address, list_emails, get_email,
  delete_email, Thrown, Result, ok, thrown,
}
use wgtemporary_email.Page.{
  Ask, sleep, copy, Answer, request, Phrase, say, plain, has_status, is_past, mark_read,
}
use wgtemporary_email.Home.State.{
  View, entry, garbage, Page, set_address, set_loading, set_notice, set_copied, set_emails,
  set_selected_email, alert,
}
unfoldable pub use Requests.*

-- The writes after a delete: the emails of the render without it, and the reading pane closed if
-- the render showed it there.
unfoldable pub email_deleted : View → String → Page → Page
email_deleted env id p =
    let rest : Page = set_emails (filter (λ e. not (str_eq e.id id)) env.emails) p in
    elim env.selected_email [
      | none ↦ rest
      | some d ↦ if str_eq d.id id then set_selected_email none rest else rest
    ]

-- The tick mark after a copy, for two seconds.
abbrev pub copied_job : Bool → Job
copied_job true =
    update (set_copied true) (spawn (call (sleep 2000) (λ _. update (set_copied false) done)) done)
copied_job false = done

module _ (rounds : ℕ) (env : View) where
  unfoldable pub create_new_address : String → Job → Job
  unfolding create_with
  create_new_address = create_with (λ tok. fetch_emails rounds env tok false) env

  unfoldable pub handle_expired_address : Job → Job
  unfolding expired_with create_new_address
  handle_expired_address = expired_with (λ tok. fetch_emails rounds env tok false) env

  -- `initInbox`
  unfoldable pub init_inbox : Job
  unfolding create_new_address fetch_domains
  init_inbox = inspect (λ p. elim p.saved [
    | none ↦ spawn (create_new_address "" done) fetch_domains
    | some garbage ↦ spawn (create_new_address "" done) fetch_domains
    | some (entry a) ↦
        if is_past a.expires_at p.now
        then update (λ p. record p { saved = none })
            (spawn (create_new_address a.email done) fetch_domains)
        else update (set_address a) (spawn (fetch_emails rounds env a.token false) fetch_domains)
  ])

  -- The effect of the first render.
  unfoldable pub open_home : Job
  unfolding init_inbox
  open_home = request get_setup_status (λ r. elim r [
    | ok status ↦
        if status.initialized
        then update
            (λ p. record p {
              view = record (p.view) { web_hostname = or_empty status.web_hostname };
            })
            init_inbox
        else update (λ p. record p { route = some "/setup" }) done
    | thrown _ ↦ init_inbox
  ])

  -- The callback of the interval, which is set for a render with an address.
  unfoldable pub refresh_tick : AddressResponse → Job
  unfolding handle_expired_address
  refresh_tick a = inspect (λ p.
      if is_past a.expires_at p.now
      then handle_expired_address done
      else fetch_emails rounds env a.token true)

  -- The tail of a `catch` that meets a 404: the address is replaced once /info confirms it.
  unfoldable pub on_refused : String → Thrown → String → Job → Job
  unfolding confirm_address_gone handle_expired_address
  on_refused token e message next =
      if has_status 404 e
      then confirm_address_gone token (λ gone. if gone then handle_expired_address next else next)
      else update (alert (plain message)) next

  -- What follows the request of handleEmailClick, for an address with the token.
  unfoldable pub email_answered : String → String → Result EmailDetail → Job
  unfolding on_refused mark_read
  email_answered token id (ok detail) =
      update (λ p. set_emails (mark_read id env.emails) (set_selected_email (some detail) p))
        (stop_loading done)
  email_answered token id (thrown e) = on_refused token e "home.failedToLoad" (stop_loading done)

  -- `handleEmailClick`
  unfoldable pub handle_email_click : EmailSummary → Job
  unfolding email_answered
  handle_email_click email = for_address env.address (λ a.
      update (set_loading true)
        (request (get_email a.token email.id true) (email_answered a.token email.id)))

  -- What follows the request of handleDeleteEmail.
  unfoldable pub delete_answered : String → String → Result (Unit {0}) → Job
  unfolding on_refused email_deleted
  delete_answered token id (ok _) = update (email_deleted env id) done
  delete_answered token id (thrown e) = on_refused token e "home.failedToDelete" done

  -- `handleDeleteEmail`, after the user has answered `confirm`
  unfoldable pub handle_delete_email : Bool → String → Job
  unfolding delete_answered
  handle_delete_email confirmed id = for_address env.address (λ a.
      if confirmed then request (delete_email a.token id) (delete_answered a.token id) else done)

  -- `handleCopyAddress`
  unfoldable pub handle_copy_address : Job
  handle_copy_address = for_address env.address (λ a. call (copy a.email) copied_job)
