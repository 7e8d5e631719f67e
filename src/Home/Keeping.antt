-- ===== src/Home/Keeping.antt =====
-- web/app/page.tsx: what the handlers of the buttons keep, for a property of the page that its small
-- writes keep.
mod Requests
use wgtemporary_email.Base.{
  ℕ, String, Bool, true, false, Option, none, some, List, Bool-cases, Option-cases, inl, inr,
  if◌then◌else◌, str_eq,
}
use wgtemporary_email.Base.Text.{is_empty}
use wgtemporary_email.Base.Task.{done}
use wgtemporary_email.Base.Task.Schedule.{if-Keeps}
use wgtemporary_email.Api.{
  AddressResponse, EmailSummary, EmailDetail, EmailListResponse, Result, ok, thrown, Thrown, result,
  create_address, get_domains, list_emails, get_email, delete_email,
}
use wgtemporary_email.Page.{Ask, Answer, Phrase, plain, has_status, is_past}
use wgtemporary_email.Home.State.{
  View, Page, set_loading, set_notice, set_copied, set_emails, set_selected_email, alert,
}
use wgtemporary_email.Home.Handlers.{
  Job, announce, stop_loading, create_answered, payload, expired_address, refresh_tick, for_address,
  show_notice, fetch_domains, domains_loaded, created, create_error, create_new_address,
  confirm_address_gone, finish_fetch, fetch_refused, inbox_answered, domains_answered,
  email_answered, delete_answered, copied_job, fetch_emails, inbox_params, emails_loaded,
  email_deleted, handle_expired_address, on_refused, handle_email_click, handle_delete_email,
  handle_copy_address,
}
use wgtemporary_email.Home.Rotation.{confirm_address_gone-false, fetch_emails-rounds}
pub use Requests.*

module _ (P : Page → Type 0) (i : Ignores P) where
  -- A 404 while reading or deleting an email, and any other error there.
  on_refused-Keeps :
      (rounds : ℕ) (env : View) (token : String) (e : Thrown) (key : String) (next : Job) (p : Page)
      → P p
      → ((p' : Page) → P p' → JobKeeps P next p')
      → JobKeeps P (on_refused rounds env token e key next) p
  unfolding on_refused
  on_refused-Keeps rounds env token e key next p h step =
      if-Keeps P (has_status 404 e) _ _ p
        (confirm-Keeps P i token
          (λ gone. if gone then handle_expired_address rounds env next else next) p h step)
        (step _ (i.alerted (plain key) p h))

  email_answered-Keeps :
      (rounds : ℕ) (env : View) (token id : String) (r : Result EmailDetail) (p : Page)
      → P p
      → JobKeeps P (email_answered rounds env token id r) p
  unfolding email_answered
  email_answered-Keeps rounds env token id (ok d) p h =
      i.loading false _ (i.emails _ _ (i.selected (some d) p h))
  email_answered-Keeps rounds env token id (thrown e) p h =
      on_refused-Keeps rounds env token e _ _ p h (i.loading false)

  pub handle_email_click-Keeps :
      (rounds : ℕ) (env : View) (email : EmailSummary) (p : Page)
      → P p
      → JobKeeps P (handle_email_click rounds env email) p
  unfolding handle_email_click
  handle_email_click-Keeps rounds env email p h = for_address-Keeps P i env.address _ p h (λ a. (
    i.loading true p h,
    λ e.
        email_answered-Keeps rounds env a.token email.id
          (result (get_email a.token email.id true) e),
  ))

  email_deleted-Keeps : (env : View) (id : String) (p : Page) → P p → P (email_deleted env id p)
  unfolding email_deleted
  email_deleted-Keeps env id p h = elim (Option-cases env.selected_email) [
    | inl closed ↦ rw closed (i.emails _ p h)
    | inr (d, read) ↦ elim (Bool-cases (str_eq d.id id)) [
      | inl same ↦ rw (read, same) (i.selected none _ (i.emails _ p h))
      | inr other ↦ rw (read, other) (i.emails _ p h)
    ]
  ]

  delete_answered-Keeps :
      (rounds : ℕ) (env : View) (token id : String) (r : Result (Unit {0})) (p : Page)
      → P p
      → JobKeeps P (delete_answered rounds env token id r) p
  unfolding delete_answered
  delete_answered-Keeps rounds env token id (ok _) p h = email_deleted-Keeps env id p h
  delete_answered-Keeps rounds env token id (thrown e) p h =
      on_refused-Keeps rounds env token e _ _ p h (λ p' h'. h')

  pub handle_delete_email-Keeps :
      (rounds : ℕ) (env : View) (confirmed : Bool) (id : String) (p : Page)
      → P p
      → JobKeeps P (handle_delete_email rounds env confirmed id) p
  unfolding handle_delete_email
  handle_delete_email-Keeps rounds env false id p h =
      for_address-Keeps P i env.address (λ _. done) p h (λ a. h)
  handle_delete_email-Keeps rounds env true id p h = for_address-Keeps P i env.address _ p h (λ a.
      (h, λ e. delete_answered-Keeps rounds env a.token id (result (delete_email a.token id) e)))

  copied_job-Keeps : (fulfilled : Bool) (p : Page) → P p → JobKeeps P (copied_job fulfilled) p
  copied_job-Keeps true p h = ((i.copied true p h, λ _. i.copied false), i.copied true p h)
  copied_job-Keeps false p h = h

  pub handle_copy_address-Keeps :
      (rounds : ℕ) (env : View) (p : Page) → P p → JobKeeps P (handle_copy_address rounds env) p
  unfolding handle_copy_address
  handle_copy_address-Keeps rounds env p h =
      for_address-Keeps P i env.address _ p h (λ a. (h, copied_job-Keeps))
