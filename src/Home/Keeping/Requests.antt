-- ===== src/Home/Keeping/Requests.antt =====
-- web/app/page.tsx: what the requests and the rotation keep, for a property of the page that its small
-- writes keep.
use wgtemporary_email.Base.{
  ◌≡◌, ℕ, String, Bool, true, false, Option, none, some, List, if◌then◌else◌,
}
use wgtemporary_email.Base.Text.{is_empty}
use wgtemporary_email.Base.Task.{done, update, spawn}
use wgtemporary_email.Base.Task.Schedule.{branch-Keeps, if-Keeps, Keeps, run-Keeps}
use wgtemporary_email.Api.{
  runtime, AddressResponse, EmailSummary, EmailDetail, EmailListResponse, Result, ok, thrown,
  Thrown, result, create_address, get_domains, list_emails,
}
use wgtemporary_email.Page.{Ask, Answer, Phrase, has_status, is_past}
use wgtemporary_email.Home.State.{
  set_address, View, Page, set_loading, set_notice, set_copied, set_emails, set_selected_email,
  alert,
}
use wgtemporary_email.Home.Handlers.{
  create_failed, Job, announce, stop_loading, create_answered, payload, expired_address,
  refresh_tick, for_address, show_notice, fetch_domains, domains_loaded, created, create_error,
  create_new_address, confirm_address_gone, finish_fetch, fetch_refused, inbox_answered,
  domains_answered, fetch_emails, inbox_params, emails_loaded, handle_expired_address,
}
use wgtemporary_email.Home.Rotation.{confirm_address_gone-false, fetch_emails-rounds}

-- The writes of the handlers that leave the address and the storage alone.
pub record Ignores (P : Page → Type 0) : Type 0 where
  pub loading : (b : Bool) (p : Page) → P p → P (set_loading b p)
  pub notice : (n : Option Phrase) (p : Page) → P p → P (set_notice n p)
  pub copied : (b : Bool) (p : Page) → P p → P (set_copied b p)
  pub alerted : (m : Phrase) (p : Page) → P p → P (alert m p)
  pub inbox : (d : EmailListResponse) (p : Page) → P p → P (emails_loaded d p)
  pub emails : (es : List EmailSummary) (p : Page) → P p → P (set_emails es p)
  pub selected : (e : Option EmailDetail) (p : Page) → P p → P (set_selected_email e p)
  pub domains : (ds : List String) (p : Page) → P p → P (domains_loaded ds p)

abbrev pub JobKeeps : (Page → Type 0) → Job → Page → Type 0
JobKeeps P j p = Keeps {Q = Ask} {R = Answer} P j p

module _ (P : Page → Type 0) (i : Ignores P) where
  pub for_address-Keeps :
      (o : Option AddressResponse) (job : AddressResponse → Job) (p : Page)
      → P p
      → ((a : AddressResponse) → JobKeeps P (job a) p)
      → JobKeeps P (for_address o job) p
  for_address-Keeps none job p h each = h
  for_address-Keeps (some a) job p h each = each a

  finish_fetch-Keeps : (silent : Bool) (p : Page) → P p → JobKeeps P (finish_fetch silent) p
  finish_fetch-Keeps true p h = h
  finish_fetch-Keeps false p h = i.loading false p h

  -- Waiting for /info, and then `next`, whatever the answer.
  pub confirm-Keeps :
      (token : String) (next : Bool → Job) (p : Page)
      → P p
      → ((p' : Page) → P p' → JobKeeps P (next false) p')
      → JobKeeps P (confirm_address_gone token next) p
  confirm-Keeps token next p h step =
      rw (confirm_address_gone-false token next) (h, λ e p' h'. step p' h')

  fetch_refused-Keeps :
      (token : String) (silent : Bool) (e : Thrown) (p : Page)
      → P p
      → JobKeeps P (fetch_refused (λ next. next) token silent e) p
  unfolding fetch_refused
  fetch_refused-Keeps token silent e p h =
      if-Keeps P (has_status 404 e) _ _ p
        (confirm-Keeps token (λ gone. if gone then finish_fetch silent else finish_fetch silent) p h
          (finish_fetch-Keeps silent))
        (finish_fetch-Keeps silent p h)

  inbox_answered-Keeps :
      (token : String) (silent : Bool) (r : Result EmailListResponse) (p : Page)
      → P p
      → JobKeeps P (inbox_answered (fetch_refused (λ next. next) token silent) silent r) p
  inbox_answered-Keeps token silent (ok d) p h = finish_fetch-Keeps silent _ (i.inbox d p h)
  inbox_answered-Keeps token silent (thrown e) p h = fetch_refused-Keeps token silent e p h

  -- fetchEmails, whatever is answered and however many rotations are allowed.
  pub fetch_emails-Keeps :
      (rounds : ℕ) (env : View) (token : String) (silent : Bool) (p : Page)
      → P p
      → JobKeeps P (fetch_emails rounds env token silent) p
  unfolding fetch_emails
  fetch_emails-Keeps rounds env token true p h =
      rw (fetch_emails-rounds rounds env token true)
        (h, λ e. inbox_answered-Keeps token true (result (list_emails token (inbox_params env)) e))
  fetch_emails-Keeps rounds env token false p h = rw (fetch_emails-rounds rounds env token false) (
    i.loading true p h,
    λ e. inbox_answered-Keeps token false (result (list_emails token (inbox_params env)) e),
  )

  domains_answered-Keeps :
      (r : Result (List String)) (p : Page) → P p → JobKeeps P (domains_answered r) p
  domains_answered-Keeps (ok ds) p h = i.domains ds p h
  domains_answered-Keeps (thrown _) p h = h

  pub fetch_domains-Keeps : (p : Page) → P p → JobKeeps P fetch_domains p
  unfolding fetch_domains
  fetch_domains-Keeps p h = (h, λ e. domains_answered-Keeps (result get_domains e))

  show_notice-Keeps :
      (m : Phrase) (next : Job) (p : Page)
      → P p
      → ((p' : Page) → P p' → JobKeeps P next p')
      → JobKeeps P (show_notice m next) p
  unfolding show_notice
  show_notice-Keeps m next p h step =
      let q = i.notice (some m) p h in ((q, λ _ p' h'. i.notice none p' h'), step _ q)

  failed-Keeps :
      (e : Thrown) (next : Job) (p : Page)
      → P p
      → ((p' : Page) → P p' → JobKeeps P next p')
      → JobKeeps P (create_failed e next) p
  failed-Keeps e next p h step = step _ (i.loading false _ (i.alerted (create_error e) p h))

  pub announce-Keeps :
      (old : String) (a : AddressResponse) (next : Job) (p : Page)
      → P p
      → ((p' : Page) → P p' → JobKeeps P next p')
      → JobKeeps P (announce old a next) p
  announce-Keeps old a next p h step =
      if-Keeps P (is_empty old) next _ p (step p h) (show_notice-Keeps _ next p h step)

  module _ (on_stored : (a : AddressResponse) (p : Page) → P p → P (created a (set_address a p)))
      (on_lost : (a : AddressResponse) (p : Page)
        → P p
        → p.can_store ≡ false
        → P (set_address a p)) where
    stored-Keeps :
        (rounds : ℕ) (env : View) (old : String) (next : Job) (a : AddressResponse) (p : Page)
        → P (created a p)
        → ((p' : Page) → P p' → JobKeeps P next p')
        → JobKeeps P
            (update
              (created a)
              (spawn (fetch_emails rounds env a.token false) (announce old a (stop_loading next))))
            p
    stored-Keeps rounds env old next a p q step =
        let fetching = fetch_emails-Keeps rounds env a.token false (created a p) q in
        (
          fetching,
          announce-Keeps old a (stop_loading next) _
              (run-Keeps P (fetch_emails rounds env a.token false) (created a p) fetching).0
              (λ p' h'. step _ (i.loading false p' h')),
        )

    create_answered-Keeps :
        (rounds : ℕ) (env : View) (old : String) (next : Job) (r : Result AddressResponse)
        (p : Page)
        → P p
        → ((p' : Page) → P p' → JobKeeps P next p')
        → JobKeeps P (create_answered (λ tok. fetch_emails rounds env tok false) old next r) p
    create_answered-Keeps rounds env old next (ok a) p h step =
        branch-Keeps P p.can_store _ _ (set_address a p)
          (λ _. stored-Keeps rounds env old next a (set_address a p) (on_stored a p h) step)
          (λ lost. failed-Keeps runtime next _ (on_lost a p h lost) step)
    create_answered-Keeps rounds env old next (thrown e) p h step = failed-Keeps e next p h step

    -- createNewAddress, followed by what keeps the property.
    pub create_new_address-Keeps :
        (rounds : ℕ) (env : View) (old : String) (next : Job) (p : Page)
        → P p
        → ((p' : Page) → P p' → JobKeeps P next p')
        → JobKeeps P (create_new_address rounds env old next) p
    unfolding create_new_address
    create_new_address-Keeps rounds env old next p h step = (
      i.loading true p h,
      λ e p' h'.
          create_answered-Keeps rounds env old next (result (create_address (payload env)) e) p' h'
            step,
    )

    expired_address-Keeps :
        (rounds : ℕ) (env : View) (p : Page)
        → P p
        → (o : Option AddressResponse)
        → JobKeeps P (expired_address (λ tok. fetch_emails rounds env tok false) env done o) p
    unfolding create_new_address
    expired_address-Keeps rounds env p h none = h
    expired_address-Keeps rounds env p h (some a) =
        if-Keeps P (is_empty a.email) done _ p h
          (create_new_address-Keeps rounds env a.email done p h (λ p' h'. h'))

    pub handle_expired_address-Keeps :
        (rounds : ℕ) (env : View) (p : Page)
        → P p
        → JobKeeps P (handle_expired_address rounds env done) p
    unfolding handle_expired_address
    handle_expired_address-Keeps rounds env p h = expired_address-Keeps rounds env p h env.address

    pub refresh_tick-Keeps :
        (rounds : ℕ) (env : View) (a : AddressResponse) (p : Page)
        → P p
        → JobKeeps P (refresh_tick rounds env a) p
    unfolding refresh_tick
    refresh_tick-Keeps rounds env a p h =
        if-Keeps P (is_past a.expires_at p.now) _ _ p (handle_expired_address-Keeps rounds env p h)
          (fetch_emails-Keeps rounds env a.token true p h)
