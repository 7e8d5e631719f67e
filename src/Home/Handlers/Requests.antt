-- ===== src/Home/Handlers/Requests.antt =====
-- web/app/page.tsx: the requests that the handlers share: the domains, a new address, the emails. A
-- function that the source awaits takes what follows it as its last argument. createNewAddress and
-- fetchEmails call one another; `rounds` bounds how many rotations one call can go through.
-- Rotation shows that one call goes through none.
use wgtemporary_email.Base.{
  ℕ, zero, suc, String, Bool, true, false, Option, none, some, List, [], ◌∷◌, if◌then◌else◌,
}
use wgtemporary_email.Base.Text.{is_empty, or_none}
use wgtemporary_email.Base.Task.{Task, done, update, inspect, call, spawn}
use wgtemporary_email.Api.{
  AddressCreate, AddressResponse, EmailListResponse, ListParams, get_address_info, get_domains,
  create_address, list_emails, Thrown, runtime, Result, ok, thrown,
}
use wgtemporary_email.Page.{Ask, sleep, Answer, request, Phrase, say, plain, has_status}
use wgtemporary_email.Home.State.{set_address, View, entry, Page, set_loading, set_notice, alert}

abbrev pub Job : Type 0
Job = Task Page Ask Answer

-- `if (!address) return`
abbrev pub for_address : Option AddressResponse → (AddressResponse → Job) → Job
for_address none job = done
for_address (some a) job = job a

-- `showNotice`
unfoldable pub show_notice : Phrase → Job → Job
show_notice msg next =
    update (set_notice (some msg))
      (spawn (call (sleep 12000) (λ _. update (set_notice none) done)) next)

abbrev pub domains_loaded : List String → Page → Page
domains_loaded [] p = record p { view = record (p.view) { domains = [] } }
domains_loaded (d ∷ ds) p = record p {
  view = record (p.view) { domains = d ∷ ds; selected_domain = d };
}

abbrev pub domains_answered : Result (List String) → Job
domains_answered (ok ds) = update (domains_loaded ds) done
domains_answered (thrown _) = done

-- `fetchDomains`
unfoldable pub fetch_domains : Job
fetch_domains = request get_domains domains_answered

-- The body of createNewAddress's request.
unfoldable pub payload : View → AddressCreate
payload env = record {
  username = or_none env.custom_username;
  domain = or_none env.selected_domain;
}

-- What follows `setItem` for a new address: it is stored, and the inbox is empty.
unfoldable pub created : AddressResponse → Page → Page
created a p = record p {
  view = record (p.view) {
    emails = [];
    selected_email = none;
    custom_username = "";
    show_new_email_dialog = false;
  };
  saved = some (entry a);
}

-- The alert of createNewAddress's `catch`.
unfoldable pub create_error : Thrown → Phrase
create_error e =
    if has_status 409 e
    then plain "home.usernameTaken"
    else if has_status 429 e
    then plain "home.rateLimited"
    else plain "home.failedToCreate"

-- The notice of a rotation, and the `finally` of createNewAddress.
abbrev pub announce : String → AddressResponse → Job → Job
announce old_email a next =
    if is_empty old_email
    then next
    else show_notice (say "home.expiredNewAddress" (("old", old_email) ∷ ("new", a.email) ∷ []))
        next

abbrev pub stop_loading : Job → Job
stop_loading = update (set_loading false)

-- The `catch` and the `finally` of createNewAddress.
abbrev pub create_failed : Thrown → Job → Job
create_failed e next = update (alert (create_error e)) (stop_loading next)

-- What follows the request of createNewAddress. A `setItem` that throws goes to the `catch`, with an
-- error that has no status, once the address is shown.
abbrev pub create_answered : (String → Job) → String → Job → Result AddressResponse → Job
create_answered fetch old_email next (ok a) = update (set_address a) (
    inspect (λ p.
      if p.can_store
      then update (created a) (spawn (fetch a.token) (announce old_email a (stop_loading next)))
      else create_failed runtime next))
create_answered fetch old_email next (thrown e) = create_failed e next

-- `createNewAddress(oldEmail)`; an undefined `oldEmail` is the empty text. `fetch` is fetchEmails.
unfoldable pub create_with : (String → Job) → View → String → Job → Job
create_with fetch env old_email next =
    update (set_loading true)
      (request (create_address (payload env)) (create_answered fetch old_email next))

-- `confirmAddressGone`
unfoldable pub confirm_address_gone : String → (Bool → Job) → Job
confirm_address_gone token next =
    request (get_address_info token)
      (λ r. elim r [ ok _ ↦ next false | thrown e ↦ next (has_status 404 e) ])

-- `handleExpiredAddress`; `fetch` is fetchEmails.
abbrev pub expired_address : (String → Job) → View → Job → Option AddressResponse → Job
expired_address fetch env next none = next
expired_address fetch env next (some a) =
    if is_empty a.email then next else create_with fetch env a.email next

unfoldable pub expired_with : (String → Job) → View → Job → Job
expired_with fetch env next = expired_address fetch env next env.address

abbrev pub inbox_params : View → ListParams
inbox_params env = record {
  page = none;
  per_page = some 50;
  unread_only = none;
  search = or_none env.search_query;
}

abbrev pub emails_loaded : EmailListResponse → Page → Page
emails_loaded d p = record p { view = record (p.view) { emails = d.emails; last_refresh = p.now } }

-- The `finally` of fetchEmails.
abbrev pub finish_fetch : Bool → Job
finish_fetch true = done
finish_fetch false = update (set_loading false) done

-- The `catch` of fetchEmails; `expired` is handleExpiredAddress.
unfoldable pub fetch_refused : (Job → Job) → String → Bool → Thrown → Job
fetch_refused expired token silent e =
    if has_status 404 e
    then confirm_address_gone token
        (λ gone. if gone then expired (finish_fetch silent) else finish_fetch silent)
    else finish_fetch silent

-- What follows the request of fetchEmails, and the request.
abbrev pub inbox_answered : (Thrown → Job) → Bool → Result EmailListResponse → Job
inbox_answered refused silent (ok d) = update (emails_loaded d) (finish_fetch silent)
inbox_answered refused silent (thrown e) = refused e

abbrev pub list_inbox : (Thrown → Job) → View → String → Bool → Job
list_inbox refused env token silent =
    request (list_emails token (inbox_params env)) (inbox_answered refused silent)

-- `fetchEmails`; `expired` is handleExpiredAddress.
unfoldable pub fetch_with : (Job → Job) → View → String → Bool → Job
fetch_with expired env token silent =
    if silent
    then list_inbox (fetch_refused expired token silent) env token silent
    else update (set_loading true)
        (list_inbox (fetch_refused expired token silent) env token silent)

unfoldable pub fetch_emails : ℕ → View → String → Bool → Job
unfolding fetch_with expired_with
fetch_emails zero env token silent = fetch_with (λ next. next) env token silent
fetch_emails (suc rounds) env token silent =
    fetch_with (expired_with (λ tok. fetch_emails rounds env tok false) env) env token silent
