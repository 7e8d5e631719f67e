-- ===== src/Home/Refresh.antt =====
-- web/app/page.tsx: the interval, and the rotation of an address that has expired.
use wgtemporary_email.Base.{
  Bool-cases, inl, inr, ℕ, String, ◌≡◌, refl, ap, ◌∙◌, Bool, true, false, none, some, List, [], ◌∷◌,
  arith, if◌then◌else◌,
}
use wgtemporary_email.Base.Text.{is_empty}
use wgtemporary_email.Base.Task.{Waiting, done, run, asks}
use wgtemporary_email.Api.{AddressResponse, create_address, list_emails}
use wgtemporary_email.Page.{Ask, Answer, net, is_past}
use wgtemporary_email.Home.State.{View, Page, commit}
use wgtemporary_email.Home.Handlers.{
  Job, create_new_address, expired_address, payload, handle_expired_address, inbox_params,
  fetch_emails, refresh_tick,
}
use wgtemporary_email.Home.Rotation.{fetch_emails-rounds}
use wgtemporary_email.Home.Events.{edit_search}

-- The interval was set for the address object and the switch that the page has.
abbrev pub IsArmed : Page → Type 0
IsArmed p = (p.address_object ≡ p.timer_object) × (p.view.auto_refresh ≡ p.timer_env.auto_refresh)

-- After every render the interval is the one of the shown address and switch.
pub commit-IsArmed : (p : Page) → IsArmed (commit p)
unfolding commit
commit-IsArmed p = ground arith

commit_of_IsArmed : (p : Page) → IsArmed p → commit p ≡ p
unfolding commit
commit_of_IsArmed p h = ground arith

run_if :
    (b c : Bool) (j k : Job) (p : Page)
    → b ≡ c
    → run (if b then j else k) p ≡ run (if c then j else k) p
run_if b c j k p h = rw h

-- A tick before the expiry lists the emails with the search of the interval's render.
asks-refresh_tick :
    (rounds : ℕ) (env : View) (a : AddressResponse) (p : Page)
    → is_past a.expires_at p.now ≡ false
    → asks (run (refresh_tick rounds env a) p).1 ≡ net (list_emails a.token (inbox_params env)) ∷ []
unfolding refresh_tick
asks-refresh_tick rounds env a p live =
    ap (λ (r : Page × List (Waiting Page Ask Answer)). asks r.1)
      (run_if (is_past a.expires_at p.now) false (handle_expired_address rounds env done)
          (fetch_emails rounds env a.token true) p live
        ∙ ap (λ j. run j p) (fetch_emails-rounds rounds env a.token true))
    ∙ unfold fetch_emails in refl

-- Typing a search does not set the interval again: the page shows the new text, and a tick before the
-- expiry asks for the emails that match the text of the interval's render.
pub edit_search-refresh_tick :
    (rounds : ℕ) (s : String) (a : AddressResponse) (p : Page)
    → IsArmed p
    → is_past a.expires_at p.now ≡ false
    → let p' = commit (run (edit_search s) p).0 in
      (p'.view.search_query ≡ s)
      × (asks (run (refresh_tick rounds p'.timer_env a) p').1
          ≡ net (list_emails a.token (inbox_params p.timer_env)) ∷ [])
unfolding edit_search
edit_search-refresh_tick rounds s a p armed live =
    let typed : Page = record p { view = record (p.view) { search_query = s } } in
    rw (commit_of_IsArmed typed armed) (refl, asks-refresh_tick rounds p.timer_env a typed live)

-- The request for an address with the custom name and the domain of a render.
abbrev pub asks_address : View → List Ask
asks_address env =
    net (
      create_address (record {
        username = if is_empty env.custom_username then none else some env.custom_username;
        domain = if is_empty env.selected_domain then none else some env.selected_domain;
      }))
    ∷ []

-- What a tick asks for, in a render that shows the address `a`.
abbrev tick_asks : View → AddressResponse → ℕ → List Ask
tick_asks env a now =
    if is_past a.expires_at now
    then if is_empty a.email then [] else asks_address env
    else net (
        list_emails a.token (record {
          page = none;
          per_page = some 50;
          unread_only = none;
          search = if is_empty env.search_query then none else some env.search_query;
        }))
      ∷ []

rotation :
    (rounds : ℕ) (env : View) (a : AddressResponse) (p : Page)
    → env.address ≡ some a
    → is_past a.expires_at p.now ≡ true
    → run (refresh_tick rounds env a) p
      ≡ run (if is_empty a.email then done else create_new_address rounds env a.email done) p
unfolding refresh_tick handle_expired_address
rotation rounds env a p shown past =
    run_if (is_past a.expires_at p.now) true (handle_expired_address rounds env done)
      (fetch_emails rounds env a.token true) p past
    ∙ ap (λ o. run (expired_address (λ tok. fetch_emails rounds env tok false) env done o) p) shown

rotation-asks :
    (rounds : ℕ) (env : View) (old : String) (p : Page) (b : Bool)
    → asks (run (if b then done else create_new_address rounds env old done) p).1
      ≡ (if b then [] else asks_address env)
unfolding create_new_address payload
rotation-asks rounds env old p true = refl
rotation-asks rounds env old p false = refl

-- A tick in a render that shows an address: before the expiry it asks for fifty emails that match the
-- search of that render; from the expiry on it asks for a new address with the custom name and the
-- domain of that render, each left out where it is empty, and for nothing if the address has no name.
pub asks-refresh_tick_all :
    (rounds : ℕ) (env : View) (a : AddressResponse) (p : Page)
    → env.address ≡ some a
    → asks (run (refresh_tick rounds env a) p).1 ≡ tick_asks env a p.now
asks-refresh_tick_all rounds env a p shown = elim (Bool-cases (is_past a.expires_at p.now)) [
  | inl past ↦
      ap (λ (r : Page × List (Waiting Page Ask Answer)). asks r.1)
        (rotation rounds env a p shown past)
      ∙ rw past (rotation-asks rounds env a.email p (is_empty a.email))
  | inr live ↦ asks-refresh_tick rounds env a p live ∙ rw live refl
]
