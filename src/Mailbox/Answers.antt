-- ===== src/Mailbox/Answers.antt =====
-- web/app/mailbox/page.tsx: what answers do to the session, and what the interval asks for.
use wgtemporary_email.Base.{
  Bool-cases, inl, inr, ◌==◌, ℕ, String, ◌≡◌, refl, sym, ap, ◌∙◌, Bool, true, false, Option, none,
  some, List, [], ◌∷◌, ◌&&◌, arith, if◌then◌else◌, str_eq, eq_iff, same_bool,
}
use wgtemporary_email.Base.Task.{Waiting, run, asks}
use wgtemporary_email.Base.Task.Schedule.{Reach, opened, start, resume}
use wgtemporary_email.Api.{
  EmailListResponse, ListParams, Exchange, rejected, answer, Result, result, AddressInfo,
  PermanentAddress, ok, thrown, list_emails,
}
use wgtemporary_email.Page.{Ask, Answer, net, has_status}
use wgtemporary_email.Mailbox.State.{Session, Saved, session, Box, save_session, logout, commit}
use wgtemporary_email.Mailbox.Handlers.{
  inbox_params, emails_answered, fetch_emails, create_answered, login_answered,
}
use wgtemporary_email.Mailbox.Events.{Starts, Reachable, refresh_tick}

-- The interval has the token, the search and the switch that the page shows.
pub record IsTimed (p : Box) : Type 0 where
  pub token : p.timer.token ≡ p.view.token
  pub search : p.timer.search_query ≡ p.view.search_query
  pub auto_refresh : p.timer.auto_refresh ≡ p.view.auto_refresh

same_bool_eq : (a b : Bool) → same_bool a b ≡ true → b ≡ a
same_bool_eq true b h = h
same_bool_eq false b h = ground arith

commit-IsTimed : (p : Box) → IsTimed (commit p)
unfolding commit
commit-IsTimed p =
    go (str_eq p.view.token p.timer.token) (same_bool p.view.auto_refresh p.timer.auto_refresh)
      (str_eq p.view.search_query p.timer.search_query) (eq_iff p.view.token p.timer.token).0
      (same_bool_eq p.view.auto_refresh p.timer.auto_refresh)
      (eq_iff p.view.search_query p.timer.search_query).0
  where
    fresh : IsTimed (record p { timer = p.view })
    fresh = record { token = refl; search = refl; auto_refresh = refl }

    go :
        (a b c : Bool)
        → (a ≡ true → p.view.token ≡ p.timer.token)
        → (b ≡ true → p.timer.auto_refresh ≡ p.view.auto_refresh)
        → (c ≡ true → p.view.search_query ≡ p.timer.search_query)
        → IsTimed (if a && b && c then p else record p { timer = p.view })
    go true true true ha hb hc = record {
      token = sym (ha refl);
      search = sym (hc refl);
      auto_refresh = hb refl;
    }
    go true true false ha hb hc = fresh
    go true false c ha hb hc = fresh
    go false b c ha hb hc = fresh

reached-IsTimed :
    {first : Box} {pending : List (Waiting Box Ask Answer)} {p : Box}
    {ws : List (Waiting Box Ask Answer)}
    → IsTimed first
    → Reach Starts commit first pending p ws
    → IsTimed p
reached-IsTimed h opened = h
reached-IsTimed h (start t reached can) = commit-IsTimed _
reached-IsTimed h (resume before w after r reached) = commit-IsTimed _

-- In every reachable page, a tick asks for the emails of the shown token that match the shown search.
pub Reachable-refresh_tick :
    (saved : Option Saved) (now : ℕ) {p : Box} {ws : List (Waiting Box Ask Answer)}
    → Reachable saved now p ws
    → asks (run (refresh_tick p.timer) p).1
      ≡ net (list_emails p.view.token (inbox_params p.view.search_query)) ∷ []
unfolding fetch_emails
Reachable-refresh_tick saved now {p} reached =
    let timed = reached-IsTimed (commit-IsTimed _) reached in
    ap (λ s. net (list_emails p.timer.token (inbox_params s)) ∷ []) timed.search
    ∙ ap (λ s. net (list_emails s (inbox_params p.view.search_query)) ∷ []) timed.token

abbrev pub is_404 : {B : Type 0} → Exchange B → Bool
is_404 rejected = false
is_404 (answer status _) = status == 404

-- The page shows and stores the session, or none.
abbrev pub HasSession : Option Session → Box → Type 0
HasSession none p = (p.view.token ≡ "") × (p.view.email ≡ "") × (p.saved ≡ none)
HasSession (some s) p =
    (p.view.token ≡ s.token) × (p.view.email ≡ s.email) × (p.saved ≡ some (session s))

-- What a list makes of the session, by whether the method threw a 404.
abbrev survivor : Result EmailListResponse → Session → Option Session
survivor (ok _) s = some s
survivor (thrown t) s = if has_status 404 t then none else some s

answered-HasSession :
    (silent : Bool) (r : Result EmailListResponse) (s : Session) (p : Box)
    → HasSession (survivor r s) (run (emails_answered silent r) (save_session s p)).0
unfolding emails_answered save_session logout
answered-HasSession true (ok d) s p = (refl, refl, refl)
answered-HasSession false (ok d) s p = (refl, refl, refl)
answered-HasSession true (thrown t) s p = elim (Bool-cases (has_status 404 t)) [
  | inl gone ↦ rw gone (refl, refl, refl)
  | inr other ↦ rw other (refl, refl, refl)
]
answered-HasSession false (thrown t) s p = elim (Bool-cases (has_status 404 t)) [
  | inl gone ↦ rw gone (refl, refl, refl)
  | inr other ↦ rw other (refl, refl, refl)
]

survivor-result :
    (tok : String) (params : ListParams) (e : Exchange EmailListResponse) (s : Session)
    → survivor (result (list_emails tok params) e) s ≡ (if is_404 e then none else some s)
unfolding result
survivor-result tok params rejected s = refl
survivor-result tok params (answer status none) s = ground arith
survivor-result tok params (answer status (some b)) s = ground arith

-- The answer to a list that was asked for with the token `tok`, when the page has signed in since with the
-- session `s`, of that token or another: the session stays shown and stored if the answer is no 404, and a
-- 404 ends it, though it is not the session that was asked for.
pub emails_answered-HasSession :
    (silent : Bool) (tok : String) (params : ListParams) (e : Exchange EmailListResponse)
    (s : Session) (p : Box)
    → HasSession
        (if is_404 e then none else some s)
        (run (emails_answered silent (result (list_emails tok params) e)) (save_session s p)).0
emails_answered-HasSession silent tok params e s p =
    rw (sym (survivor-result tok params e s))
      (answered-HasSession silent (result (list_emails tok params) e) s p)

-- The page shows and stores the session, is not busy, and asks for its emails without a search.
pub record IsSignedIn (s : Session) (r : Box × List (Waiting Box Ask Answer)) : Type 0 where
  pub email : r.0.view.email ≡ s.email
  pub token : r.0.view.token ≡ s.token
  pub saved : r.0.saved ≡ some (session s)
  pub idle : r.0.view.busy ≡ false
  pub list : asks r.1 ≡ net (list_emails s.token (inbox_params "")) ∷ []

-- A token that the server knows signs in with the address of the answer, and clears the field.
pub login_answered_ok :
    (tok : String) (info : AddressInfo) (p : Box)
    → let r = run (login_answered tok (ok info)) p in
      IsSignedIn (record { email = info.email; token = tok }) r × (r.0.view.login_token ≡ "")
unfolding login_answered fetch_emails save_session
login_answered_ok tok info p =
    (record { email = refl; token = refl; saved = refl; idle = refl; list = refl }, refl)

-- A new mailbox signs in with the address and the token of the answer, and shows both.
pub create_answered-IsSignedIn :
    (a : PermanentAddress) (p : Box)
    → let s : Session = record { email = a.email; token = a.token } in
      let r = run (create_answered (ok a)) p in IsSignedIn s r × (r.0.view.created ≡ some s)
unfolding create_answered fetch_emails save_session
create_answered-IsSignedIn a p =
    (record { email = refl; token = refl; saved = refl; idle = refl; list = refl }, refl)
