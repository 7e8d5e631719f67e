-- ===== src/Admin/Login.antt =====
-- web/app/admin/page.tsx, the sign-in, and web/app/admin/layout.tsx, which lets a page of the panel
-- show.
use wgtemporary_email.Base.{
  not, ◌&&◌, ◌||◌, false_of, String, ◌≡◌, refl, ap, ◌∙◌, eq_iff, ◌≢◌, ◌↔◌, Bool-cases, inl, inr,
  Bool, true, false, Option, none, some, arith, ◌==◌, if◌then◌else◌, [],
}
use wgtemporary_email.Base.Text.{is_empty, trim, or_empty}
use wgtemporary_email.Base.Task.{Task, done, update, call, run}
use wgtemporary_email.Api.{SetupStatus, Exchange, rejected, answer}
use wgtemporary_email.Page.{Phrase, say}
use wgtemporary_email.Admin.Requests.{AdminRequest, AdminSuccess, get_stats}
use wgtemporary_email.Admin.Types.{AdminStats}
use wgtemporary_email.Admin.Client.{
  Stored, get_admin_token, set_admin_token, Outcome, fulfilled, api_error, runtime_error, receive,
  receive_lem, Accepts, is_401,
}

-- The sign-in component, with localStorage and the route. No error is `none`, "" in the source.
pub record Login : Type 0 where
  pub token : String
  pub error : Option Phrase
  pub loading : Bool
  pub stored : Stored
  pub route : Option String

abbrev pub AdminAnswer : AdminRequest → Type 0
AdminAnswer q = Exchange (AdminSuccess q)

abbrev pub LoginJob : Type 0
LoginJob = Task Login AdminRequest AdminAnswer

-- The message of the `catch`: a wrong token is told from a session that has expired.
abbrev login_error : {B : Type 0} → Outcome B → Option Phrase
login_error (fulfilled _) = none
login_error (api_error status message) =
    if status == 401 then some (say "admin.wrongToken" []) else some message
login_error runtime_error = some (say "admin.loginFailed" [])

-- What follows the request that tries the token.
unfoldable pub login_answered : Outcome AdminStats → LoginJob
login_answered (fulfilled _) =
    update (λ s. record s { route = some "/admin/dashboard" })
      (update (λ s. record s { loading = false }) done)
login_answered o =
    update (λ s. record s { error = login_error o; stored = set_admin_token "" s.stored })
      (update (λ s. record s { loading = false }) done)

-- `await adminApi.getStats()`: `request` reads the answer against the token that is stored by then.
unfoldable pub stats_answered : Exchange AdminStats → LoginJob
unfolding login_answered receive
stats_answered e =
    update (λ s. record s { stored = (receive e s.stored).0 }) (login_answered (receive e none).1)

-- `handleLogin`
unfoldable pub handle_login : Login → LoginJob
unfolding stats_answered trim
handle_login env =
    update
      (λ s. record s {
        error = none;
        loading = true;
        stored = set_admin_token (trim env.token) s.stored;
      })
      (call get_stats stats_answered)

-- The layout's `useState` variables. It shows its page while `ready` holds, which nothing resets.
pub record Layout : Type 0 where
  pub ready : Bool
  pub web_hostname : String

-- The end of the layout's effect: the state that it leaves, and where it redirects to.
abbrev admit : Bool → Stored → Layout → Layout × Option String
admit is_login_page stored s =
    if is_login_page
    then (record s { ready = true }, none)
    else if is_empty (get_admin_token stored)
    then (s, some "/admin")
    else (record s { ready = true }, none)

-- The layout's effect, which runs for each address. Its own `fetch` does not look at the status of the
-- answer.
unfoldable pub layout_gate : Bool → Exchange SetupStatus → Stored → Layout → Layout × Option String
layout_gate is_login_page rejected stored s = admit is_login_page stored s
layout_gate is_login_page (answer status none) stored s = admit is_login_page stored s
layout_gate is_login_page (answer status (some (setup, _))) stored s =
    if setup.initialized
    then admit is_login_page stored (record s { web_hostname = or_empty setup.web_hostname })
    else (s, some "/setup")

-- How a sign-in ends, by how the request does.
login_answered_lem :
    (o : Outcome AdminStats) (s : Login)
    → let after = (run (login_answered o) s).0 in
      (after.loading ≡ false)
      × ((b : AdminStats)
          → o ≡ fulfilled b
          → (after.stored ≡ s.stored)
            × (after.route ≡ some "/admin/dashboard")
            × (after.error ≡ s.error))
      × (((b : AdminStats) → o ≢ fulfilled b)
          → (get_admin_token after.stored ≡ "")
            × (after.route ≡ s.route)
            × ((m : Phrase) × (after.error ≡ some m)))
unfolding login_answered
login_answered_lem (fulfilled v) s = (refl, (λ b h. (refl, refl, refl)), (λ n. absurd (n v refl)))
login_answered_lem (api_error status m) s = elim (Bool-cases (status == 401)) [
  | inl wrong ↦ (refl, (λ b h. cc), (λ n. (refl, refl, (say "admin.wrongToken" [], rw wrong refl))))
  | inr other ↦ (refl, (λ b h. cc), (λ n. (refl, refl, (m, rw other refl))))
]
login_answered_lem runtime_error s =
    (refl, (λ b h. cc), (λ n. (refl, refl, (say "admin.loginFailed" [], refl))))

not-is_401_of_Accepts : (e : Exchange AdminStats) (b : AdminStats) → Accepts e b → is_401 e ≡ false
not-is_401_of_Accepts rejected b h = refl
not-is_401_of_Accepts (answer status body) b h = ground arith

-- A sign-in that waits for its answer with the tried token stored: an answer in the 200s with its
-- JSON ends the loading, leaves the token in localStorage, and goes to the dashboard without an error
-- of its own.
pub stats_answered_ok :
    (e : Exchange AdminStats) (s : Login) (b : AdminStats)
    → Accepts e b
    → let after = (run (stats_answered e) s).0 in
      (after.loading ≡ false)
      × (after.stored ≡ s.stored)
      × (after.route ≡ some "/admin/dashboard")
      × (after.error ≡ s.error)
unfolding stats_answered
stats_answered_ok e s b h =
    let kept : Login = record s { stored = (receive e s.stored).0 } in
    let (ended, good, _) = login_answered_lem (receive e none).1 kept in
    let (same, there, quiet) = good b ((receive_lem e none b).1.1 h) in
    let answered =
      (receive_lem e s.stored b).0
      ∙ ap (λ (c : Bool). if c then none else s.stored) (not-is_401_of_Accepts e b h) in
    (ended, same ∙ answered, there, quiet)

-- A sign-in that waits for its answer: an exchange that is not an answer in the 200s with its JSON, a
-- failure of `fetch` included, ends the loading, leaves a token that counts as none, shows an error,
-- and stays on the page.
pub stats_answered_refused :
    (e : Exchange AdminStats) (s : Login)
    → ((b : AdminStats) → ¬ Accepts e b)
    → let after = (run (stats_answered e) s).0 in
      (after.loading ≡ false)
      × (get_admin_token after.stored ≡ "")
      × (after.route ≡ s.route)
      × ((m : Phrase) × (after.error ≡ some m))
unfolding stats_answered
stats_answered_refused e s refused =
    let kept : Login = record s { stored = (receive e s.stored).0 } in
    let (ended, _, bad) = login_answered_lem (receive e none).1 kept in
    let (token, there, shown) = bad (λ b h. refused b ((receive_lem e none b).1.0 h)) in
    (ended, token, there, shown)

-- The answer is JSON that does not say `initialized`, whatever its status.
abbrev pub is_unset : Exchange SetupStatus → Bool
is_unset rejected = false
is_unset (answer status none) = false
is_unset (answer status (some (setup, _))) = not setup.initialized

-- The layout redirects to the set-up page after such an answer; else from a page of the panel to the
-- sign-in, where the stored token is empty; and else it does not, and is ready.
unfoldable pub redirect : Bool → Bool → Bool → Option String
redirect unset is_login_page no_token =
    if unset then some "/setup" else if not is_login_page && no_token then some "/admin" else none

admit_lem :
    (is_login_page no_token : Bool) (s : Layout) (quiet : Layout)
    → quiet.ready ≡ s.ready
    → let r : Layout × Option String =
        if is_login_page
        then (record quiet { ready = true }, none)
        else if no_token
        then (quiet, some "/admin")
        else (record quiet { ready = true }, none) in
      (r.1 ≡ redirect false is_login_page no_token)
      × (r.0.ready ≡ (s.ready || (is_login_page || not no_token)))
unfolding redirect
admit_lem true no_token s quiet h = ground arith
admit_lem false true s quiet h = ground arith
admit_lem false false s quiet h = ground arith

-- The layout's effect, on every answer: it redirects to the set-up page exactly at JSON that does not say
-- `initialized`, else to the sign-in exactly from a page of the panel without a token; and the layout is
-- ready afterwards exactly if it was before or no redirect is made.
pub layout_gate_lem :
    (is_login_page : Bool) (e : Exchange SetupStatus) (stored : Stored) (s : Layout)
    → let no_token = is_empty (get_admin_token stored) in
      let (after, route) = layout_gate is_login_page e stored s in
      (route ≡ redirect (is_unset e) is_login_page no_token)
      × (after.ready ≡ (s.ready || (not (is_unset e) && (is_login_page || not no_token))))
unfolding layout_gate
layout_gate_lem is_login_page rejected stored s =
    admit_lem is_login_page (is_empty (get_admin_token stored)) s s refl
layout_gate_lem is_login_page (answer status none) stored s =
    admit_lem is_login_page (is_empty (get_admin_token stored)) s s refl
layout_gate_lem is_login_page (answer status (some (setup, d))) stored s =
    elim (Bool-cases setup.initialized) [
      | inl set ↦ rw set (
          admit_lem is_login_page (is_empty (get_admin_token stored)) s
            (record s { web_hostname = or_empty setup.web_hostname }) refl)
      | inr unset ↦ rw unset (unfold redirect in (refl, ground arith))
    ]

other_route : ¬ (◌≡◌ {A = Option String} (some "/admin") (some "/setup"))
other_route h = false_of ((eq_iff "/admin" "/setup").1 (ap or_empty h))

redirect-eq-setup_iff :
    (unset is_login_page no_token : Bool)
    → (redirect unset is_login_page no_token ≡ some "/setup") ↔ (unset ≡ true)
unfolding redirect
redirect-eq-setup_iff true l n = ((λ _. refl), (λ _. refl))
redirect-eq-setup_iff false true n = ((λ h. ground arith), (λ h. ground arith))
redirect-eq-setup_iff false false true = ((λ h. absurd (other_route h)), (λ h. ground arith))
redirect-eq-setup_iff false false false = ((λ h. ground arith), (λ h. ground arith))

-- The layout's `fetch` does not test the status: the layout goes to the set-up page exactly at an
-- answer of any status whose JSON does not say `initialized`, such as the error of a server that is up.
pub layout_gate-eq-setup_iff :
    (is_login_page : Bool) (e : Exchange SetupStatus) (stored : Stored) (s : Layout)
    → ((layout_gate is_login_page e stored s).1 ≡ some "/setup") ↔ (is_unset e ≡ true)
layout_gate-eq-setup_iff is_login_page e stored s =
    rw (layout_gate_lem is_login_page e stored s).0
      (redirect-eq-setup_iff (is_unset e) is_login_page (is_empty (get_admin_token stored)))
