-- ===== src/Home/Events/Stored.antt =====
-- The address that the page shows is the one in localStorage, under every interleaving.
use wgtemporary_email.Base.{
  false_of, sym, ◌∙◌, true, ℕ, String, ◌≡◌, refl, false, Option, none, some, List, [], ◌∷◌,
  Bool-cases, inl, inr, ◌==◌, ◌&&◌, same_bool,
}
use wgtemporary_email.Base.Task.{done, spawn, Waiting, run}
use wgtemporary_email.Base.Task.Schedule.{if-Keeps, run-Keeps, Reach-Keeps}
use wgtemporary_email.Api.{AddressResponse}
use wgtemporary_email.Page.{Ask, Answer, is_past}
use wgtemporary_email.Home.State.{Saved, entry, garbage, Page, commit, set_address}
use wgtemporary_email.Home.Handlers.{
  Job, created, create_new_address, fetch_emails, fetch_domains, init_inbox, domains_loaded,
}
use wgtemporary_email.Home.Keeping.{
  Ignores, JobKeeps, fetch_emails-Keeps, fetch_domains-Keeps, handle_email_click-Keeps,
  handle_delete_email-Keeps, handle_copy_address-Keeps, create_new_address-Keeps,
  refresh_tick-Keeps,
}
use wgtemporary_email.Home.Events.{edit_search, Starts, initial_view, initial, Reachable}

-- Where an address is shown, localStorage holds its JSON.
abbrev pub IsStored : Page → Type 0
IsStored p = elim p.view.address [ none ↦ Unit | some a ↦ p.saved ≡ some (entry a) ]

-- The invariant, where localStorage takes what is written.
abbrev IsKept : Page → Type 0
IsKept p = (p.can_store ≡ true) × IsStored p

domains_loaded-IsKept : (ds : List String) (p : Page) → IsKept p → IsKept (domains_loaded ds p)
domains_loaded-IsKept [] p h = h
domains_loaded-IsKept (d ∷ ds) p h = h

ignores : Ignores IsKept
ignores = record {
  loading = λ b p h. h;
  notice = λ n p h. h;
  copied = λ b p h. h;
  alerted = λ m p h. h;
  inbox = λ d p h. h;
  emails = λ es p h. h;
  selected = λ e p h. h;
  domains = domains_loaded-IsKept;
}

created-IsKept : (a : AddressResponse) (p : Page) → IsKept p → IsKept (created a (set_address a p))
unfolding created
created-IsKept a p h = (h.0, refl)

lost-IsKept :
    (a : AddressResponse) (p : Page) → IsKept p → p.can_store ≡ false → IsKept (set_address a p)
lost-IsKept a p h lost = absurd (false_of (sym lost ∙ h.0))

commit-IsKept : (p : Page) → IsKept p → IsKept (commit p)
unfolding commit
commit-IsKept p h =
    elim (Bool-cases (
      p.address_object == p.timer_object
      && same_bool p.view.auto_refresh p.timer_env.auto_refresh)) [
        | inl same ↦ rw same h
        | inr new ↦ rw new h
      ]

start-IsKept :
    (rounds : ℕ) (p : Page) (j : Job) → IsKept p → Starts rounds p j → JobKeeps IsKept j p
unfolding edit_search
start-IsKept rounds p j h (Starts.tick a _ _) =
    refresh_tick-Keeps IsKept ignores created-IsKept lost-IsKept rounds p.timer_env a p h
start-IsKept rounds p j h (Starts.refresh a _) =
    fetch_emails-Keeps IsKept ignores rounds p.view a.token false p h
start-IsKept rounds p j h (Starts.generate a _) =
    create_new_address-Keeps IsKept ignores created-IsKept lost-IsKept rounds p.view "" done p h
      (λ p' h'. h')
start-IsKept rounds p j h (Starts.click_email e) =
    handle_email_click-Keeps IsKept ignores rounds p.view e p h
start-IsKept rounds p j h (Starts.delete c d _) =
    handle_delete_email-Keeps IsKept ignores rounds p.view c d.id p h
start-IsKept rounds p j h Starts.copy_address =
    handle_copy_address-Keeps IsKept ignores rounds p.view p h
start-IsKept rounds p j h _ = h

spawn-domains :
    (j : Job) (p : Page) → JobKeeps IsKept j p → JobKeeps IsKept (spawn j fetch_domains) p
spawn-domains j p k = (k, fetch_domains-Keeps IsKept ignores (run j p).0 (run-Keeps IsKept j p k).0)

-- createNewAddress and fetchDomains, side by side.
fresh :
    (rounds now : ℕ) (old : String) (p : Page)
    → IsKept p
    → JobKeeps IsKept
        (spawn (create_new_address rounds (initial_view now) old done) fetch_domains)
        p
fresh rounds now old p h = spawn-domains (create_new_address rounds (initial_view now) old done) p (
    create_new_address-Keeps IsKept ignores created-IsKept lost-IsKept rounds (initial_view now) old
      done p h (λ p' h'. h'))

-- initInbox, and the two functions that it starts.
init-IsKept :
    (rounds : ℕ) (host : String) (saved : Option Saved) (now : ℕ)
    → JobKeeps IsKept (init_inbox rounds (initial_view now)) (initial host true saved now)
unfolding init_inbox
init-IsKept rounds host none now = fresh rounds now "" (initial host true none now) (refl, tt)
init-IsKept rounds host (some garbage) now =
    fresh rounds now "" (initial host true (some garbage) now) (refl, tt)
init-IsKept rounds host (some (entry a)) now =
    if-Keeps IsKept (is_past a.expires_at now) _ _ (initial host true (some (entry a)) now)
      (fresh rounds now a.email (initial host true none now) (refl, tt))
      (spawn-domains (fetch_emails rounds (initial_view now) a.token false) _ (
        fetch_emails-Keeps IsKept ignores rounds (initial_view now) a.token false
          (set_address a (initial host true (some (entry a)) now)) (refl, refl)))

-- If localStorage takes what is written: from the moment that initInbox has run, whatever was stored,
-- and whatever the order of the user's actions, the timer, the clock and the answers, if the page shows
-- an address, localStorage holds it.
pub Reachable-IsStored :
    (rounds : ℕ) (host : String) (saved : Option Saved) (now : ℕ) {p : Page}
    {ws : List (Waiting Page Ask Answer)}
    → Reachable rounds host true saved now p ws
    → IsStored p
Reachable-IsStored rounds host saved now reached =
    let (shown, waiting) =
      run-Keeps IsKept (init_inbox rounds (initial_view now)) (initial host true saved now)
        (init-IsKept rounds host saved now) in
    (Reach-Keeps IsKept commit-IsKept (start-IsKept rounds) (commit-IsKept _ shown) waiting
      reached).0.1
