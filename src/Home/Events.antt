-- ===== src/Home/Events.antt =====
-- web/app/page.tsx: what can start a task once the inbox is initialised, and the pages that come
-- of it. A control's handler is that of the page's last render; the interval runs the closure of the
-- render for which it was set. The button that deletes stands beside the email that is read. The control to generate an address shows only beside an address.
pub mod Stored
use wgtemporary_email.Base.{
  ℕ, String, ◌≡◌, Bool, true, false, not, Option, none, some, List, [], ◌+◌,
}
use wgtemporary_email.Base.Task.{done, update, run, Waiting}
use wgtemporary_email.Base.Task.Schedule.{Reach}
use wgtemporary_email.Api.{AddressResponse, EmailSummary, EmailDetail}
use wgtemporary_email.Page.{Ask, Answer, ViewMode, html}
use wgtemporary_email.Home.State.{View, Saved, Page, set_notice, commit}
use wgtemporary_email.Home.Handlers.{
  Job, create_new_address, fetch_emails, init_inbox, refresh_tick, handle_email_click,
  handle_delete_email, handle_copy_address,
}

-- `setSearchQuery`, typed or cleared
unfoldable pub edit_search : String → Job
edit_search s = update (λ p. record p { view = record (p.view) { search_query = s } }) done

abbrev edit_username : String → Job
edit_username s = update (λ p. record p { view = record (p.view) { custom_username = s } }) done

abbrev choose_domain : String → Job
choose_domain s = update (λ p. record p { view = record (p.view) { selected_domain = s } }) done

abbrev toggle_auto_refresh : View → Job
toggle_auto_refresh env =
    update (λ p. record p { view = record (p.view) { auto_refresh = not env.auto_refresh } }) done

abbrev choose_view : ViewMode → Job
choose_view m = update (λ p. record p { view = record (p.view) { view_mode = m } }) done

abbrev show_dialog : Bool → Job
show_dialog b = update (λ p. record p { view = record (p.view) { show_new_email_dialog = b } }) done

-- The clock goes on by `ms`.
abbrev pass_time : ℕ → Job
pass_time ms = update (λ p. record p { now = p.now + ms }) done

pub data Starts (rounds : ℕ) (p : Page) : Job → Type 0 where
  tick :
      (a : AddressResponse)
      → p.timer_env.address ≡ some a
      → p.timer_env.auto_refresh ≡ true
      → Starts rounds p (refresh_tick rounds p.timer_env a)
  -- the button, and Enter in the search field
  refresh :
      (a : AddressResponse)
      → p.view.address ≡ some a
      → Starts rounds p (fetch_emails rounds p.view a.token false)
  generate :
      (a : AddressResponse)
      → p.view.address ≡ some a
      → Starts rounds p (create_new_address rounds p.view "" done)
  click_email : (e : EmailSummary) → Starts rounds p (handle_email_click rounds p.view e)
  delete :
      (confirmed : Bool) (d : EmailDetail)
      → p.view.selected_email ≡ some d
      → Starts rounds p (handle_delete_email rounds p.view confirmed d.id)
  copy_address : Starts rounds p (handle_copy_address rounds p.view)
  search : (s : String) → Starts rounds p (edit_search s)
  username : (s : String) → Starts rounds p (edit_username s)
  domain : (s : String) → Starts rounds p (choose_domain s)
  auto : Starts rounds p (toggle_auto_refresh p.view)
  view : (m : ViewMode) → Starts rounds p (choose_view m)
  dialog : (b : Bool) → Starts rounds p (show_dialog b)
  dismiss : Starts rounds p (update (set_notice none) done)
  wait : (ms : ℕ) → Starts rounds p (pass_time ms)

-- The page before its first effect.
abbrev pub initial_view : ℕ → View
initial_view now = record {
  address = none;
  emails = [];
  selected_email = none;
  loading = false;
  search_query = "";
  copied = false;
  custom_username = "";
  selected_domain = "";
  domains = [];
  auto_refresh = true;
  last_refresh = now;
  view_mode = html;
  show_new_email_dialog = false;
  web_hostname = "";
  notice = none;
}

-- The page when initInbox starts: the setup status has been read, with the host name in it; `works`
-- says whether `setItem` does.
abbrev pub initial : String → Bool → Option Saved → ℕ → Page
initial host works saved now = record {
  view = let v : View = initial_view now in record v { web_hostname = host };
  address_object = 0;
  saved = saved;
  can_store = works;
  now = now;
  alerts = [];
  route = none;
  timer_env = initial_view now;
  timer_object = 0;
}

-- The page and what waits once initInbox has run, with localStorage and the clock as they were.
abbrev pub after_init : ℕ → String → Bool → Option Saved → ℕ → Page × List (Waiting Page Ask Answer)
after_init rounds host works saved now =
    run (init_inbox rounds (initial_view now)) (initial host works saved now)

-- The pages that the user, the clock and the server's answers lead to.
abbrev pub Reachable :
    ℕ → String → Bool → Option Saved → ℕ → Page → List (Waiting Page Ask Answer) → Type 0
Reachable rounds host works saved now =
    Reach (Starts rounds) commit (commit (after_init rounds host works saved now).0)
      (after_init rounds host works saved now).1
