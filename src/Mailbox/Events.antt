-- ===== src/Mailbox/Events.antt =====
-- web/app/mailbox/page.tsx: what can start a task once the page is open, and the pages that come of
-- it. The interval runs the closure of the render for which it was set.
pub mod Session
use wgtemporary_email.Base.{
  ℕ, String, ◌≡◌, Bool, true, false, not, Option, none, some, List, [], ◌+◌,
}
use wgtemporary_email.Base.Text.{is_empty}
use wgtemporary_email.Base.Task.{done, update, run, Waiting}
use wgtemporary_email.Base.Task.Schedule.{Reach}
use wgtemporary_email.Api.{EmailSummary}
use wgtemporary_email.Page.{Ask, Answer, ViewMode, html}
use wgtemporary_email.Mailbox.State.{Mailbox, Saved, Box, set_view, set_detail, logout, commit}
use wgtemporary_email.Mailbox.Handlers.{
  Job, fetch_emails, open_mailbox, handle_create, handle_login, copy_text, handle_email_click,
  handle_delete,
}

-- The callback of the interval.
abbrev pub refresh_tick : Mailbox → Job
refresh_tick env = fetch_emails env.token env.search_query true

-- The writes of the fields and switches.
pub data Edit : Type 0 where
  username domain login_token search : String → Edit
  auto_refresh show_token : Edit
  view_mode : ViewMode → Edit

unfoldable pub edited : Edit → Mailbox → Mailbox
edited (username s) v = record v { username = s }
edited (domain s) v = record v { selected_domain = s }
edited (login_token s) v = record v { login_token = s }
edited (search s) v = record v { search_query = s }
edited auto_refresh v = record v { auto_refresh = not v.auto_refresh }
edited show_token v = record v { show_token = not v.show_token }
edited (view_mode m) v = record v { view_mode = m }

pub data Starts (p : Box) : Job → Type 0 where
  tick :
      is_empty p.timer.token ≡ false → p.timer.auto_refresh ≡ true → Starts p (refresh_tick p.timer)
  -- the button, and Enter in the search field
  refresh :
      is_empty p.view.token ≡ false → Starts p (fetch_emails p.view.token p.view.search_query false)
  clear_search :
      is_empty p.view.token ≡ false
      → Starts p (
          update
            (λ p. set_view (record (p.view) { search_query = "" }) p)
            (fetch_emails p.view.token "" false))
  create : Starts p (handle_create p.view)
  login : Starts p (handle_login p.view)
  leave : Starts p (update logout done)
  click : (e : EmailSummary) → Starts p (handle_email_click p.view e)
  delete : (confirmed : Bool) (id : String) → Starts p (handle_delete p.view confirmed id)
  copy : (value : String) → Starts p (copy_text value)
  close : Starts p (update (set_detail none) done)
  edit : (e : Edit) → Starts p (update (λ p. set_view (edited e p.view) p) done)
  wait : (ms : ℕ) → Starts p (update (λ p. record p { now = p.now + ms }) done)

-- The page before its first effect.
abbrev pub first_view : ℕ → Mailbox
first_view now = record {
  email = "";
  token = "";
  domains = [];
  selected_domain = "";
  username = "";
  login_token = "";
  created = none;
  show_token = false;
  busy = false;
  error = none;
  copied = false;
  emails = [];
  loading_emails = false;
  detail = none;
  search_query = "";
  auto_refresh = true;
  last_refresh = now;
  view_mode = html;
  retention_days = 30;
  web_hostname = "";
  mounted = false;
}

abbrev pub first_box : Option Saved → ℕ → Box
first_box saved now = record {
  view = first_view now;
  saved = saved;
  now = now;
  route = none;
  timer = first_view now;
}

-- The page and what waits once its first effect has run, with localStorage and the clock as they
-- were.
abbrev pub after_open : Option Saved → ℕ → Box × List (Waiting Box Ask Answer)
after_open saved now = run open_mailbox (first_box saved now)

abbrev pub Reachable : Option Saved → ℕ → Box → List (Waiting Box Ask Answer) → Type 0
Reachable saved now = Reach Starts commit (commit (after_open saved now).0) (after_open saved now).1
