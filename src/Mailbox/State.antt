-- ===== src/Mailbox/State.antt =====
-- web/app/mailbox/page.tsx: the state of the page, the stored session, and the interval.
use wgtemporary_email.Base.{
  ℕ, String, Bool, ◌&&◌, Option, none, some, List, [], if◌then◌else◌, str_eq, same_bool,
}
use wgtemporary_email.Api.{EmailSummary, EmailDetail, EmailListResponse}
use wgtemporary_email.Page.{Phrase, ViewMode}

pub record Session : Type 0 where
  pub email : String
  pub token : String

-- The component's `useState` variables. No error is `none`, "" in the source.
pub record Mailbox : Type 0 where
  pub email : String
  pub token : String
  pub domains : List String
  pub selected_domain : String
  pub username : String
  pub login_token : String
  pub created : Option Session
  pub show_token : Bool
  pub busy : Bool
  pub error : Option Phrase
  pub copied : Bool
  pub emails : List EmailSummary
  pub loading_emails : Bool
  pub detail : Option EmailDetail
  pub search_query : String
  pub auto_refresh : Bool
  pub last_refresh : ℕ
  pub view_mode : ViewMode
  pub retention_days : ℕ
  pub web_hostname : String
  pub mounted : Bool

-- The text under "wgtempemail_permanent" in localStorage: the JSON of a session, or one that
-- `JSON.parse` refuses.
pub data Saved : Type 0 where
  session : Session → Saved
  garbage : Saved

-- The component with localStorage, the clock and the route; `timer` is the render whose closure the
-- interval runs.
pub record Box : Type 0 where
  pub view : Mailbox
  pub saved : Option Saved
  pub now : ℕ
  pub route : Option String
  pub timer : Mailbox

abbrev pub set_view : Mailbox → Box → Box
set_view v p = record p { view = v }

abbrev pub set_error : Option Phrase → Box → Box
set_error e p = set_view (record (p.view) { error = e }) p

abbrev pub set_busy : Bool → Box → Box
set_busy b p = set_view (record (p.view) { busy = b }) p

abbrev pub set_loading_emails : Bool → Box → Box
set_loading_emails b p = set_view (record (p.view) { loading_emails = b }) p

abbrev pub set_copied : Bool → Box → Box
set_copied b p = set_view (record (p.view) { copied = b }) p

abbrev pub set_emails : List EmailSummary → Box → Box
set_emails es p = set_view (record (p.view) { emails = es }) p

abbrev pub set_detail : Option EmailDetail → Box → Box
set_detail d p = set_view (record (p.view) { detail = d }) p

-- `setEmail(email); setToken(token)`
abbrev pub show_session : Session → Box → Box
show_session s p = set_view (record (p.view) { email = s.email; token = s.token }) p

-- `saveSession`
unfoldable pub save_session : Session → Box → Box
save_session s p = show_session s (record p { saved = some (session s) })

-- `logout`
unfoldable pub logout : Box → Box
logout p = record p {
  view = record (p.view) { email = ""; token = ""; emails = []; detail = none; created = none };
  saved = none;
}

-- The writes of fetchEmails once the list has come.
abbrev pub emails_loaded : EmailListResponse → Box → Box
emails_loaded d p = set_view (record (p.view) { emails = d.emails; last_refresh = p.now }) p

-- The effect of the interval, after a render: with another token, switch or search it is set again,
-- with this render's closure.
unfoldable pub commit : Box → Box
commit p =
    if str_eq p.view.token p.timer.token
      && same_bool p.view.auto_refresh p.timer.auto_refresh
      && str_eq p.view.search_query p.timer.search_query
    then p
    else record p { timer = p.view }
