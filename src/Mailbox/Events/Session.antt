-- ===== src/Mailbox/Events/Session.antt =====
-- The session that the page shows is the one in localStorage, under every interleaving.
use wgtemporary_email.Base.{
  ℕ, Bool, true, false, Option, List, if◌then◌else◌, str_eq, same_bool, ◌&&◌,
}
use wgtemporary_email.Base.Task.{Waiting}
use wgtemporary_email.Base.Task.Schedule.{run-Keeps, Reach-Keeps}
use wgtemporary_email.Page.{Ask, Answer}
use wgtemporary_email.Mailbox.State.{Saved, Box, set_view, logout, commit}
use wgtemporary_email.Mailbox.Handlers.{Job, copy_text, open_mailbox}
use wgtemporary_email.Mailbox.Keeping.{
  IsSession, JobKeeps, fetch_emails-Keeps, open_mailbox-Keeps, handle_create-Keeps,
  handle_login-Keeps, copied-Keeps, handle_email_click-Keeps, handle_delete-Keeps,
}
use wgtemporary_email.Mailbox.Events.{Edit, edited, Starts, Reachable, first_box}

edited-IsSession :
    (e : Edit) (p : Box) → IsSession p → IsSession (record p { view = edited e p.view })
unfolding edited
edited-IsSession (Edit.username s) p h = h
edited-IsSession (Edit.domain s) p h = h
edited-IsSession (Edit.login_token s) p h = h
edited-IsSession (Edit.search s) p h = h
edited-IsSession Edit.auto_refresh p h = h
edited-IsSession Edit.show_token p h = h
edited-IsSession (Edit.view_mode m) p h = h

start-IsSession : (p : Box) (j : Job) → IsSession p → Starts p j → JobKeeps j p
unfolding logout copy_text
start-IsSession p j h (Starts.tick _ _) =
    fetch_emails-Keeps p.timer.token p.timer.search_query true p h
start-IsSession p j h (Starts.refresh _) =
    fetch_emails-Keeps p.view.token p.view.search_query false p h
start-IsSession p j h (Starts.clear_search _) =
    fetch_emails-Keeps p.view.token "" false (set_view (record (p.view) { search_query = "" }) p) h
start-IsSession p j h Starts.create = handle_create-Keeps p.view p h
start-IsSession p j h Starts.login = handle_login-Keeps p.view p h
start-IsSession p j h Starts.leave = tt
start-IsSession p j h (Starts.click e) = handle_email_click-Keeps p.view e p h
start-IsSession p j h (Starts.delete c id) = handle_delete-Keeps p.view c id p h
start-IsSession p j h (Starts.copy value) = (h, λ b p' h'. copied-Keeps b p' h')
start-IsSession p j h Starts.close = h
start-IsSession p j h (Starts.edit e) = edited-IsSession e p h
start-IsSession p j h (Starts.wait ms) = h

committed-IsSession :
    (b : Bool) (p : Box) → IsSession p → IsSession (if b then p else record p { timer = p.view })
committed-IsSession true p h = h
committed-IsSession false p h = h

commit-IsSession : (p : Box) → IsSession p → IsSession (commit p)
unfolding commit
commit-IsSession p h =
    committed-IsSession
      (str_eq p.view.token p.timer.token
        && same_bool p.view.auto_refresh p.timer.auto_refresh
        && str_eq p.view.search_query p.timer.search_query)
      p h

-- Whatever is stored when the page opens, and whatever the order of the user's actions, the timer, the
-- clock and the answers: if the page shows a token, localStorage holds it with the shown address.
pub Reachable-IsSession :
    (saved : Option Saved) (now : ℕ) {p : Box} {ws : List (Waiting Box Ask Answer)}
    → Reachable saved now p ws
    → IsSession p
Reachable-IsSession saved now reached =
    let (shown, waiting) =
      run-Keeps IsSession open_mailbox (first_box saved now)
        (open_mailbox-Keeps (first_box saved now) tt) in
    (Reach-Keeps IsSession commit-IsSession start-IsSession (commit-IsSession _ shown) waiting
      reached).0
