-- ===== src/Admin/Mailboxes/Kept.antt =====
-- web/app/admin/mailboxes/page.tsx: creating a mailbox.
use wgtemporary_email.Base.{◌≡◌, refl, false, some, none, [], ◌∷◌, Bool-cases, inl, inr}
use wgtemporary_email.Base.Text.{is_empty, or_none, trim}
use wgtemporary_email.Base.Task.{run, asks}
use wgtemporary_email.Base.Task.Ends.{Ends}
use wgtemporary_email.Admin.Types.{AdminPermanentCreated}
use wgtemporary_email.Admin.Client.{Outcome, fulfilled, api_error, runtime_error, receive}
use wgtemporary_email.Admin.Requests.{get_permanent_stats, list_permanent_addresses}
use wgtemporary_email.Admin.Panel.{Panel, net}
use wgtemporary_email.Admin.Mailboxes.{
  View, handle_create, create_answered, reload, fetch_stats, fetch_list,
}

abbrev pub IsIdle : Panel View → Type 0
IsIdle s = s.view.busy ≡ false

create_answered-Ends :
    (env : View) (o : Outcome AdminPermanentCreated) (s : Panel View)
    → Ends 0 IsIdle (create_answered env o) s
unfolding create_answered reload
create_answered-Ends env (fulfilled c) s = refl
create_answered-Ends env (api_error _ m) s = refl
create_answered-Ends env runtime_error s = refl

-- Creating a mailbox, which starts while the page is not busy, ends, whatever the server answers and else
-- happens to the page meanwhile: it waits for at most one answer, and then the page is not busy.
pub handle_create-Ends :
    (env : View) (s : Panel View) → IsIdle s → Ends 1 IsIdle (handle_create env) s
unfolding handle_create
handle_create-Ends env s idle = elim (Bool-cases (is_empty (trim env.username))) [
  | inl blank ↦ rw blank idle
  | inr named ↦ rw named (λ e s'. create_answered-Ends env (receive e none).1 _)
]

-- The answer with a new mailbox asks for the first page of the search, and shows the mailbox, but leaves
-- the number of the page that the buttons count from: on a later page, the list that comes is the first
-- one while the buttons lead on from the later one.
pub create_answered-page :
    (env : View) (c : AdminPermanentCreated) (s : Panel View)
    → let after = run (create_answered env (fulfilled c)) s in
      (asks after.1
        ≡ net get_permanent_stats
          ∷ net (
              list_permanent_addresses
                (record { page = some 1; per_page = some 20; search = or_none env.search })
                none)
          ∷ [])
      × (after.0.view.page ≡ s.view.page)
      × (after.0.view.created ≡ some c)
unfolding create_answered reload fetch_stats fetch_list
create_answered-page env c s = (refl, refl, refl)
