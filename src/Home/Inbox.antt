-- ===== src/Home/Inbox.antt =====
-- web/app/page.tsx: what reading and deleting an email do to the list that is shown.
use wgtemporary_email.Base.{
  map, ℕ, String, ◌≡◌, refl, ap, ◌∙◌, Bool, true, false, not, some, List, [], ◌∷◌, arith, any,
  filter, str_eq, eq_iff, if◌then◌else◌,
}
use wgtemporary_email.Base.Task.{run}
use wgtemporary_email.Api.{EmailSummary, EmailDetail, ok}
use wgtemporary_email.Page.{mark_read}
use wgtemporary_email.Home.State.{View, Page}
use wgtemporary_email.Home.Handlers.{email_deleted, email_answered, delete_answered}

-- An email with the id is in the list.
abbrev pub has_id : String → List EmailSummary → Bool
has_id id es = any (λ e. str_eq e.id id) es

-- The emails with the id, in their order.
abbrev pub with_id : String → List EmailSummary → List EmailSummary
with_id id es = filter (λ e. str_eq e.id id) es

abbrev pub read : EmailSummary → EmailSummary
read e = record e { is_read = true }

has_id-filter :
    (id j : String) (es : List EmailSummary)
    → has_id j (filter (λ e. not (str_eq e.id id)) es)
      ≡ (if str_eq j id then false else has_id j es)
has_id-filter id j [] = ground arith
has_id-filter id j (e ∷ es) =
    ground (arith, has_id-filter id j es, eq_iff e.id id, eq_iff e.id j, eq_iff j id)

with_id-mark_read :
    (id j : String) (es : List EmailSummary)
    → with_id j (mark_read id es) ≡ (if str_eq id j then map read (with_id j es) else with_id j es)
unfolding mark_read
with_id-mark_read id j [] = ground arith
with_id-mark_read id j (e ∷ es) =
    ground (arith, with_id-mark_read id j es, eq_iff e.id id, eq_iff e.id j, eq_iff id j)

ids-mark_read :
    (id : String) (es : List EmailSummary) → map (λ e. e.id) (mark_read id es) ≡ map (λ e. e.id) es
unfolding mark_read
ids-mark_read id [] = refl
ids-mark_read id (e ∷ es) = ground (arith, ids-mark_read id es)

emails-email_deleted :
    (env : View) (id : String) (p : Page)
    → (email_deleted env id p).view.emails ≡ filter (λ e. not (str_eq e.id id)) env.emails
unfolding email_deleted
emails-email_deleted env id p = ground arith

module _ (rounds : ℕ) (env : View) (token : String) where
  -- Once a delete has succeeded, no shown email has the id, and each other id is shown exactly if the
  -- render in which the user asked for the delete showed it.
  pub delete_answered_ok :
      (id j : String) (p : Page)
      → has_id j (run (delete_answered rounds env token id (ok tt)) p).0.view.emails
        ≡ (if str_eq j id then false else has_id j env.emails)
  unfolding delete_answered
  delete_answered_ok id j p =
      ap (has_id j) (emails-email_deleted env id p) ∙ has_id-filter id j env.emails

  -- The answer to the opening of an email shows it and ends the loading. The list becomes that of the
  -- render in which it was opened, whatever was loaded since: in its order, with all emails that have
  -- the id marked as read, and those that have another id as they were.
  pub email_answered_ok :
      (id j : String) (detail : EmailDetail) (p : Page)
      → let after = (run (email_answered rounds env token id (ok detail)) p).0.view in
        (after.selected_email ≡ some detail)
        × (after.loading ≡ false)
        × (map (λ e. e.id) after.emails ≡ map (λ e. e.id) env.emails)
        × (with_id j after.emails
            ≡ (if str_eq id j then map read (with_id j env.emails) else with_id j env.emails))
  unfolding email_answered
  email_answered_ok id j detail p =
      (refl, refl, ids-mark_read id env.emails, with_id-mark_read id j env.emails)
