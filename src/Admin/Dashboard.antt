-- ===== src/Admin/Dashboard.antt =====
-- web/app/admin/dashboard/page.tsx: the three requests of the dashboard, which are made at once, and what
-- it shows once all are fulfilled, or one is not.
pub mod Joined
use wgtemporary_email.Base.{
  ℕ, String, ◌+◌, Bool, true, false, Option, none, some, List, [], ◌∷◌, ltb, if◌then◌else◌,
}
use wgtemporary_email.Base.Text.{show}
use wgtemporary_email.Base.Task.{done, spawn, inspect}
use wgtemporary_email.Page.{Phrase, say, plain}
use wgtemporary_email.Admin.Types.{
  AdminStats, AdminEmailList, AdminEmailSummary, AdminAddressList, AdminAddressSummary,
}
use wgtemporary_email.Admin.Client.{Outcome, fulfilled, api_error, runtime_error}
use wgtemporary_email.Admin.Requests.{Paging, get_stats, list_emails, list_addresses}
use wgtemporary_email.Admin.Panel.{PanelJob, set, ask}

-- The `useState` variables, and the promise of `Promise.all`: the values that came, and whether it is
-- settled.
pub record View : Type 0 where
  pub stats : Option AdminStats
  pub recent_emails : List AdminEmailSummary
  pub recent_addresses : List AdminAddressSummary
  pub error : Option Phrase
  pub got_stats : Option AdminStats
  pub got_emails : Option AdminEmailList
  pub got_addresses : Option AdminAddressList
  pub settled : Bool

abbrev pub Job : Type 0
Job = PanelJob View

-- The continuation of `Promise.all`, once all three values came.
abbrev pub show_all : AdminStats → AdminEmailList → AdminAddressList → View → View
show_all s es as_ v = record v {
  stats = some s;
  recent_emails = es.items;
  recent_addresses = as_.items;
  settled = true;
}

abbrev pub join_from :
    Option AdminStats → Option AdminEmailList → Option AdminAddressList → View → View
join_from (some s) (some es) (some as_) v = show_all s es as_ v
join_from _ _ _ v = v

-- A promise that settled does nothing more.
unfoldable pub join : View → View
join v = if v.settled then v else join_from v.got_stats v.got_emails v.got_addresses v

abbrev pub reject : Phrase → View → View
reject m v = if v.settled then v else record v { error = some m; settled = true }

-- One of the three: its value is kept, or its error ends all.
unfoldable pub came : {B : Type 0} → (B → View → View) → Outcome B → View → View
unfolding join
came keep (fulfilled b) v = join (keep b v)
came keep (api_error _ m) v = reject m v
came keep runtime_error v = reject (plain "admin.loadFailed") v

abbrev pub keep_stats : AdminStats → View → View
keep_stats s v = record v { got_stats = some s }

abbrev pub keep_emails : AdminEmailList → View → View
keep_emails l v = record v { got_emails = some l }

abbrev pub keep_addresses : AdminAddressList → View → View
keep_addresses l v = record v { got_addresses = some l }

abbrev first_five : Paging
first_five = record { page = some 1; per_page = some 5; search = none }

-- The effect that runs when the page opens.
unfoldable pub opened : Job
unfolding came
opened = spawn (ask get_stats (λ o. set (came keep_stats o) done)) (
    spawn (ask (list_emails first_five) (λ o. set (came keep_emails o) done))
      (spawn (ask (list_addresses first_five) (λ o. set (came keep_addresses o) done)) done))

-- A card: its label, the number or the formatted text it shows, and the line under it.
pub data Figure : Type 0 where
  count bytes uptime : ℕ → Figure

pub record Card : Type 0 where
  pub label : Phrase
  pub value : Figure
  pub sub : Phrase

abbrev card : String → Figure → Phrase → Card
card label value sub = record { label = plain label; value = value; sub = sub }

abbrev with_n : String → ℕ → Phrase
with_n key n = say key (("n", show n) ∷ [])

-- `cards`
unfoldable pub cards : Option AdminStats → List Card
unfolding show
cards none = []
cards (some s) =
    card "admin.activeAddresses" (count s.active_addresses)
      (with_n "admin.totalAddressesSub" s.total_addresses)
    ∷ card "admin.totalEmails" (count s.total_emails) (with_n "admin.unreadSub" s.unread_emails)
    ∷ card "admin.emails24h" (count s.emails_24h) (Phrase.verbatim "")
    ∷ card "admin.attachmentsTotal" (count s.total_attachments) (Phrase.verbatim "")
    ∷ card "admin.storageUsage" (bytes (s.email_size_bytes + s.attachment_size_bytes)) (
        if ltb 0 s.max_storage_mb
        then with_n "admin.storageCap" s.max_storage_mb
        else plain "admin.storageNoCap")
    ∷ card "admin.uptime" (uptime s.uptime_seconds)
        (with_n "admin.lifetimeSub" s.address_lifetime_hours)
    ∷ []
