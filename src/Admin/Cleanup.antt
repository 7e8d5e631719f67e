-- ===== src/Admin/Cleanup.antt =====
-- web/app/admin/cleanup/page.tsx: a run of the cleanup, and the list of what cleans up by itself.
use wgtemporary_email.Base.{
  ℕ, String, ◌≡◌, refl, Bool, true, false, Option, none, some, List, [], ◌∷◌,
}
use wgtemporary_email.Base.Text.{show}
use wgtemporary_email.Base.Task.{done}
use wgtemporary_email.Base.Task.Ends.{Ends}
use wgtemporary_email.Page.{Phrase, say, plain}
use wgtemporary_email.Admin.Types.{AdminStats, CleanupResult}
use wgtemporary_email.Admin.Client.{Outcome, fulfilled, api_error, runtime_error, receive}
use wgtemporary_email.Admin.Requests.{get_stats, run_cleanup}
use wgtemporary_email.Admin.Panel.{Panel, PanelJob, set, ask}

-- What a run shows; `at` is the text of its time.
pub record Shown : Type 0 where
  pub deleted : ℕ
  pub emails : ℕ
  pub retention : ℕ
  pub before : ℕ
  pub after : ℕ
  pub at_time : String

-- The `useState` variables, and the text of the present time, `new Date().toLocaleString()`.
pub record View : Type 0 where
  pub stats : Option AdminStats
  pub running : Bool
  pub result : Option Shown
  pub error : Option Phrase
  pub now_text : String

abbrev pub Job : Type 0
Job = PanelJob View

unfoldable pub stats_answered : Job → Outcome AdminStats → Job
stats_answered t (fulfilled st) = set (λ v. record v { stats = some st }) t
stats_answered t (api_error _ m) = set (λ v. record v { error = some m }) t
stats_answered t runtime_error = t

-- `fetchStats`, and what follows when it was awaited; the effect that runs when the page opens calls it.
unfoldable pub fetch_stats : Job → Job
unfolding stats_answered
fetch_stats t = ask get_stats (stats_answered t)

abbrev stop : Job
stop = set (λ v. record v { running = false }) done

abbrev shown : CleanupResult → String → Shown
shown r now = record {
  deleted = r.deleted_addresses;
  emails = r.deleted_emails;
  retention = r.retention_deleted_emails;
  before = r.storage_bytes_before;
  after = r.storage_bytes_after;
  at_time = now;
}

unfoldable pub run_answered : Outcome CleanupResult → Job
unfolding fetch_stats
run_answered (fulfilled r) =
    set (λ v. record v { result = some (shown r v.now_text) }) (fetch_stats stop)
run_answered (api_error _ m) = set (λ v. record v { error = some m }) stop
run_answered runtime_error = set (λ v. record v { error = some (plain "admin.cleanupFailed") }) stop

-- `handleRun`, with the answer to its `confirm`
unfoldable pub handle_run : Bool → Job
unfolding run_answered
handle_run false = done
handle_run true =
    set (λ v. record v { running = true })
      (set (λ v. record v { error = none })
        (set (λ v. record v { result = none }) (ask run_cleanup run_answered)))

-- `stats?.field ?? fallback`, as the text that `t` shows
abbrev stat : (AdminStats → ℕ) → String → Option AdminStats → String
stat field fallback none = fallback
stat field fallback (some st) = show (field st)

-- The texts of `autoItems`
unfoldable pub auto_items : Option AdminStats → List Phrase
unfolding show
auto_items st =
    say "admin.autoCleanupMail" (
      ("h", stat (λ s. s.cleanup_interval_hours) "-" st)
      ∷ ("m", stat (λ s. s.max_storage_mb) "-" st)
      ∷ [])
    ∷ plain "admin.autoCleanupLogs"
    ∷ say "admin.autoCleanupRetention"
        (("d", stat (λ s. s.permanent_email_retention_days) "30" st) ∷ [])
    ∷ plain "admin.autoCleanupBuild"
    ∷ plain "admin.autoCleanupApt"
    ∷ plain "admin.autoCleanupJournald"
    ∷ []

abbrev pub IsStopped : Panel View → Type 0
IsStopped s = s.view.running ≡ false

stats_answered-Ends :
    (o : Outcome AdminStats) (s : Panel View) → Ends 0 IsStopped (stats_answered stop o) s
unfolding stats_answered
stats_answered-Ends (fulfilled st) s = refl
stats_answered-Ends (api_error _ m) s = refl
stats_answered-Ends runtime_error s = refl

run_answered-Ends :
    (o : Outcome CleanupResult) (s : Panel View) → Ends 1 IsStopped (run_answered o) s
unfolding run_answered fetch_stats
run_answered-Ends (fulfilled r) s = λ e s'. stats_answered-Ends (receive e none).1 _
run_answered-Ends (api_error _ m) s = refl
run_answered-Ends runtime_error s = refl

-- A run of the cleanup that the user agreed to ends, whatever the server answers and else happens to the
-- page meanwhile: it waits for at most two answers, and then no run is marked.
pub handle_run-Ends : (s : Panel View) → Ends 2 IsStopped (handle_run true) s
unfolding handle_run
handle_run-Ends s = λ e s'. run_answered-Ends (receive e none).1 _
