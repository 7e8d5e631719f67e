-- ===== src/Admin/Config/Ending.antt =====
-- web/app/admin/config/page.tsx: the handlers come to their end, and lower their flags.
use wgtemporary_email.Base.{
  ℕ, zero, suc, String, ◌≡◌, refl, Bool, true, false, Option, none, some, Bool-cases, Option-cases,
  inl, inr, if◌then◌else◌, not, [], ◌∷◌,
}
use wgtemporary_email.Base.Text.{is_empty, trim}
use wgtemporary_email.Base.Task.{done}
use wgtemporary_email.Base.Task.Ends.{Ends, if-Ends}
use wgtemporary_email.Page.{plain}
use wgtemporary_email.Admin.Types.{TlsStatus, JobResult}
use wgtemporary_email.Admin.Client.{Outcome, fulfilled, api_error, runtime_error, receive}
use wgtemporary_email.Admin.Requests.{SavedConfig}
use wgtemporary_email.Admin.Panel.{Panel, set}
use wgtemporary_email.Admin.Config.Fields.{Config, allow_origins}
use wgtemporary_email.Admin.Config.Patch.{Step, patched, refused, thrown, token_changed}
use wgtemporary_email.Admin.Config.Handlers.{
  View, Job, handle_issue_cert, issue_answered, poll, polled, job_ended, job_ok, handle_save, send,
  save_answered, fetch_config, config_answered,
}

-- The answers that the loop waits for in so many rounds: a timeout and a status each.
abbrev pub awaited : ℕ → ℕ
awaited zero = zero
awaited (suc rounds) = suc (suc (awaited rounds))

abbrev pub IsFree : Panel View → Type 0
IsFree s = s.view.tls_busy ≡ false

job_ended-Ends : (r : Option JobResult) (n : ℕ) (s : Panel View) → Ends n IsFree (job_ended r) s
unfolding job_ended
job_ended-Ends r n s = if-Ends (job_ok r) n IsFree _ _ s refl refl

polled-Ends :
    (n : ℕ) (rest : Job) (o : Outcome TlsStatus) (s : Panel View)
    → ((s' : Panel View) → Ends n IsFree rest s')
    → Ends n IsFree (polled rest o) s
unfolding polled
polled-Ends n rest (fulfilled st) s h =
    if-Ends (not st.job_pending) n IsFree _ _ _ (job_ended-Ends st.job_result n _) (h _)
polled-Ends n rest (api_error _ m) s h = refl
polled-Ends n rest runtime_error s h = refl

poll-Ends : (rounds : ℕ) (s : Panel View) → Ends (awaited rounds) IsFree (poll rounds) s
unfolding poll
poll-Ends zero s = refl
poll-Ends (suc rounds) s =
    λ _ _ e s'. polled-Ends (awaited rounds) (poll rounds) (receive e none).1 _ (poll-Ends rounds)

issue_answered-Ends :
    (o : Outcome (Bool × String)) (s : Panel View) → Ends 72 IsFree (issue_answered o) s
unfolding issue_answered
issue_answered-Ends (fulfilled _) s =
    poll-Ends 36
      (record s { view = record s.view { tls_notice = some (plain "admin.tlsIssueSubmitted") } })
issue_answered-Ends (api_error _ m) s = refl
issue_answered-Ends runtime_error s = refl

-- The request for a certificate ends, whatever the server answers and whatever else happens to the page
-- meanwhile: after at most 73 answers, the timeouts counted, the page is not busy with it any more; with
-- an email that is blank, it ends at once and changes nothing of that.
pub handle_issue_cert-Ends :
    (env : View) (s : Panel View)
    → Ends 73
        (λ s'.
          s'.view.tls_busy ≡ (if is_empty (trim env.tls_email) then s.view.tls_busy else false))
        (handle_issue_cert env)
        s
unfolding handle_issue_cert
handle_issue_cert-Ends env s = elim (Bool-cases (is_empty (trim env.tls_email))) [
  | inl blank ↦ rw blank refl
  | inr named ↦ rw named (λ e s'. issue_answered-Ends (receive e none).1 _)
]

abbrev pub IsLoaded : Panel View → Type 0
IsLoaded s = s.view.loading ≡ false

abbrev stop : Job
stop = set (λ v. record v { loading = false }) done

config_answered-Ends :
    (o : Outcome (Config × String)) (s : Panel View) → Ends 0 IsLoaded (config_answered stop o) s
unfolding config_answered
config_answered-Ends (fulfilled (cfg, _)) s = elim (Option-cases (allow_origins cfg)) [
  | inl broken ↦ rw broken refl
  | inr (origins, good) ↦ rw good refl
]
config_answered-Ends (api_error _ m) s = refl
config_answered-Ends runtime_error s = refl

save_answered-Ends :
    (changed : Bool) (p : Config) (o : Outcome SavedConfig) (s : Panel View)
    → Ends 1 IsLoaded (save_answered changed p o) s
unfolding save_answered fetch_config
save_answered-Ends true p (fulfilled saved) s = refl
save_answered-Ends false p (fulfilled saved) s = λ e s'. config_answered-Ends (receive e none).1 _
save_answered-Ends true p (api_error _ m) s = refl
save_answered-Ends false p (api_error _ m) s = refl
save_answered-Ends true p runtime_error s = refl
save_answered-Ends false p runtime_error s = refl

send-Ends : (changed : Bool) (p : Step) (s : Panel View) → Ends 2 IsLoaded (send changed p) s
unfolding send
send-Ends changed (refused m) s = refl
send-Ends changed thrown s = refl
send-Ends changed (patched []) s = refl
send-Ends changed (patched (d ∷ p)) s =
    λ e s'. save_answered-Ends changed (d ∷ p) (receive e none).1 _

-- A save ends, whatever the form holds, the server answers and else happens to the page meanwhile: after
-- at most two answers, the page is not loading any more.
pub handle_save-Ends :
    (integer : String → Option ℕ) (env : View) (s : Panel View)
    → Ends 2 IsLoaded (handle_save integer env) s
unfolding handle_save
handle_save-Ends integer env s = send-Ends (token_changed env.admin_token_input) _ _
