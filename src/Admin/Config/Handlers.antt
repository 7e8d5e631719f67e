-- ===== src/Admin/Config/Handlers.antt =====
-- web/app/admin/config/page.tsx: the state of the page and its handlers. A text that shows nothing, "" in
-- the source, is `none`.
use wgtemporary_email.Base.{
  ℕ, zero, suc, String, Bool, true, false, not, Option, none, some, List, [], ◌∷◌, is_some,
  if◌then◌else◌,
}
use wgtemporary_email.Base.Dict.{insert}
use wgtemporary_email.Base.Text.{is_empty, or_empty, trim, join}
use wgtemporary_email.Base.Task.{done, update, call, spawn}
use wgtemporary_email.Page.{Phrase, say, plain}
use wgtemporary_email.Admin.Types.{TlsStatus, JobResult}
use wgtemporary_email.Admin.Client.{Outcome, fulfilled, api_error, runtime_error, clear_admin_token}
use wgtemporary_email.Admin.Requests.{
  SavedConfig, get_config, update_config, get_tls_status, issue_certificate, get_api_key_status,
  regenerate_api_key,
}
use wgtemporary_email.Admin.Panel.{PanelJob, sleep, set, alert, ask}
use wgtemporary_email.Admin.Config.Fields.{Config, Form, Input, read_form, allow_origins, get_value}
use wgtemporary_email.Admin.Config.Patch.{Step, patched, refused, thrown, patch_of, token_changed}

-- The `useState` variables of the page.
pub record View : Type 0 where
  pub config : Option Config
  pub form : Form
  pub cors_origins : String
  pub admin_token_input : String
  pub loading : Bool
  pub error : Option Phrase
  pub notice : Option Phrase
  pub tls_status : Option TlsStatus
  pub tls_email : String
  pub tls_busy : Bool
  pub tls_notice : Option Phrase
  pub tls_error : Option Phrase
  pub api_key_status : Option (Bool × String)
  pub api_key_new : String
  pub api_key_busy : Bool

abbrev pub Job : Type 0
Job = PanelJob View

-- `setError(…)` of a `catch`, and what follows it.
abbrev fail : Phrase → Job → Job
fail message t = set (λ v. record v { error = some message }) t

-- What fetchConfig shows of a configuration; where the origins cannot be joined, the `catch` follows.
abbrev show_origins : Option (List String) → Job → Job
show_origins none t = fail (plain "admin.loadFailed") t
show_origins (some origins) t = set (λ v. record v { cors_origins = join "\n" origins }) t

unfoldable pub config_answered : Job → Outcome (Config × String) → Job
unfolding read_form allow_origins join
config_answered t (fulfilled (cfg, _)) =
    set (λ v. record v { config = some cfg })
      (set (λ v. record v { form = read_form cfg }) (show_origins (allow_origins cfg) t))
config_answered t (api_error _ m) = fail m t
config_answered t runtime_error = fail (plain "admin.loadFailed") t

-- `fetchConfig`, and what follows when it was awaited.
unfoldable pub fetch_config : Job → Job
unfolding config_answered
fetch_config t = set (λ v. record v { error = none }) (ask get_config (config_answered t))

unfoldable pub api_key_status_answered : Job → Outcome (Bool × String) → Job
api_key_status_answered t (fulfilled status) =
    set (λ v. record v { api_key_status = some status }) t
api_key_status_answered t (api_error _ m) = fail m t
api_key_status_answered t runtime_error = t

-- `fetchApiKeyStatus`
unfoldable pub fetch_api_key_status : Job → Job
unfolding api_key_status_answered
fetch_api_key_status t = ask get_api_key_status (api_key_status_answered t)

abbrev free_api_key : Job
free_api_key = set (λ v. record v { api_key_busy = false }) done

unfoldable pub regenerated : Outcome String → Job
unfolding fetch_api_key_status
regenerated (fulfilled key) =
    set (λ v. record v { api_key_new = key }) (fetch_api_key_status free_api_key)
regenerated (api_error _ m) = fail m free_api_key
regenerated runtime_error = free_api_key

-- `handleRegenerateApiKey`, with the answer to its `confirm`
unfoldable pub handle_regenerate_api_key : Bool → Job
unfolding regenerated
handle_regenerate_api_key false = done
handle_regenerate_api_key true =
    set (λ v. record v { api_key_busy = true })
      (set (λ v. record v { error = none })
        (set (λ v. record v { api_key_new = "" }) (ask regenerate_api_key regenerated)))

-- `fetchTlsStatus`
unfoldable pub tls_status_answered : Outcome TlsStatus → Job
tls_status_answered (fulfilled st) = set (λ v. record v { tls_status = some st }) done
tls_status_answered (api_error _ m) = set (λ v. record v { tls_error = some m }) done
tls_status_answered runtime_error = done

unfoldable pub fetch_tls_status : Job
unfolding tls_status_answered
fetch_tls_status = ask get_tls_status tls_status_answered

-- The effect that runs when the page opens.
unfoldable pub opened : Job
unfolding fetch_config fetch_tls_status fetch_api_key_status
opened = spawn (fetch_config done) (spawn fetch_tls_status (spawn (fetch_api_key_status done) done))

abbrev free_tls : Job
free_tls = set (λ v. record v { tls_busy = false }) done

abbrev tls_failed : Phrase → Job
tls_failed message = set (λ v. record v { tls_error = some message }) free_tls

-- `st.job_result?.ok`, and the message of a failure
abbrev pub job_ok : Option JobResult → Bool
job_ok none = false
job_ok (some r) = elim r.ok [ none ↦ false | some ok ↦ ok ]

abbrev job_message : Option JobResult → String
job_message none = ""
job_message (some r) = or_empty r.message

-- What a certificate's job that is not pending any more shows.
unfoldable pub job_ended : Option JobResult → Job
job_ended result =
    if job_ok result
    then set (λ v. record v { tls_notice = some (plain "admin.tlsIssueSuccess") }) free_tls
    else tls_failed (say "admin.tlsIssueFailed" (("msg", job_message result) ∷ []))

-- A round of the loop, with the rounds that are left after it.
unfoldable pub polled : Job → Outcome TlsStatus → Job
unfolding job_ended
polled rest (fulfilled st) =
    set (λ v. record v { tls_status = some st })
      (if not st.job_pending then job_ended st.job_result else rest)
polled rest (api_error _ m) = tls_failed m
polled rest runtime_error = tls_failed (plain "admin.loadFailed")

-- The loop of handleIssueCert, with the rounds that are left.
unfoldable pub poll : ℕ → Job
unfolding polled
poll zero = free_tls
poll (suc rounds) =
    let rest = poll rounds in call (sleep 5000) (λ _. ask get_tls_status (polled rest))

unfoldable pub issue_answered : Outcome (Bool × String) → Job
unfolding poll
issue_answered (fulfilled _) =
    set (λ v. record v { tls_notice = some (plain "admin.tlsIssueSubmitted") }) (poll 36)
issue_answered (api_error _ m) = tls_failed m
issue_answered runtime_error = tls_failed (plain "admin.loadFailed")

-- `handleIssueCert`, from the fields of a render
unfoldable pub handle_issue_cert : View → Job
unfolding issue_answered trim
handle_issue_cert env =
    let email = trim env.tls_email in
    if is_empty email
    then set (λ v. record v { tls_error = some (plain "admin.tlsEmailLabel") }) done
    else set (λ v. record v { tls_busy = true })
        (set (λ v. record v { tls_error = none })
          (set (λ v. record v { tls_notice = none })
            (ask (issue_certificate email) issue_answered)))

abbrev stop_loading : Job
stop_loading = set (λ v. record v { loading = false }) done

abbrev true_of : Option Bool → Bool
true_of none = false
true_of (some b) = b

-- What a saved configuration shows.
abbrev saved_notice : Config → SavedConfig → Phrase
saved_notice patch saved =
    if true_of saved.restart_required
    then plain "admin.restartRequired"
    else if is_some (get_value patch "web" "hostname")
    then plain "admin.webHostnameUpdated"
    else plain "admin.savedReloaded"

-- What follows the request of handleSave.
unfoldable pub save_answered : Bool → Config → Outcome SavedConfig → Job
unfolding fetch_config get_value
save_answered true patch (fulfilled saved) =
    update (λ s. record s { stored = clear_admin_token s.stored })
      (alert (plain "admin.tokenUpdated")
        (update (λ s. record s { route = some "/admin" }) stop_loading))
save_answered false patch (fulfilled saved) =
    set (λ v. record v { notice = some (saved_notice patch saved) }) (fetch_config stop_loading)
save_answered changed patch (api_error _ m) = fail m stop_loading
save_answered changed patch runtime_error = fail (plain "admin.saveFailed") stop_loading

-- What handleSave does with its patch.
unfoldable pub send : Bool → Step → Job
unfolding save_answered
send changed (refused m) = fail m (set (λ v. record v { loading = false }) stop_loading)
send changed thrown = fail (plain "admin.saveFailed") stop_loading
send changed (patched []) =
    set (λ v. record v { notice = some (plain "admin.nothingToSave") })
      (set (λ v. record v { loading = false }) stop_loading)
send changed (patched (d ∷ patch)) =
    ask (update_config (d ∷ patch)) (save_answered changed (d ∷ patch))

-- `handleSave`, from the fields of a render
unfoldable pub handle_save : (String → Option ℕ) → View → Job
unfolding send patch_of trim
handle_save integer env =
    set (λ v. record v { error = none })
      (set (λ v. record v { notice = none })
        (set (λ v. record v { loading = true })
          (send (token_changed env.admin_token_input)
            (patch_of integer env.config env.form env.admin_token_input env.cors_origins))))

-- `setField`
unfoldable pub set_field : String → Input → Job
set_field name value = set (λ v. record v { form = insert name value v.form }) done
