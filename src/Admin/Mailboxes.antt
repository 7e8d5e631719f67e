-- ===== src/Admin/Mailboxes.antt =====
-- web/app/admin/mailboxes/page.tsx: the permanent mailboxes. A text that shows nothing, "" in the source, is
-- `none`.
pub mod Kept
use wgtemporary_email.Base.{
  ℕ, String, ◌+◌, ◌-◌, ltb, not, ◌&&◌, Bool, true, false, not, Option, none, some, List, [], ◌∷◌,
  leb, map, if◌then◌else◌,
}
use wgtemporary_email.Base.Text.{is_empty, or_none, trim, show}
use wgtemporary_email.Base.Task.{done, call, spawn, update}
use wgtemporary_email.Page.{Phrase, say, plain}
use wgtemporary_email.Admin.Types.{
  AdminPermanentStats, AdminPermanentAddressList, AdminPermanentCreated, DomainStats,
}
use wgtemporary_email.Admin.Client.{Outcome, fulfilled, api_error, runtime_error}
use wgtemporary_email.Admin.Requests.{
  Deletion, get_permanent_stats, list_permanent_addresses, list_domains, create_permanent_address,
  purge_permanent_emails, delete_address, run_permanent_retention,
}
use wgtemporary_email.Admin.Panel.{PanelJob, copy, sleep, set, ask}

-- The `useState` variables.
pub record View : Type 0 where
  pub stats : Option AdminPermanentStats
  pub data_ : Option AdminPermanentAddressList
  pub page : ℕ
  pub search_input : String
  pub search : String
  pub loading : Bool
  pub error : Option Phrase
  pub notice : Option Phrase
  pub busy : Bool
  pub username : String
  pub domain : String
  pub domains : List String
  pub created : Option AdminPermanentCreated
  pub copied : Bool

abbrev pub Job : Type 0
Job = PanelJob View

-- A `catch` that shows an ApiError's message alone, and what follows it.
abbrev pub catch_api : {B : Type 0} → Outcome B → Job → Job
catch_api (api_error _ m) t = set (λ v. record v { error = some m }) t
catch_api _ t = t

unfoldable pub stats_answered : Outcome AdminPermanentStats → Job
stats_answered (fulfilled st) = set (λ v. record v { stats = some st }) done
stats_answered o = catch_api o done

-- `fetchStats`
unfoldable pub fetch_stats : Job
unfolding stats_answered
fetch_stats = ask get_permanent_stats stats_answered

abbrev pub loaded : Job
loaded = set (λ v. record v { loading = false }) done

unfoldable pub list_answered : Outcome AdminPermanentAddressList → Job
list_answered (fulfilled l) = set (λ v. record v { data_ = some l }) loaded
list_answered o = catch_api o loaded

-- `fetchList(p, q)`
unfoldable pub fetch_list : ℕ → String → Job
unfolding list_answered
fetch_list p q =
    set (λ v. record v { loading = true })
      (set (λ v. record v { error = none })
        (ask
          (list_permanent_addresses
            (record { page = some p; per_page = some 20; search = or_none q }) none)
          list_answered))

-- `prev || names[0]`
abbrev or_first : String → List String → String
or_first prev [] = prev
or_first prev (name ∷ _) = if is_empty prev then name else prev

unfoldable pub domains_answered : Outcome (List DomainStats) → Job
domains_answered (fulfilled ds) =
    let names = map (λ d. d.domain) ds in
    set (λ v. record v { domains = names })
      (set (λ v. record v { domain = or_first v.domain names }) done)
domains_answered _ = done

-- The effect that runs when the page opens.
unfoldable pub opened : View → Job
unfolding fetch_stats fetch_list domains_answered
opened env =
    spawn fetch_stats
      (spawn (fetch_list env.page env.search) (spawn (ask list_domains domains_answered) done))

-- `doSearch`, from the fields of a render
unfoldable pub do_search : View → Job
unfolding fetch_list
do_search env =
    set (λ v. record v { search = env.search_input })
      (set (λ v. record v { page = 1 }) (fetch_list 1 env.search_input))

-- `setPage(p)` and the fetch of the buttons under the list
abbrev pub turn : ℕ → View → Job
turn p env = set (λ v. record v { page = p }) (fetch_list p env.search)

-- The buttons show with a list of something.
abbrev pub has_items : Option AdminPermanentAddressList → Bool
has_items none = false
has_items (some l) = ltb 0 l.total

abbrev pub has_following : Option AdminPermanentAddressList → Bool
has_following none = false
has_following (some l) = l.has_next

-- The buttons to the previous and the next page, disabled on the first and on the last one.
unfoldable pub prev_page : View → Job
unfolding fetch_list
prev_page env =
    if has_items env.data_ && not (leb env.page 1) then turn (env.page - 1) env else done

unfoldable pub next_page : View → Job
unfolding fetch_list
next_page env =
    if has_items env.data_ && has_following env.data_ then turn (env.page + 1) env else done

-- `fetchStats()` and a fetch of the list, not awaited.
unfoldable pub reload : ℕ → String → Job → Job
unfolding fetch_stats fetch_list
reload p q t = spawn fetch_stats (spawn (fetch_list p q) t)

-- The button that fetches again, which is disabled while a list loads.
unfoldable pub refresh : View → Job
unfolding reload
refresh env = if env.loading then done else reload env.page env.search done

abbrev pub idle : Job
idle = set (λ v. record v { busy = false }) done

unfoldable pub create_answered : View → Outcome AdminPermanentCreated → Job
unfolding reload
create_answered env (fulfilled c) =
    set (λ v. record v { created = some c })
      (set (λ v. record v { username = "" }) (reload 1 env.search idle))
create_answered env o = catch_api o idle

abbrev cleared : Job → Job
cleared t = set (λ v. record v { error = none }) (set (λ v. record v { notice = none }) t)

-- `handleCreate`, from the fields of a render
unfoldable pub handle_create : View → Job
unfolding create_answered trim
handle_create env = cleared (
    if is_empty (trim env.username)
    then set (λ v. record v { error = some (plain "admin.mbNeedUsername") }) done
    else set (λ v. record v { busy = true })
        (ask (create_permanent_address (trim env.username) (or_none env.domain))
          (create_answered env)))

abbrev noticed : Phrase → View → Job
noticed m env = set (λ v. record v { notice = some m }) (reload env.page env.search done)

unfoldable pub purge_answered : View → Outcome Deletion → Job
unfolding reload show
purge_answered env (fulfilled r) =
    noticed (say "admin.mbPurged" (("n", show r.deleted_emails) ∷ ("email", r.email) ∷ [])) env
purge_answered env o = catch_api o done

-- `handlePurge`, with the answer to its `confirm`, from the fields of a render
unfoldable pub handle_purge : Bool → String → View → Job
unfolding purge_answered
handle_purge false id env = done
handle_purge true id env = cleared (ask (purge_permanent_emails id) (purge_answered env))

unfoldable pub delete_answered : String → View → Outcome (Bool × String) → Job
unfolding reload
delete_answered email env (fulfilled _) =
    noticed (say "admin.mbDeleted" (("email", email) ∷ [])) env
delete_answered email env o = catch_api o done

-- `handleDelete`, with the answer to its `confirm`, from the fields of a render
unfoldable pub handle_delete : Bool → (id email : String) → View → Job
unfolding delete_answered
handle_delete false id email env = done
handle_delete true id email env = cleared (ask (delete_address id) (delete_answered email env))

unfoldable pub retention_answered : View → Outcome (Deletion × ℕ) → Job
unfolding reload show
retention_answered env (fulfilled (_, n)) =
    noticed (say "admin.mbRetentionRan" (("n", show n) ∷ [])) env
retention_answered env o = catch_api o done

-- `handleRunRetention`, from the fields of a render
unfoldable pub handle_run_retention : View → Job
unfolding retention_answered
handle_run_retention env = cleared (ask run_permanent_retention (retention_answered env))

-- `copyToken`
unfoldable pub copy_token : String → Job
copy_token token = call (copy token) (λ ok.
    if ok
    then set (λ v. record v { copied = true })
        (spawn (call (sleep 2000) (λ _. set (λ v. record v { copied = false }) done)) done)
    else done)
