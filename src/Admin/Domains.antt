-- ===== src/Admin/Domains.antt =====
-- web/app/admin/domains/page.tsx: the mail domains, and the checks of their MX records. A text that shows
-- nothing, "" in the source, is `none`.
pub mod Checked
use wgtemporary_email.Base.{
  ℕ, String, Bool, true, false, not, Option, none, some, List, [], ◌∷◌, ◌||◌, leb, length, str_eq,
  if◌then◌else◌,
}
use wgtemporary_email.Base.Dict.{Dict, insert, lookup}
use wgtemporary_email.Base.Text.{is_empty, trim, to_lower, join, show}
use wgtemporary_email.Base.Task.{done, spawn}
use wgtemporary_email.Page.{Phrase, say, plain}
use wgtemporary_email.Admin.Types.{DomainCheck, DomainStats}
use wgtemporary_email.Admin.Client.{Outcome, fulfilled, api_error, runtime_error}
use wgtemporary_email.Admin.Requests.{
  AddedDomain, RemovedDomain, list_domains, check_domain, add_domain, remove_domain,
}
use wgtemporary_email.Admin.Panel.{PanelJob, set, ask}

-- The `useState` variables; `checking` is "" while no check is marked.
pub record View : Type 0 where
  pub domains : List DomainStats
  pub new_domain : String
  pub loading : Bool
  pub error : Option Phrase
  pub notice : Option Phrase
  pub checks : Dict DomainCheck
  pub checking : String

abbrev pub Job : Type 0
Job = PanelJob View

abbrev fail : Phrase → Job → Job
fail message t = set (λ v. record v { error = some message }) t

unfoldable pub domains_answered : Job → Outcome (List DomainStats) → Job
domains_answered t (fulfilled ds) = set (λ v. record v { domains = ds }) t
domains_answered t (api_error _ m) = fail m t
domains_answered t runtime_error = fail (plain "admin.loadFailed") t

-- `fetchDomains`, and what follows when it was awaited.
unfoldable pub fetch_domains : Job → Job
unfolding domains_answered
fetch_domains t = set (λ v. record v { error = none }) (ask list_domains (domains_answered t))

abbrev unmarked : Job
unmarked = set (λ v. record v { checking = "" }) done

unfoldable pub check_answered : String → Outcome DomainCheck → Job
check_answered domain (fulfilled c) =
    set (λ v. record v { checks = insert domain c v.checks }) unmarked
check_answered domain _ = unmarked

-- `runCheck`
unfoldable pub run_check : String → Job
unfolding check_answered
run_check domain =
    set (λ v. record v { checking = domain }) (ask (check_domain domain) (check_answered domain))

-- `res.domains.forEach((d) => runCheck(d.domain))`
unfoldable pub check_all : List DomainStats → Job
unfolding run_check
check_all [] = done
check_all (d ∷ ds) = spawn (run_check d.domain) (check_all ds)

unfoldable pub all_answered : Outcome (List DomainStats) → Job
unfolding check_all
all_answered (fulfilled ds) = check_all ds
all_answered _ = done

-- The effect that runs when the page opens.
unfoldable pub opened : Job
unfolding fetch_domains all_answered
opened = fetch_domains (ask list_domains all_answered)

abbrev pub stop : Job
stop = set (λ v. record v { loading = false }) done

-- The check that came with an added domain, or one that is started for it.
abbrev pub checked : String → Option DomainCheck → Job → Job
checked domain none t = spawn (run_check domain) t
checked domain (some c) t = set (λ v. record v { checks = insert domain c v.checks }) t

unfoldable pub add_answered : String → Outcome AddedDomain → Job
unfolding run_check fetch_domains
add_answered domain (fulfilled added) =
    set (λ v. record v { new_domain = "" })
      (set (λ v. record v { notice = some (say "admin.domainAdded" (("domain", domain) ∷ [])) })
        (checked domain added.check (fetch_domains stop)))
add_answered domain (api_error _ m) = fail m stop
add_answered domain runtime_error = fail (plain "admin.addFailed") stop

-- `handleAdd`, from the fields of a render
unfoldable pub handle_add : View → Job
unfolding add_answered trim to_lower
handle_add env =
    let domain = to_lower (trim env.new_domain) in
    if is_empty domain
    then done
    else set (λ v. record v { loading = true })
        (set (λ v. record v { error = none })
          (set (λ v. record v { notice = none }) (ask (add_domain domain) (add_answered domain))))

unfoldable pub remove_answered : Outcome RemovedDomain → Job
unfolding fetch_domains show
remove_answered (fulfilled r) =
    set
      (λ v. record v {
        notice = some (
            say "admin.domainRemoved"
              (("domain", r.removed) ∷ ("n", show r.affected_addresses) ∷ []));
      })
      (fetch_domains done)
remove_answered (api_error _ m) = fail m done
remove_answered runtime_error = fail (plain "admin.removeFailed") done

-- `handleRemove`, with the answer to its `confirm`
unfoldable pub handle_remove : Bool → String → Job
unfolding remove_answered
handle_remove false domain = done
handle_remove true domain =
    set (λ v. record v { error = none })
      (set (λ v. record v { notice = none }) (ask (remove_domain domain) remove_answered))

-- The button that removes a domain: it is disabled while there is one domain at most.
unfoldable pub remove_button : Bool → String → View → Job
unfolding handle_remove
remove_button confirmed domain env =
    if leb (length env.domains) 1 then done else handle_remove confirmed domain

-- What `DnsStatus` shows; the records of a mismatch are a phrase or their own text.
pub data Status : Type 0 where
  checking unchecked : Status
  failed : String → Status
  matching : (host : String) → Status
  mismatch : (found : Phrase) → (expected : String) → Status

abbrev found_records : List String → Phrase
found_records [] = plain "admin.dnsNone"
found_records (r ∷ rs) = Phrase.verbatim (join ", " (r ∷ rs))

abbrev error_of : DomainCheck → String
error_of c = elim c.error [ none ↦ "" | some e ↦ e ]

unfoldable pub dns_status : View → String → Status
unfolding join
dns_status v domain = if str_eq v.checking domain then checking else elim (lookup domain v.checks) [
  | none ↦ unchecked
  | some c ↦
      if not (is_empty (error_of c))
      then failed (error_of c)
      else if c.matches
      then matching c.expected
      else mismatch (found_records c.records) c.expected
]
