-- ===== src/Admin/Domains/Checked.antt =====
-- web/app/admin/domains/page.tsx: adding a domain.
use wgtemporary_email.Base.{
  String, ◌≡◌, refl, false, Option, none, some, List, Bool-cases, inl, inr,
}
use wgtemporary_email.Base.Text.{is_empty, trim, to_lower}
use wgtemporary_email.Base.Task.Ends.{Ends}
use wgtemporary_email.Admin.Types.{DomainStats, DomainCheck}
use wgtemporary_email.Admin.Client.{Outcome, fulfilled, api_error, runtime_error, receive}
use wgtemporary_email.Admin.Requests.{AddedDomain}
use wgtemporary_email.Admin.Panel.{Panel}
use wgtemporary_email.Admin.Domains.{
  View, stop, checked, handle_add, add_answered, fetch_domains, domains_answered,
}

abbrev pub IsLoaded : Panel View → Type 0
IsLoaded s = s.view.loading ≡ false

domains_answered-Ends :
    (o : Outcome (List DomainStats)) (s : Panel View) → Ends 0 IsLoaded (domains_answered stop o) s
unfolding domains_answered
domains_answered-Ends (fulfilled ds) s = refl
domains_answered-Ends (api_error _ m) s = refl
domains_answered-Ends runtime_error s = refl

checked-Ends :
    (domain : String) (c : Option DomainCheck) (s : Panel View)
    → Ends 1 IsLoaded (checked domain c (fetch_domains stop)) s
unfolding fetch_domains
checked-Ends domain none s = λ e s'. domains_answered-Ends (receive e none).1 _
checked-Ends domain (some c) s = λ e s'. domains_answered-Ends (receive e none).1 _

add_answered-Ends :
    (domain : String) (o : Outcome AddedDomain) (s : Panel View)
    → Ends 1 IsLoaded (add_answered domain o) s
unfolding add_answered
add_answered-Ends domain (fulfilled added) s = checked-Ends domain added.check _
add_answered-Ends domain (api_error _ m) s = refl
add_answered-Ends domain runtime_error s = refl

-- Adding a domain, which starts while nothing loads, ends, whatever the server answers and else happens
-- to the page meanwhile: it waits for at most two answers, and then the page is not loading.
pub handle_add-Ends :
    (env : View) (s : Panel View) → IsLoaded s → Ends 2 IsLoaded (handle_add env) s
unfolding handle_add
handle_add-Ends env s idle = elim (Bool-cases (is_empty (to_lower (trim env.new_domain)))) [
  | inl blank ↦ rw blank idle
  | inr named ↦ rw named (λ e s'. add_answered-Ends _ (receive e none).1 _)
]
