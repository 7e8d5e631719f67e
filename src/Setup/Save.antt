-- ===== src/Setup/Save.antt =====
-- web/app/setup/page.tsx: what handleSave sends.
use wgtemporary_email.Base.{
  ℕ, String, ◌≡◌, refl, ◌∙◌, Bool, true, false, Option, List, [], ◌∷◌, All, if◌then◌else◌,
  Bool-cases, inl, inr,
}
use wgtemporary_email.Base.Text.{is_empty, trim, to_lower}
use wgtemporary_email.Base.Task.{run, asks}
use wgtemporary_email.Setup.{
  Setup, SetupBody, clean, cleaned_domains, setup_body, has_domain, handle_save,
}

is_empty-to_lower : (s : String) → is_empty (to_lower s) ≡ is_empty s
unfolding to_lower
is_empty-to_lower String.[] = refl
is_empty-to_lower (String.◌∷◌ c s) = refl

abbrev pub IsNamed : String → Type 0
IsNamed s = is_empty s ≡ false

if-IsNamed :
    (b : Bool) (s : String) (rest : List String)
    → is_empty s ≡ b
    → All IsNamed rest
    → All IsNamed (if b then rest else s ∷ rest)
if-IsNamed true s rest h k = k
if-IsNamed false s rest h k = (h, k)

cleaned_domains-IsNamed : (ds : List String) → All IsNamed (cleaned_domains ds)
unfolding cleaned_domains
cleaned_domains-IsNamed [] = tt
cleaned_domains-IsNamed (d ∷ ds) =
    if-IsNamed (is_empty (clean d)) (clean d) (cleaned_domains ds) refl (cleaned_domains-IsNamed ds)

-- What a set-up sends: some domain, each with a name, and the host of the mail.
pub record IsComplete (b : SetupBody) : Type 0 where
  pub some_domain : has_domain b.domains ≡ true
  pub named_domains : All IsNamed b.domains
  pub named_host : IsNamed b.hostname

setup_body-IsComplete :
    (number : String → Option ℕ) (env : Setup)
    → has_domain (cleaned_domains env.domains) ≡ true
    → is_empty (trim env.hostname) ≡ false
    → IsComplete (setup_body number env)
unfolding setup_body clean
setup_body-IsComplete number env listed named = record {
  some_domain = listed;
  named_domains = cleaned_domains-IsNamed env.domains;
  named_host = is_empty-to_lower (trim env.hostname) ∙ named;
}

-- Whatever the fields hold, what handleSave sends is complete: nothing is sent while no domain has a
-- name after trimming, or the host has none.
pub handle_save-IsComplete :
    (number : String → Option ℕ) (json : String) (env s : Setup)
    → All IsComplete (asks (run (handle_save number json env) s).1)
unfolding handle_save
handle_save-IsComplete number json env s =
    elim (Bool-cases (has_domain (cleaned_domains env.domains))) [
      | inr unlisted ↦ rw unlisted tt
      | inl listed ↦ elim (Bool-cases (is_empty (trim env.hostname))) [
        | inl unnamed ↦ rw (listed, unnamed) tt
        | inr named ↦ rw (listed, named) (setup_body-IsComplete number env listed named, tt)
      ]
    ]
