-- ===== src/Setup/Tests.antt =====
-- web/app/setup/page.tsx at concrete inputs.
use wgtemporary_email.Base.{
  ℕ, String, ◌≡◌, refl, true, false, Option, none, some, [], ◌∷◌, All, str_eq, if◌then◌else◌,
}
use wgtemporary_email.Base.Task.{run, asks}
use wgtemporary_email.Setup.{
  Setup, handle_save, cleaned_domains, update_domain, token_of, token_chars,
}
use wgtemporary_email.Setup.Token.{size, has_char, all_chars, token_of_lem}
use wgtemporary_email.Setup.Save.{IsComplete, handle_save-IsComplete}
use wgtemporary_email.Setup.Opened.{looks_like_ip}

wizard : Unit {0}
unfolding update_domain cleaned_domains token_of handle_save
wizard = tt

-- `Number`, as far as these runs need it.
abbrev number : String → Option ℕ
number s = if str_eq s "24" then some 24 else none

abbrev form : Setup
form = record {
  loading = false;
  saving = false;
  error = none;
  result = none;
  domains = " Example.org " ∷ " " ∷ [];
  hostname = "";
  hostname_touched = false;
  web_hostname = "";
  admin_token = "";
  setup_key = "";
  server_ip = "";
  lifetime = "24";
  max_storage = "";
  allow_custom = true;
  copied = false;
  route = none;
}

setup_tests :
    (cleaned_domains form.domains ≡ "example.org" ∷ [])
    × ((update_domain 0 "Mail.ORG" form).hostname ≡ "mail.mail.org")
    × (token_of (0 ∷ 54 ∷ 55 ∷ 24 ∷ []) ≡ "A9Aa")
unfolding wizard
setup_tests = (refl, refl, refl)

handle_save-IsComplete_example :
    All IsComplete (asks (run (handle_save number "" (update_domain 0 "example.org" form)) form).1)
handle_save-IsComplete_example =
    handle_save-IsComplete number "" (update_domain 0 "example.org" form) form

token_of_lem_test :
    (size (token_of (7 ∷ 300 ∷ [])) ≡ 2)
    × (all_chars (λ c. has_char c token_chars) (token_of (7 ∷ 300 ∷ [])) ≡ true)
token_of_lem_test = token_of_lem (7 ∷ 300 ∷ [])

looks_like_ip_test :
    (looks_like_ip "10.0.0.254" ≡ true) × (looks_like_ip "mail.example.com" ≡ false)
unfolding looks_like_ip
looks_like_ip_test = (refl, refl)
