-- ===== src/Setup.antt =====
-- web/app/setup/page.tsx: the form of the set-up wizard, its token, and its save. `number` is JavaScript's `Number` on the texts of natural
-- numbers, none where it is NaN.
pub mod Save
pub mod Token
pub mod Opened
pub mod Tests
use wgtemporary_email.Base.{
  ℕ, zero, suc, String, Bool, true, false, not, ◌&&◌, Option, none, some, List, [], ◌∷◌, ◌==◌, ◌%◌,
  leb, if◌then◌else◌, filter, map,
}
use wgtemporary_email.Base.Text.{◌+++◌, is_empty, or_none, trim, to_lower, split, nth_char, show}
use wgtemporary_email.Base.Task.{Task, done, update, call, spawn}
use wgtemporary_email.Api.{
  Detail, missing, text, other, SetupStatus, Exchange, rejected, answer, is_ok,
}
use wgtemporary_email.Page.{Phrase, plain, verbatim}
use Prim.Native.String
use Prim.Native.Char.{code}

pub record SetupResponse : Type 0 where
  pub initialized : Bool
  pub admin_token : String
  pub domains : List String
  pub hostname : String

-- The component's `useState` variables, and the route. No error is `none`, "" in the source.
pub record Setup : Type 0 where
  pub loading : Bool
  pub saving : Bool
  pub error : Option Phrase
  pub result : Option SetupResponse
  pub domains : List String
  pub hostname : String
  pub hostname_touched : Bool
  pub web_hostname : String
  pub admin_token : String
  pub setup_key : String
  pub server_ip : String
  pub lifetime : String
  pub max_storage : String
  pub allow_custom : Bool
  pub copied : Bool
  pub route : Option String

-- The body of the request that completes the set-up.
pub record SetupBody : Type 0 where
  pub domains : List String
  pub hostname : String
  pub web_hostname : Option String
  pub admin_token : Option String
  pub setup_key : Option String
  pub address_lifetime_hours : ℕ
  pub max_storage_mb : Option ℕ
  pub allow_custom_usernames : Bool

abbrev pub SetupJob : Type 0
SetupJob = Task Setup SetupBody (λ _. Exchange SetupResponse)

-- `next[index] = value`, for an index of the list
abbrev pub set_at : ℕ → String → List String → List String
set_at i value [] = []
set_at zero value (d ∷ ds) = value ∷ ds
set_at (suc i) value (d ∷ ds) = d ∷ set_at i value ds

-- `value.trim().toLowerCase()`
unfoldable pub clean : String → String
unfolding trim to_lower
clean value = to_lower (trim value)

-- `d ? "mail." + d : ""`
abbrev pub mail_host : String → String
mail_host d = if is_empty d then "" else "mail." +++ d

-- `updateDomain`
unfoldable pub update_domain : ℕ → String → Setup → Setup
unfolding clean
update_domain index value s =
    let next : Setup = record s { domains = set_at index value s.domains } in
    if index == 0 && not s.hostname_touched
    then record next { hostname = mail_host (clean value) }
    else next

abbrev pub token_chars : String
token_chars = "ABCDEFGHJKLMNPQRSTUVWXYZabcdefghjkmnpqrstuvwxyz23456789"

-- The loop of generateToken, over the random numbers.
unfoldable pub token_of : List ℕ → String
token_of [] = ""
token_of (a ∷ arr) = String.◌∷◌ (nth_char (a % 55) token_chars "A") (token_of arr)

-- The domains that handleSave sends.
unfoldable pub cleaned_domains : List String → List String
unfolding clean
cleaned_domains [] = []
cleaned_domains (d ∷ ds) =
    let rest = cleaned_domains ds in if is_empty (clean d) then rest else clean d ∷ rest

-- `Number(lifetime) || 24`
abbrev pub lifetime_hours : Option ℕ → ℕ
lifetime_hours none = 24
lifetime_hours (some n) = if n == 0 then 24 else n

abbrev pub has_domain : List String → Bool
has_domain [] = false
has_domain (_ ∷ _) = true

abbrev pub refused : Phrase → SetupJob
refused message = update (λ s. record s { error = some message }) done

abbrev pub stop_saving : SetupJob
stop_saving = update (λ s. record s { saving = false }) done

-- The error of an answer that is not in the 200s; `json` is the text that JSON.stringify makes of a
-- `detail` that is no text, or of the whole answer.
abbrev pub save_error : ℕ → Detail → String → Phrase
save_error status (text s) json =
    if is_empty s then verbatim ("Setup failed (" +++ show status +++ ")") else verbatim s
save_error status _ json = verbatim json

-- What follows the request of handleSave.
unfoldable pub save_answered : String → Exchange SetupResponse → SetupJob
save_answered json (answer status (some (value, detail))) =
    if is_ok status
    then update (λ s. record s { result = some value }) stop_saving
    else update (λ s. record s { error = some (save_error status detail json) }) stop_saving
save_answered json _ =
    update (λ s. record s { error = some (plain "setup.networkError") }) stop_saving

module _ (number : String → Option ℕ) where
  -- The body of handleSave, from the render's fields.
  unfoldable pub setup_body : Setup → SetupBody
  unfolding cleaned_domains clean trim
  setup_body s = record {
    domains = cleaned_domains s.domains;
    hostname = clean s.hostname;
    web_hostname = or_none (clean s.web_hostname);
    admin_token = or_none (trim s.admin_token);
    setup_key = or_none (trim s.setup_key);
    address_lifetime_hours = lifetime_hours (number s.lifetime);
    max_storage_mb = if is_empty (trim s.max_storage) then none else number s.max_storage;
    allow_custom_usernames = s.allow_custom;
  }

  -- `handleSave`
  unfoldable pub handle_save : String → Setup → SetupJob
  unfolding setup_body save_answered
  handle_save json env =
      update (λ s. record s { error = none })
        (if not (has_domain (cleaned_domains env.domains))
          then refused (plain "setup.needDomain")
          else if is_empty (trim env.hostname)
          then refused (plain "setup.needHostname")
          else update (λ s. record s { saving = true })
              (call (setup_body env) (save_answered json)))
