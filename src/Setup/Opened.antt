-- ===== src/Setup/Opened.antt =====
-- web/app/setup/page.tsx: the effect that runs when the page opens, the rows of the domains, and the
-- button that copies the token.
use Prim.Native.Char.{code}
use Prim.Native.String.{[], ◌∷◌, count}
use wgtemporary_email.Base.{
  ℕ, length, zero, suc, String, Bool, true, false, ◌&&◌, none, some, List, [], ◌∷◌, ◌++◌, leb,
  if◌then◌else◌,
}
use wgtemporary_email.Base.Text.{split}
use wgtemporary_email.Base.Task.{Task, done, update, call, spawn}
use wgtemporary_email.Api.{SetupStatus, Exchange, answer}
use wgtemporary_email.Page.{plain}
use wgtemporary_email.Setup.{Setup}

-- What these await: the status of the set-up, copyToClipboard, and a timeout.
pub data SetupAsk : Type 0 where
  status : SetupAsk
  copy : String → SetupAsk
  sleep : ℕ → SetupAsk

abbrev pub SetupAnswer : SetupAsk → Type 0
SetupAnswer status = Exchange SetupStatus
SetupAnswer (copy _) = Bool
SetupAnswer (sleep _) = Unit

abbrev pub Job : Type 0
Job = Task Setup SetupAsk SetupAnswer

-- All characters are digits.
abbrev all_digits : String → Bool
all_digits [] = true
all_digits (c ∷ s) = leb b'0' (code c) && leb (code c) b'9' && all_digits s

-- `\d{1,3}`, for a whole text
abbrev is_short_number : String → Bool
is_short_number s = leb 1 (count s) && leb (count s) 3 && all_digits s

abbrev four_numbers : List String → Bool
four_numbers (a ∷ b ∷ c ∷ d ∷ []) =
    is_short_number a && is_short_number b && is_short_number c && is_short_number d
four_numbers _ = false

-- `looksLikeIP`
unfoldable pub looks_like_ip : String → Bool
unfolding split
looks_like_ip value = four_numbers (split b'.' value)

abbrev show_form : Job
show_form = update (λ s. record s { loading = false }) done

abbrev unreachable : Job
unreachable = update (λ s. record s { error = some (plain "setup.backendUnreachable") }) show_form

-- What follows the `fetch` of the status, whose own status is not tested.
unfoldable pub status_answered : (host : String) → Exchange SetupStatus → Job
unfolding looks_like_ip
status_answered host (answer _ (some (setup, _))) =
    if setup.initialized
    then update (λ s. record s { route = some "/" }) done
    else if looks_like_ip host
    then update (λ s. record s { server_ip = host }) show_form
    else show_form
status_answered host _ = unreachable

-- The effect that runs when the page opens, at a `window.location.hostname`.
unfoldable pub open_setup : (host : String) → Job
unfolding status_answered
open_setup host = call status (status_answered host)

-- `copyToken`, from the fields of a render
unfoldable pub copy_token : Setup → Job
copy_token env = elim env.result [
  | none ↦ done
  | some r ↦ call (copy r.admin_token) (λ ok.
      if ok
      then update (λ s. record s { copied = true })
          (spawn (call (sleep 2000) (λ _. update (λ s. record s { copied = false }) done)) done)
      else done)
]

-- The button that adds a row for a domain.
unfoldable pub add_row : Setup → Setup → Setup
add_row env s = record s { domains = env.domains ++ "" ∷ [] }

-- `list.filter((_, j) => j !== i)`
abbrev pub remove_at : ℕ → List String → List String
remove_at i [] = []
remove_at zero (d ∷ ds) = ds
remove_at (suc i) (d ∷ ds) = d ∷ remove_at i ds

-- The button that removes a row: it is disabled while there is one row.
unfoldable pub remove_row : ℕ → Setup → Setup → Setup
remove_row i env s =
    if leb (length env.domains) 1 then s else record s { domains = remove_at i env.domains }
