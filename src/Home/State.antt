-- ===== src/Home/State.antt =====
-- web/app/page.tsx: the state of the component, and what it reads and writes around itself.
use wgtemporary_email.Base.{
  ℕ, String, Bool, false, ◌&&◌, Option, none, some, List, ◌∷◌, ◌==◌, ◌-◌, ◌+◌, ◌/◌, ◌%◌, leb,
  if◌then◌else◌, same_bool,
}
use wgtemporary_email.Base.Text.{◌+++◌, show}
use wgtemporary_email.Api.{AddressResponse, EmailSummary, EmailDetail}
use wgtemporary_email.Page.{Phrase, is_past, ViewMode}

-- The component's `useState` variables.
pub record View : Type 0 where
  pub address : Option AddressResponse
  pub emails : List EmailSummary
  pub selected_email : Option EmailDetail
  pub loading : Bool
  pub search_query : String
  pub copied : Bool
  pub custom_username : String
  pub selected_domain : String
  pub domains : List String
  pub auto_refresh : Bool
  pub last_refresh : ℕ
  pub view_mode : ViewMode
  pub show_new_email_dialog : Bool
  pub web_hostname : String
  pub notice : Option Phrase

-- The text under "mailbucket_address" in localStorage: the JSON of an address, or one that
-- `JSON.parse` refuses.
pub data Saved : Type 0 where
  entry : AddressResponse → Saved
  garbage : Saved

-- The component with the clock, the storage, the alerts shown, the route, and the interval.
-- `address_object` numbers the object in `address`, which React compares by identity; `timer_env`
-- is the render whose closure the interval runs, and `timer_object` its address object. `can_store`
-- says whether `localStorage.setItem` works; it throws where the storage is full or closed.
pub record Page : Type 0 where
  pub view : View
  pub address_object : ℕ
  pub saved : Option Saved
  pub can_store : Bool
  pub now : ℕ
  pub alerts : List Phrase
  pub route : Option String
  pub timer_env : View
  pub timer_object : ℕ

-- `addressExpired`
unfoldable pub address_expired : Option AddressResponse → ℕ → Bool
address_expired none now = false
address_expired (some a) now = is_past a.expires_at now

-- A rounded-down negative number: JavaScript writes -0 as 0.
abbrev negative : ℕ → String
negative n = if n == 0 then "0" else "-" +++ show n

abbrev hours_minutes : String → String → String
hours_minutes h m = h +++ "h " +++ m +++ "m"

-- `getTimeUntilExpiry`: whole hours, and the whole minutes of the rest; past the expiry both are
-- rounded away from zero.
unfoldable pub get_time_until_expiry : Option AddressResponse → ℕ → String
get_time_until_expiry none now = ""
get_time_until_expiry (some a) now = elim a.expires_at [
  | none ↦ hours_minutes "NaN" "NaN"
  | some t ↦
      if leb now t
      then hours_minutes (show ((t - now) / 3600000)) (show ((t - now) % 3600000 / 60000))
      else hours_minutes (negative ((now - t + 3599999) / 3600000))
          (negative (((now - t) % 3600000 + 59999) / 60000))
]

-- `setAddress(a)`, a new object
abbrev pub set_address : AddressResponse → Page → Page
set_address a p = record p {
  view = record (p.view) { address = some a };
  address_object = p.address_object + 1;
}

abbrev pub set_loading : Bool → Page → Page
set_loading b p = record p { view = record (p.view) { loading = b } }

abbrev pub set_notice : Option Phrase → Page → Page
set_notice n p = record p { view = record (p.view) { notice = n } }

abbrev pub set_copied : Bool → Page → Page
set_copied b p = record p { view = record (p.view) { copied = b } }

abbrev pub set_emails : List EmailSummary → Page → Page
set_emails es p = record p { view = record (p.view) { emails = es } }

abbrev pub set_selected_email : Option EmailDetail → Page → Page
set_selected_email e p = record p { view = record (p.view) { selected_email = e } }

abbrev pub alert : Phrase → Page → Page
alert m p = record p { alerts = m ∷ p.alerts }

-- The effect of the interval, after a render: with a new address object or a toggled refresh, the
-- interval is set again, with this render's closure.
unfoldable pub commit : Page → Page
commit p =
    if p.address_object == p.timer_object && same_bool p.view.auto_refresh p.timer_env.auto_refresh
    then p
    else record p { timer_env = p.view; timer_object = p.address_object }
