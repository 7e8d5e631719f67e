-- ===== src/Admin/Panel.antt =====
-- What the pages of web/app/admin share: the stored token, dialogs, the route, and how they await a
-- method of `adminApi`.
pub mod Session
use wgtemporary_email.Base.{ℕ, String, Bool, Option, none, some, List, [], ◌∷◌, ◌++◌}
use wgtemporary_email.Base.Task.{Task, update, call}
use wgtemporary_email.Api.{Exchange}
use wgtemporary_email.Page.{Phrase}
use wgtemporary_email.Admin.Requests.{AdminRequest, AdminSuccess}
use wgtemporary_email.Admin.Client.{Stored, Outcome, fulfilled, api_error, runtime_error, receive}

-- What a page awaits: a method of `adminApi`, a timeout in milliseconds, or copyToClipboard, which is
-- answered by whether the promise is fulfilled.
pub data PanelAsk : Type 0 where
  net : AdminRequest → PanelAsk
  sleep : ℕ → PanelAsk
  copy : String → PanelAsk

abbrev pub PanelAnswer : PanelAsk → Type 0
PanelAnswer (net q) = Exchange (AdminSuccess q)
PanelAnswer (sleep _) = Unit
PanelAnswer (copy _) = Bool

-- A page's `useState` variables, with the browser's localStorage, the alerts it showed, in order, and
-- the route it goes to.
pub record Panel (V : Type 0) : Type 0 where
  pub view : V
  pub stored : Stored
  pub alerts : List Phrase
  pub route : Option String

abbrev pub PanelJob : Type 0 → Type 0
PanelJob V = Task (Panel V) PanelAsk PanelAnswer

module _ {V : Type 0} where
  abbrev pub on_view : (V → V) → Panel V → Panel V
  on_view f s = record s { view = f s.view }

  -- Writes of `useState` variables.
  abbrev pub set : (V → V) → PanelJob V → PanelJob V
  set f t = update (on_view f) t

  -- `alert(message)`
  abbrev pub alert : Phrase → PanelJob V → PanelJob V
  alert m t = update (λ s. record s { alerts = s.alerts ++ m ∷ [] }) t

  -- `await adminApi.method(…)`, with what follows for how it ends. `request` reads the answer against
  -- the token that is stored by then.
  abbrev pub ask : (q : AdminRequest) → (Outcome (AdminSuccess q) → PanelJob V) → PanelJob V
  ask q k =
      call (net q)
        (λ e. update (λ s. record s { stored = (receive e s.stored).0 }) (k (receive e none).1))

-- The error a `catch` shows: an ApiError's message, or the page's own text.
abbrev pub shown_error : {B : Type 0} → Phrase → Outcome B → Option Phrase
shown_error own (fulfilled _) = none
shown_error own (api_error _ m) = some m
shown_error own runtime_error = some own

-- A `catch` that shows an ApiError's message alone.
abbrev pub shown_api_error : {B : Type 0} → Option Phrase → Outcome B → Option Phrase
shown_api_error before (api_error _ m) = some m
shown_api_error before _ = before
