-- ===== src/Page.antt =====
-- What the pages under web/app share: the requests that a page waits for, localized phrases, and
-- the tests on errors and times.
use wgtemporary_email.Base.{
  ℕ, String, Bool, false, none, some, List, [], ◌∷◌, leb, ◌==◌, true, str_eq, if◌then◌else◌,
}
use wgtemporary_email.Base.Task.{Task, call}
use wgtemporary_email.Api.{
  Time, Request, EmailSummary, Success, Exchange, Thrown, Result, status_of, result,
}

-- What a page awaits: a method of `api`, a timeout in milliseconds, or copyToClipboard.
pub data Ask : Type 0 where
  net : Request → Ask
  sleep : ℕ → Ask
  copy : String → Ask

-- `copy` is answered by whether the promise is fulfilled.
abbrev pub Answer : Ask → Type 0
Answer (net q) = Exchange (Success q)
Answer (sleep _) = Unit
Answer (copy _) = Bool

-- `await api.method(…)`, with what follows for its value and for its error.
abbrev pub request :
    {S : Type 0} (q : Request) → (Result (Success q) → Task S Ask Answer) → Task S Ask Answer
request q k = call (net q) (λ e. k (result q e))

-- `t(key, vars)`, before it is looked up in a dictionary; or a text that is shown as it is.
pub data Phrase : Type 0 where
  say : (key : String) → List (String × String) → Phrase
  verbatim : String → Phrase

abbrev pub plain : String → Phrase
plain key = say key []

-- `e.status === n`
abbrev pub has_status : ℕ → Thrown → Bool
has_status n e = elim (status_of e) [ none ↦ false | some s ↦ s == n ]

-- `new Date(text).getTime() <= now`, false where the text is no date
abbrev pub is_past : Time → ℕ → Bool
is_past none now = false
is_past (some t) now = leb t now

-- How the body of an email is shown.
pub data ViewMode : Type 0 where
  plain_text html : ViewMode

-- `{ ...e, is_read: true }` for the emails with the id
unfoldable pub mark_read : String → List EmailSummary → List EmailSummary
mark_read id [] = []
mark_read id (e ∷ es) =
    (if str_eq e.id id then record e { is_read = true } else e) ∷ mark_read id es
