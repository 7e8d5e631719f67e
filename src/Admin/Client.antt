-- ===== src/Admin/Client.antt =====
-- web/lib/admin-api.ts: the stored token, and `request`, which sends it and reads the answer.
use wgtemporary_email.Base.{
  ℕ, String, ◌≡◌, refl, ◌≢◌, ◌↔◌, Bool, true, false, not, ◌&&◌, Option, none, some, [], ◌∷◌, arith,
  leb, ltb, ◌==◌, if◌then◌else◌, ◌≤◌, ◌<◌,
}
use wgtemporary_email.Base.Dict.{Dict}
use wgtemporary_email.Base.Text.{◌+++◌, is_empty, show}
use wgtemporary_email.Api.{Detail, text, Exchange, rejected, answer, is_ok}
use wgtemporary_email.Page.{Phrase, say, verbatim}

-- "tempmail_admin_token" in localStorage, in the browser
abbrev pub Stored : Type 0
Stored = Option String

-- `getAdminToken()`, as the text that the client tests: null is the empty text.
abbrev pub get_admin_token : Stored → String
get_admin_token none = ""
get_admin_token (some token) = token

abbrev pub set_admin_token : String → Stored → Stored
set_admin_token token _ = some token

abbrev pub clear_admin_token : Stored → Stored
clear_admin_token _ = none

-- The headers of `request`, whose callers give none of their own.
unfoldable pub headers : Stored → Dict String
headers stored =
    let token = get_admin_token stored in
    ("Content-Type", "application/json")
    ∷ (if is_empty token then [] else ("Authorization", "Bearer " +++ token) ∷ [])

-- How a promise of `adminApi` ends: with a value, with an ApiError, or with the error of `fetch` or of
-- `res.json()`.
pub data Outcome (B : Type 0) : Type 0 where
  fulfilled : B → Outcome B
  api_error : (status : ℕ) (message : Phrase) → Outcome B
  runtime_error : Outcome B

-- `typeof data.detail === 'string'`
abbrev pub text_detail : Detail → Option String
text_detail (text s) = some s
text_detail _ = none

abbrev pub request_failed : ℕ → Phrase
request_failed status = say "admin.requestFailed" (("status", show status) ∷ [])

-- The last two tests of the message, where the answer's own text is not shown.
abbrev pub other_message : ℕ → Phrase
other_message status =
    if status == 429
    then say "admin.tooManyRequests" []
    else if leb 500 status
    then say "admin.serverError" []
    else request_failed status

-- `detail`, for an answer that is neither in the 200s nor 401
unfoldable pub error_message : {B : Type 0} → ℕ → Option (B × Detail) → Phrase
error_message status none = request_failed status
error_message status (some (_, d)) = elim (text_detail d) [
  | none ↦ other_message status
  | some s ↦
      if leb 400 status && ltb status 500 && not (status == 429)
      then verbatim s
      else other_message status
]

-- `return res.json()`
abbrev pub read_json : {B : Type 0} → Option (B × Detail) → Outcome B
read_json none = runtime_error
read_json (some (value, _)) = fulfilled value

-- `request`, from the answer on: what it leaves in localStorage, and how it ends.
unfoldable pub receive : {B : Type 0} → Exchange B → Stored → Stored × Outcome B
unfolding error_message
receive rejected stored = (stored, runtime_error)
receive (answer status body) stored =
    if status == 401
    then (clear_admin_token stored, api_error 401 (say "admin.sessionExpired" []))
    else if is_ok status
    then (stored, read_json body)
    else (stored, api_error status (error_message status body))

-- The body is JSON of the value `b`.
abbrev pub Reads : {B : Type 0} → Option (B × Detail) → B → Type 0
Reads none b = ⊥
Reads (some (v, _)) b = v ≡ b

abbrev pub Accepts : {B : Type 0} → Exchange B → B → Type 0
Accepts rejected b = ⊥
Accepts (answer status body) b = (is_ok status ≡ true) × Reads body b

abbrev pub is_401 : {B : Type 0} → Exchange B → Bool
is_401 rejected = false
is_401 (answer status _) = status == 401

-- What `request` does with an answer: it removes the stored token exactly at a 401; the promise holds
-- `b` exactly when the answer is in the 200s with the JSON body `b`; and it ends in the ApiError 401 of an
-- ended session exactly at a 401.
pub receive_lem :
    {B : Type 0} (e : Exchange B) (stored : Stored) (b : B)
    → let (after, outcome) = receive e stored in
      (after ≡ (if is_401 e then none else stored))
      × ((outcome ≡ fulfilled b) ↔ Accepts e b)
      × ((outcome ≡ api_error 401 (say "admin.sessionExpired" [])) ↔ (is_401 e ≡ true))
unfolding receive
receive_lem rejected stored b =
    (refl, ((λ h. ground arith), (λ h. absurd h)), ((λ h. ground arith), (λ h. ground arith)))
receive_lem (answer status none) stored b = (
  ground arith,
  ((λ h. ground arith), (λ h. absurd h.1)),
  ((λ h. ground arith), (λ h. ground arith)),
)
receive_lem (answer status (some (v, d))) stored b = (
  ground arith,
  ((λ h. ground arith), (λ h. ground arith)),
  ((λ h. ground arith), (λ h. ground arith)),
)

-- A text that the server sends as `detail` is shown exactly where the answer is a client error other
-- than 401 and 429.
pub receive-verbatim :
    {B : Type 0} (status : ℕ) (v : B) (s : String) (stored : Stored)
    → ((receive (answer status (some (v, text s))) stored).1 ≡ api_error status (verbatim s))
      ↔ ((400 ≤ status) × (status < 500) × (status ≢ 401) × (status ≢ 429))
unfolding receive
receive-verbatim status v s stored = ((λ h. ground arith), (λ h. ground arith))
