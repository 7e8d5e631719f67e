-- ===== src/I18n/English/Spoken.antt =====
-- The phrases that the code says have an English text, so that no key is shown in its place.
use wgtemporary_email.Base.{
  ◌≡◌, ℕ, Bool, true, false, not, ◌&&◌, Option, none, some, ◌==◌, leb, ltb, if◌then◌else◌, refl,
}
use wgtemporary_email.Base.Text.{is_empty}
use wgtemporary_email.Api.{
  Exchange, rejected, answer, is_ok, Detail, missing, text, other, Thrown, detail_of,
}
use wgtemporary_email.Page.{Phrase, say, verbatim, has_status}
use wgtemporary_email.Home.Handlers.{create_error as home_error}
use wgtemporary_email.Mailbox.Handlers.{detail_error, create_error as mailbox_error}
use wgtemporary_email.Admin.Client.{
  Stored, Outcome, api_error, read_json, error_message, other_message, receive,
}
use wgtemporary_email.I18n.Dictionary.{get_value}
use wgtemporary_email.I18n.Dictionary.Phrases.{IsText}
use wgtemporary_email.I18n.English.{en}

-- The English dictionary has a text at the phrase's key.
abbrev pub IsSpoken : Phrase → Type 0
IsSpoken (say key vars) = IsText (get_value en key)
IsSpoken (verbatim s) = Unit

if-IsSpoken : (b : Bool) (x y : Phrase) → IsSpoken x → IsSpoken y → IsSpoken (if b then x else y)
if-IsSpoken true x y hx hy = hx
if-IsSpoken false x y hx hy = hy

detail_error-IsSpoken : (d : Detail) → IsSpoken (detail_error d)
unfolding get_value
detail_error-IsSpoken missing = (_, refl)
detail_error-IsSpoken (text s) = if-IsSpoken (is_empty s) _ _ (_, refl) tt
detail_error-IsSpoken (other s) = tt

-- Whatever a request for a new address or a new mailbox throws, the error that is shown has an English
-- text.
pub create_error-IsSpoken : (e : Thrown) → IsSpoken (home_error e) × IsSpoken (mailbox_error e)
unfolding home_error mailbox_error get_value
create_error-IsSpoken e = (
  if-IsSpoken (has_status 409 e) _ _ (_, refl)
      (if-IsSpoken (has_status 429 e) _ _ (_, refl) (_, refl)),
  if-IsSpoken (has_status 409 e) _ _ (_, refl)
      (if-IsSpoken (has_status 429 e) _ _ (_, refl) (detail_error-IsSpoken (detail_of e))),
)

-- The message of an error is a key with an English text, or the `detail` text of the answer itself.
abbrev pub IsTold : {B : Type 0} → Exchange B → Phrase → Type 0
IsTold e (say key vars) = IsText (get_value en key)
IsTold (answer _ (some (_, text t))) (verbatim s) = s ≡ t
IsTold _ (verbatim s) = ⊥

abbrev pub ErrorIsTold : {B : Type 0} → Exchange B → Outcome B → Type 0
ErrorIsTold e (api_error _ m) = IsTold e m
ErrorIsTold e _ = Unit

if-IsTold :
    {B : Type 0} (e : Exchange B) (b : Bool) (x y : Phrase)
    → IsTold e x
    → IsTold e y
    → IsTold e (if b then x else y)
if-IsTold e true x y hx hy = hx
if-IsTold e false x y hx hy = hy

if-ErrorIsTold :
    {B : Type 0} (e : Exchange B) (b : Bool) (x y : Stored × Outcome B)
    → ErrorIsTold e x.1
    → ErrorIsTold e y.1
    → ErrorIsTold e (if b then x else y).1
if-ErrorIsTold e true x y hx hy = hx
if-ErrorIsTold e false x y hx hy = hy

other_message-IsTold : {B : Type 0} (e : Exchange B) (status : ℕ) → IsTold e (other_message status)
unfolding get_value
other_message-IsTold e status =
    if-IsTold e (status == 429) _ _ (_, refl) (if-IsTold e (leb 500 status) _ _ (_, refl) (_, refl))

error_message-IsTold :
    {B : Type 0} (status : ℕ) (body : Option (B × Detail))
    → IsTold (answer status body) (error_message status body)
unfolding error_message get_value
error_message-IsTold status none = (_, refl)
error_message-IsTold status (some (b, missing)) =
    other_message-IsTold (answer status (some (b, missing))) status
error_message-IsTold status (some (b, other s)) =
    other_message-IsTold (answer status (some (b, other s))) status
error_message-IsTold status (some (b, text s)) =
    if-IsTold (answer status (some (b, text s)))
      (leb 400 status && ltb status 500 && not (status == 429)) _ _ refl
      (other_message-IsTold (answer status (some (b, text s))) status)

read_json-IsTold :
    {B : Type 0} (e : Exchange B) (body : Option (B × Detail)) → ErrorIsTold e (read_json body)
read_json-IsTold e none = tt
read_json-IsTold e (some (value, d)) = tt

-- Whatever the answer to a request of the admin API, of any status, also 401: if the request ends in an
-- ApiError, its message has an English text, or is the text that this very answer has as its `detail`.
pub receive-IsTold :
    {B : Type 0} (e : Exchange B) (stored : Stored) → ErrorIsTold e (receive e stored).1
unfolding receive get_value
receive-IsTold rejected stored = tt
receive-IsTold (answer status body) stored =
    if-ErrorIsTold (answer status body) (status == 401) _ _ (_, refl)
      (if-ErrorIsTold (answer status body) (is_ok status) _ _
        (read_json-IsTold (answer status body) body) (error_message-IsTold status body))
