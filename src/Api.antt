-- ===== src/Api.antt =====
-- web/lib/api.ts: the client of the public API. A request is a call of one method of `api`; `wire`
-- is what the method hands to `fetch`, and `result` is what it makes of the answer. A date text is
-- read as its milliseconds since 1970, `none` where `new Date` makes no time of it. Percent-encoding
-- of a query belongs to URLSearchParams, so a query stays a list of pairs.
pub mod Wire
pub mod Errors
pub mod Tests
use wgtemporary_email.Base.{
  ℕ, String, ◌≡◌, Bool, true, false, ◌&&◌, Option, none, some, List, [], ◌∷◌, leb, if◌then◌else◌,
}
use wgtemporary_email.Base.Text.{is_empty}

abbrev pub Time : Type 0
Time = Option ℕ

pub record AddressCreate : Type 0 where
  pub username : Option String
  pub domain : Option String

pub record AddressResponse : Type 0 where
  pub id : String
  pub email : String
  pub token : String
  pub created_at : Time
  pub expires_at : Time

pub record EmailSummary : Type 0 where
  pub id : String
  pub subject : Option String
  pub from_address : String
  pub to_address : String
  pub received_at : Time
  pub is_read : Bool
  pub has_attachments : Bool
  pub size_bytes : ℕ

pub record EmailListResponse : Type 0 where
  pub emails : List EmailSummary
  pub total : ℕ
  pub page : ℕ
  pub per_page : ℕ
  pub has_next : Bool
  pub has_prev : Bool

pub record AttachmentInfo : Type 0 where
  pub id : String
  pub filename : String
  pub content_type : String
  pub size_bytes : ℕ

pub record EmailDetail : Type 0 where
  pub id : String
  pub message_id : Option String
  pub subject : Option String
  pub from_address : String
  pub to_address : String
  pub raw_headers : String
  pub body_plain : Option String
  pub body_html : Option String
  pub size_bytes : ℕ
  pub dkim_valid : Option Bool
  pub spf_result : Option String
  pub dmarc_result : Option String
  pub has_attachments : Bool
  pub received_at : Time
  pub is_read : Bool
  pub attachments : List AttachmentInfo

pub record SetupStatus : Type 0 where
  pub initialized : Bool
  pub web_hostname : Option String
  pub setup_key_required : Option Bool
  pub permanent_email_retention_days : Option ℕ

pub record PermanentAddress : Type 0 where
  pub id : String
  pub email : String
  pub token : String
  pub address_type : String
  pub created_at : Time

pub record AddressInfo : Type 0 where
  pub id : String
  pub email : String
  pub address_type : String
  pub created_at : Time
  pub expires_at : Option Time

pub record ListParams : Type 0 where
  pub page : Option ℕ
  pub per_page : Option ℕ
  pub unread_only : Option Bool
  pub search : Option String

-- The methods of `api` that use the network, with their arguments.
pub data Request : Type 0 where
  get_setup_status : Request
  create_permanent_address : (username : String) (domain : Option String) → Request
  get_address_info : (token : String) → Request
  get_domains : Request
  create_address : AddressCreate → Request
  list_emails : (token : String) → ListParams → Request
  get_email : (token email_id : String) (mark_read : Bool) → Request
  delete_email : (token email_id : String) → Request

-- The type that a method's promise holds.
abbrev pub Success : Request → Type 0
Success get_setup_status = SetupStatus
Success (create_permanent_address _ _) = PermanentAddress
Success (get_address_info _) = AddressInfo
Success get_domains = List String
Success (create_address _) = AddressResponse
Success (list_emails _ _) = EmailListResponse
Success (get_email _ _ _) = EmailDetail
Success (delete_email _ _) = Unit

-- The field `detail` of an answer's JSON: left out (or null, false or 0), a text, or another value with the
-- text that `String` makes of it.
pub data Detail : Type 0 where
  missing : Detail
  text : String → Detail
  other : String → Detail

-- What comes of `fetch`: it rejects, or there is an answer. The body is what `res.json()` makes of
-- it, `none` where that rejects: the value as the method's type, and its `detail`.
pub data Exchange (B : Type 0) : Type 0 where
  rejected : Exchange B
  answer : (status : ℕ) (body : Option (B × Detail)) → Exchange B

-- What a method throws: an `Error` of its own, or the error of `fetch` or of `res.json()`.
pub data Thrown : Type 0 where
  error : (message : Detail) (status : Option ℕ) (detail : Detail) → Thrown
  runtime : Thrown

pub data Result (B : Type 0) : Type 0 where
  ok : B → Result B
  thrown : Thrown → Result B

-- `e.status`, `none` for undefined
abbrev pub status_of : Thrown → Option ℕ
status_of (error _ status _) = status
status_of runtime = none

-- `e.detail`
abbrev pub detail_of : Thrown → Detail
detail_of (error _ _ detail) = detail
detail_of runtime = missing

-- `res.ok`
abbrev pub is_ok : ℕ → Bool
is_ok status = leb 200 status && leb status 299

-- `detail || fallback`
abbrev pub or_fallback : Detail → Detail → Detail
or_fallback missing fallback = fallback
or_fallback (text s) fallback = if is_empty s then fallback else text s
or_fallback (other s) fallback = other s

module _ {B : Type 0} where
  -- `return res.json()`
  abbrev read_json : Option (B × Detail) → Result B
  read_json none = thrown runtime
  read_json (some (value, _)) = ok value

  -- The shape of getSetupStatus, getAddressInfo and getDomains: an error with a message alone.
  pub plain : String → Exchange B → Result B
  plain message rejected = thrown runtime
  plain message (answer status body) =
      if is_ok status then read_json body else thrown (error (text message) none missing)

  -- The error of createAddress: the status, and the answer's detail as the message.
  abbrev with_status : String → ℕ → Option (B × Detail) → Thrown
  with_status message status none = error (text message) (some status) missing
  with_status message status (some (_, d)) =
      error (or_fallback d (text message)) (some status) missing

  -- The error of the methods that keep the answer's detail too.
  abbrev with_detail : String → ℕ → Option (B × Detail) → Thrown
  with_detail message status none = error (text message) (some status) missing
  with_detail message status (some (_, d)) = error (or_fallback d (text message)) (some status) d

  pub reporting : String → Exchange B → Result B
  reporting message rejected = thrown runtime
  reporting message (answer status body) =
      if is_ok status then read_json body else thrown (with_status message status body)

  pub detailed : String → Exchange B → Result B
  detailed message rejected = thrown runtime
  detailed message (answer status body) =
      if is_ok status then read_json body else thrown (with_detail message status body)

-- deleteEmail reads no body when it succeeds.
pub deleted : String → Exchange (Unit {0}) → Result (Unit {0})
deleted message rejected = thrown runtime
deleted message (answer status body) =
    if is_ok status then ok tt else thrown (with_detail message status body)

-- What each method makes of the exchange.
unfoldable pub result : (q : Request) → Exchange (Success q) → Result (Success q)
unfolding plain reporting detailed deleted
result get_setup_status e = plain "Failed to fetch setup status" e
result (create_permanent_address _ _) e = detailed "Failed to create permanent address" e
result (get_address_info _) e = plain "Failed to fetch address info" e
result get_domains e = plain "Failed to fetch domains" e
result (create_address _) e = reporting "Failed to create address" e
result (list_emails _ _) e = detailed "Failed to fetch emails" e
result (get_email _ _ _) e = detailed "Failed to fetch email" e
result (delete_email _ _) e = deleted "Failed to delete email" e
