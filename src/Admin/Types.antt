-- ===== src/Admin/Types.antt =====
-- web/lib/admin-api.ts: what the admin API answers. A date text is a `Time`, as in Api.
use wgtemporary_email.Base.{ℕ, String, Bool, Option, List}
use wgtemporary_email.Api.{Time, AttachmentInfo}

pub record AdminStats : Type 0 where
  pub domains : List String
  pub total_addresses : ℕ
  pub active_addresses : ℕ
  pub total_emails : ℕ
  pub unread_emails : ℕ
  pub emails_24h : ℕ
  pub total_attachments : ℕ
  pub email_size_bytes : ℕ
  pub attachment_size_bytes : ℕ
  pub max_storage_mb : ℕ
  pub db_ok : Bool
  pub uptime_seconds : ℕ
  pub address_lifetime_hours : ℕ
  pub cleanup_interval_hours : ℕ
  pub permanent_email_retention_days : ℕ

pub record AdminAddressSummary : Type 0 where
  pub id : String
  pub email : String
  pub address_type : String
  pub created_at : Time
  pub expires_at : Option Time
  pub is_expired : Bool
  pub email_count : ℕ
  pub unread_count : ℕ
  pub last_email_at : Option Time

pub record AdminAddressList : Type 0 where
  pub items : List AdminAddressSummary
  pub total : ℕ
  pub page : ℕ
  pub per_page : ℕ
  pub has_next : Bool

pub record AdminEmailSummary : Type 0 where
  pub id : String
  pub subject : Option String
  pub from_address : String
  pub to_address : String
  pub addresses : List String
  pub received_at : Time
  pub is_read : Bool
  pub has_attachments : Bool
  pub size_bytes : ℕ
  pub spf_result : Option String
  pub dmarc_result : Option String

pub record AdminEmailList : Type 0 where
  pub items : List AdminEmailSummary
  pub total : ℕ
  pub page : ℕ
  pub per_page : ℕ
  pub has_next : Bool

pub record AdminEmailDetail : Type 0 where
  pub id : String
  pub message_id : Option String
  pub subject : Option String
  pub from_address : String
  pub to_address : String
  pub addresses : List String
  pub raw_headers : String
  pub body_plain : Option String
  pub body_html : Option String
  pub size_bytes : ℕ
  pub dkim_valid : Option Bool
  pub spf_result : Option String
  pub dmarc_result : Option String
  pub has_attachments : Bool
  pub received_at : Time
  pub is_read : Bool
  pub attachments : List AttachmentInfo

pub record AdminAddressDetail : Type 0 where
  pub id : String
  pub email : String
  pub address_type : String
  pub created_at : Time
  pub expires_at : Option Time
  pub is_expired : Bool
  pub emails : List AdminEmailSummary

pub record DomainCheck : Type 0 where
  pub domain : String
  pub expected : String
  pub records : List String
  pub matches : Bool
  pub error : Option String

pub record DomainStats : Type 0 where
  pub domain : String
  pub address_count : ℕ
  pub email_count : ℕ

pub record CleanupResult : Type 0 where
  pub deleted_addresses : ℕ
  pub deleted_emails : ℕ
  pub retention_deleted_emails : ℕ
  pub storage_bytes_before : ℕ
  pub storage_bytes_after : ℕ

pub record JobResult : Type 0 where
  pub ok : Option Bool
  pub message : Option String
  pub issued_at : Option String

pub record RenewResult : Type 0 where
  pub ok : Option Bool
  pub message : Option String
  pub last_renew : Option String

pub record TlsStatus : Type 0 where
  pub enabled : Bool
  pub hostname : String
  pub web_hostname : String
  pub cert_exists : Bool
  pub not_after : Option String
  pub issuer : Option String
  pub cert_path : String
  pub job_pending : Bool
  pub job_result : Option JobResult
  pub last_renew : Option RenewResult

pub record AdminPermanentAddress : Type 0 where
  pub id : String
  pub email : String
  pub created_at : Time
  pub email_count : ℕ
  pub unread_count : ℕ
  pub size_bytes : ℕ
  pub last_email_at : Option Time

pub record AdminPermanentAddressList : Type 0 where
  pub items : List AdminPermanentAddress
  pub total : ℕ
  pub page : ℕ
  pub per_page : ℕ
  pub has_next : Bool

pub record AdminPermanentStats : Type 0 where
  pub total : ℕ
  pub with_emails : ℕ
  pub total_emails : ℕ
  pub unread_emails : ℕ
  pub size_bytes : ℕ
  pub retention_days : ℕ
  pub max_allowed : ℕ
  pub oldest_created_at : Option Time
  pub newest_created_at : Option Time

pub record AdminPermanentCreated : Type 0 where
  pub id : String
  pub email : String
  pub token : String
  pub created_at : Time
