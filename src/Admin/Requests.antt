-- ===== src/Admin/Requests.antt =====
-- web/lib/admin-api.ts: the methods of `adminApi`, and the request that each hands to `request`.
use wgtemporary_email.Base.{ℕ, String, Bool, Option, none, some, List, [], ◌∷◌, ◌++◌, if◌then◌else◌}
use wgtemporary_email.Base.Dict.{Dict}
use wgtemporary_email.Base.Text.{◌+++◌, is_empty, show, encode_uri_component}
use wgtemporary_email.Api.Wire.{Method, get, post, delete, number_param, text_param}
use wgtemporary_email.Admin.Types.{
  AdminStats, AdminAddressList, AdminEmailList, AdminEmailDetail, AdminAddressDetail, DomainCheck,
  DomainStats, CleanupResult, TlsStatus, AdminPermanentAddressList, AdminPermanentStats,
  AdminPermanentCreated,
}

-- A value in a request's body.
pub data Value : Type 0 where
  null : Value
  bool : Bool → Value
  num : ℕ → Value
  str : String → Value
  strs : List String → Value

-- What `JSON.stringify` is given: an object of values, or a configuration patch by section.
pub data Body : Type 0 where
  fields : Dict Value → Body
  patch : Dict (Dict Value) → Body

pub data Verb : Type 0 where
  plain : Method → Verb
  put : Verb

pub record AdminHttp : Type 0 where
  pub method : Verb
  pub path : String
  pub query : Dict String
  pub body : Option Body

pub record Paging : Type 0 where
  pub page : Option ℕ
  pub per_page : Option ℕ
  pub search : Option String

pub record AddedDomain : Type 0 where
  pub added : String
  pub domains : List String
  pub check : Option DomainCheck

pub record RemovedDomain : Type 0 where
  pub removed : String
  pub affected_addresses : ℕ
  pub domains : List String

pub record SavedConfig : Type 0 where
  pub config : Dict (Dict Value)
  pub config_path : String
  pub restart_required : Option Bool

pub record Deletion : Type 0 where
  pub email : String
  pub deleted_emails : ℕ

pub data AdminRequest : Type 0 where
  get_stats : AdminRequest
  list_addresses : Paging → AdminRequest
  get_address delete_address : (id : String) → AdminRequest
  list_emails : Paging → AdminRequest
  get_email delete_email : (id : String) → AdminRequest
  list_domains : AdminRequest
  check_domain add_domain remove_domain : (domain : String) → AdminRequest
  get_config : AdminRequest
  update_config : Dict (Dict Value) → AdminRequest
  run_cleanup : AdminRequest
  get_tls_status : AdminRequest
  issue_certificate : (email : String) → AdminRequest
  get_permanent_stats : AdminRequest
  list_permanent_addresses : Paging → (sort : Option String) → AdminRequest
  create_permanent_address : (username : String) (domain : Option String) → AdminRequest
  purge_permanent_emails : (id : String) → AdminRequest
  run_permanent_retention : AdminRequest
  get_api_key_status : AdminRequest
  regenerate_api_key : AdminRequest

abbrev pub AdminSuccess : AdminRequest → Type 0
AdminSuccess get_stats = AdminStats
AdminSuccess (list_addresses _) = AdminAddressList
AdminSuccess (get_address _) = AdminAddressDetail
AdminSuccess (delete_address _) = Bool × String
AdminSuccess (list_emails _) = AdminEmailList
AdminSuccess (get_email _) = AdminEmailDetail
AdminSuccess (delete_email _) = Bool × String
AdminSuccess list_domains = List DomainStats
AdminSuccess (check_domain _) = DomainCheck
AdminSuccess (add_domain _) = AddedDomain
AdminSuccess (remove_domain _) = RemovedDomain
AdminSuccess get_config = Dict (Dict Value) × String
AdminSuccess (update_config _) = SavedConfig
AdminSuccess run_cleanup = CleanupResult
AdminSuccess get_tls_status = TlsStatus
AdminSuccess (issue_certificate _) = Bool × String
AdminSuccess get_permanent_stats = AdminPermanentStats
AdminSuccess (list_permanent_addresses _ _) = AdminPermanentAddressList
AdminSuccess (create_permanent_address _ _) = AdminPermanentCreated
AdminSuccess (purge_permanent_emails _) = Deletion
AdminSuccess run_permanent_retention = Deletion × ℕ
AdminSuccess get_api_key_status = Bool × String
AdminSuccess regenerate_api_key = String

abbrev paging_query : Paging → Dict String
paging_query p =
    number_param "page" p.page
    ++ (number_param "per_page" p.per_page ++ text_param "search" p.search)

-- `n ?? fallback`
abbrev or_number : Option ℕ → ℕ → ℕ
or_number none fallback = fallback
or_number (some n) fallback = n

-- `domain || null`
abbrev or_null : Option String → Value
or_null none = null
or_null (some s) = if is_empty s then null else str s

abbrev bare : Verb → String → AdminHttp
bare verb path = record { method = verb; path = path; query = []; body = none }

abbrev reading : String → Dict String → AdminHttp
reading path query = record { method = plain get; path = path; query = query; body = none }

abbrev sending : Verb → String → Body → AdminHttp
sending verb path body = record { method = verb; path = path; query = []; body = some body }

abbrev pub permanent : String
permanent = "/api/v1/admin/permanent-addresses"

unfoldable pub admin_wire : AdminRequest → AdminHttp
unfolding encode_uri_component
admin_wire get_stats = bare (plain get) "/api/v1/admin/stats"
admin_wire (list_addresses p) = reading "/api/v1/admin/addresses" (paging_query p)
admin_wire (get_address id) = bare (plain get) ("/api/v1/admin/addresses/" +++ id)
admin_wire (delete_address id) = bare (plain delete) ("/api/v1/admin/addresses/" +++ id)
admin_wire (list_emails p) = reading "/api/v1/admin/emails" (paging_query p)
admin_wire (get_email id) = bare (plain get) ("/api/v1/admin/emails/" +++ id)
admin_wire (delete_email id) = bare (plain delete) ("/api/v1/admin/emails/" +++ id)
admin_wire list_domains = bare (plain get) "/api/v1/admin/domains"
admin_wire (check_domain domain) =
    bare (plain get) ("/api/v1/admin/domains/check?domain=" +++ encode_uri_component domain)
admin_wire (add_domain domain) =
    sending (plain post) "/api/v1/admin/domains" (fields (("domain", str domain) ∷ []))
admin_wire (remove_domain domain) =
    bare (plain delete) ("/api/v1/admin/domains/" +++ encode_uri_component domain)
admin_wire get_config = bare (plain get) "/api/v1/admin/config"
admin_wire (update_config p) = sending put "/api/v1/admin/config" (patch p)
admin_wire run_cleanup = bare (plain post) "/api/v1/admin/cleanup/run"
admin_wire get_tls_status = bare (plain get) "/api/v1/admin/tls/status"
admin_wire (issue_certificate email) =
    sending (plain post) "/api/v1/admin/tls/issue" (fields (("email", str email) ∷ []))
admin_wire get_permanent_stats = bare (plain get) (permanent +++ "/stats")
admin_wire (list_permanent_addresses p sort) = reading permanent (
    ("page", show (or_number p.page 1))
    ∷ ("per_page", show (or_number p.per_page 20))
    ∷ (text_param "search" p.search ++ text_param "sort" sort))
admin_wire (create_permanent_address username domain) =
    sending (plain post) permanent
      (fields (("username", str username) ∷ ("domain", or_null domain) ∷ []))
admin_wire (purge_permanent_emails id) =
    bare (plain post) (permanent +++ "/" +++ id +++ "/purge-emails")
admin_wire run_permanent_retention = bare (plain post) (permanent +++ "/run-retention")
admin_wire get_api_key_status = bare (plain get) "/api/v1/admin/apikey/status"
admin_wire regenerate_api_key = bare (plain post) "/api/v1/admin/apikey/regenerate"
