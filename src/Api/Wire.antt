-- ===== src/Api/Wire.antt =====
-- web/lib/api.ts: what each method hands to `fetch`, and the two links.
use wgtemporary_email.Base.{
  ℕ, String, Bool, true, Option, none, some, List, [], ◌∷◌, ◌++◌, ◌==◌, if◌then◌else◌,
}
use wgtemporary_email.Base.Text.{◌+++◌, is_empty, show}
use wgtemporary_email.Api.{
  ListParams, Request, get_setup_status, create_permanent_address, get_address_info, get_domains,
  create_address, list_emails, get_email, delete_email,
}

pub data Method : Type 0 where
  get post delete : Method

pub record HttpRequest : Type 0 where
  pub method : Method
  pub path : String
  pub query : List (String × String)
  -- the fields that `JSON.stringify` writes: it leaves an undefined one out
  pub body : Option (List (String × String))

-- `if (n) query.set(key, n.toString())`
abbrev pub number_param : String → Option ℕ → List (String × String)
number_param key none = []
number_param key (some n) = if n == 0 then [] else (key, show n) ∷ []

-- `if (flag) query.set(key, 'true')`
abbrev pub flag_param : String → Option Bool → List (String × String)
flag_param key (some true) = (key, "true") ∷ []
flag_param key _ = []

-- `if (text) query.set(key, text)`
abbrev pub text_param : String → Option String → List (String × String)
text_param key none = []
text_param key (some s) = if is_empty s then [] else (key, s) ∷ []

-- A field of a body, left out where it is undefined.
abbrev pub field : String → Option String → List (String × String)
field key none = []
field key (some s) = (key, s) ∷ []

abbrev bare : Method → String → HttpRequest
bare m path = record { method = m; path = path; query = []; body = none }

-- The query of listEmails.
unfoldable pub list_query : ListParams → List (String × String)
list_query p =
    number_param "page" p.page
    ++ (number_param "per_page" p.per_page
        ++ (flag_param "unread_only" p.unread_only ++ text_param "search" p.search))

module _ (api_url : String) where
  unfoldable pub wire : Request → HttpRequest
  unfolding list_query
  wire get_setup_status = bare get (api_url +++ "/api/v1/setup/status")
  wire (create_permanent_address username domain) = record {
    method = post;
    path = api_url +++ "/api/v1/permanent-addresses";
    query = [];
    body = some (("username", username) ∷ field "domain" domain);
  }
  wire (get_address_info token) = bare get (api_url +++ "/api/v1/" +++ token +++ "/info")
  wire get_domains = bare get (api_url +++ "/api/v1/domains")
  wire (create_address a) = record {
    method = post;
    path = api_url +++ "/api/v1/addresses";
    query = [];
    body = some (field "username" a.username ++ field "domain" a.domain);
  }
  wire (list_emails token p) = record {
    method = get;
    path = api_url +++ "/api/v1/" +++ token +++ "/emails";
    query = list_query p;
    body = none;
  }
  wire (get_email token email_id mark_read) = record {
    method = get;
    path = api_url +++ "/api/v1/" +++ token +++ "/emails/" +++ email_id;
    query = if mark_read then [] else ("mark_read", "false") ∷ [];
    body = none;
  }
  wire (delete_email token email_id) =
      bare delete (api_url +++ "/api/v1/" +++ token +++ "/emails/" +++ email_id)

  unfoldable pub get_attachment_url : String → String → String → String
  get_attachment_url token email_id attachment_id =
      api_url +++ "/api/v1/" +++ token +++ "/emails/" +++ email_id +++ "/attachments/"
      +++ attachment_id

  unfoldable pub get_raw_email_url : String → String → String
  get_raw_email_url token email_id =
      api_url +++ "/api/v1/" +++ token +++ "/emails/" +++ email_id +++ "/raw"
