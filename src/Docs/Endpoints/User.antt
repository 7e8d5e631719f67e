-- ===== src/Docs/Endpoints/User.antt =====
-- web/app/api/page.tsx: USER_ENDPOINTS.
use wgtemporary_email.Base.{false, true, List, [], ◌∷◌}
use wgtemporary_email.Docs.Endpoints.{
  Endpoint, delete, get, post, body, header, path, query, param, token_param, endpoint,
}

abbrev pub user_endpoints : List Endpoint
user_endpoints =
    endpoint get "/api/v1/domains" "api.descDomains" [] "curl -X GET \"BASE/api/v1/domains\"" false
    ∷ endpoint post "/api/v1/addresses" "api.descCreateAddress"
        (param body "username" "username (optional)" ∷ param body "domain" "domain (optional)" ∷ [])
        "curl -X POST \"BASE/api/v1/addresses\" \\\n  -H \"Content-Type: application/json\" \\\n  -d '{\"username\": \"myemail\", \"domain\": \"example.com\"}'"
        false
    ∷ endpoint get "/api/v1/{token}/emails" "api.descListEmails"
        (token_param
          ∷ param query "page" "page (default 1)"
          ∷ param query "per_page" "per_page (max 100)"
          ∷ param query "unread_only" "unread_only (true/false)"
          ∷ param query "search" "search"
          ∷ [])
        "curl \"BASE/api/v1/{token}/emails?page=1&per_page=50&search=invoice\"" false
    ∷ endpoint get "/api/v1/{token}/emails/{email_id}" "api.descGetEmail"
        (token_param
          ∷ param path "email_id" "email_id"
          ∷ param query "mark_read" "mark_read (default true)"
          ∷ [])
        "curl \"BASE/api/v1/{token}/emails/{email_id}\"" false
    ∷ endpoint delete "/api/v1/{token}/emails/{email_id}" "api.descDeleteEmail"
        (token_param ∷ param path "email_id" "email_id" ∷ [])
        "curl -X DELETE \"BASE/api/v1/{token}/emails/{email_id}\"" true
    ∷ endpoint get "/api/v1/{token}/emails/{email_id}/raw" "api.descRawEmail"
        (token_param ∷ param path "email_id" "email_id" ∷ [])
        "curl \"BASE/api/v1/{token}/emails/{email_id}/raw\" -o message.eml" false
    ∷ endpoint get "/api/v1/health" "api.descHealth" [] "curl \"BASE/api/v1/health\"" false
    ∷ endpoint get "/api/v1/{token}/info" "api.descAddressInfo" (token_param ∷ [])
        "curl \"BASE/api/v1/{token}/info\"" false
    ∷ endpoint post "/api/v1/permanent-addresses" "api.descCreatePermanent"
        (param body "username" "username (required)" ∷ param body "domain" "domain (optional)" ∷ [])
        "curl -X POST \"BASE/api/v1/permanent-addresses\"" false
    ∷ endpoint post "/api/v1/api/addresses" "api.descCreatePermanentApi"
        (param header "X-API-Key" "integration API key (admin panel config)"
          ∷ param body "username" "username (required)"
          ∷ param body "domain" "domain (optional)"
          ∷ [])
        "curl -X POST \"BASE/api/v1/api/addresses\" -H \"X-API-Key: <integration key>\"" false
    ∷ endpoint get "/api/v1/{token}/emails/{email_id}/attachments/{attachment_id}"
        "api.descAttachment"
        (token_param
          ∷ param path "email_id" "email_id"
          ∷ param path "attachment_id" "attachment_id"
          ∷ [])
        "curl \"BASE/api/v1/{token}/emails/{email_id}/attachments/{attachment_id}\" -o file.bin"
        false
    ∷ []
