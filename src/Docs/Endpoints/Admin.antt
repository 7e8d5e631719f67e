-- ===== src/Docs/Endpoints/Admin.antt =====
-- web/app/api/page.tsx: ADMIN_ENDPOINTS.
use wgtemporary_email.Base.{false, true, List, [], ◌∷◌}
use wgtemporary_email.Docs.Endpoints.{
  Endpoint, delete, get, post, put, body, body_text, path, query, param, endpoint,
}

abbrev pub admin_endpoints : List Endpoint
admin_endpoints =
    endpoint get "/api/v1/admin/stats" "api.descAdminStats" []
      "curl -H \"Authorization: Bearer <admin.token>\" \"BASE/api/v1/admin/stats\"" false
    ∷ endpoint get "/api/v1/admin/addresses" "api.descAdminAddresses"
        (param query "page" "page (default 1)"
          ∷ param query "per_page" "per_page (max 100)"
          ∷ param query "search" "search"
          ∷ [])
        "curl -H \"Authorization: Bearer <admin.token>\" \"BASE/api/v1/admin/addresses?page=1&per_page=20\""
        false
    ∷ endpoint get "/api/v1/admin/addresses/{id}" "api.descAdminAddressDetail"
        (param path "id" "address id" ∷ [])
        "curl -H \"Authorization: Bearer <admin.token>\" \"BASE/api/v1/admin/addresses/{id}\"" false
    ∷ endpoint delete "/api/v1/admin/addresses/{id}" "api.descAdminDeleteAddress"
        (param path "id" "address id" ∷ [])
        "curl -X DELETE -H \"Authorization: Bearer <admin.token>\" \"BASE/api/v1/admin/addresses/{id}\""
        true
    ∷ endpoint get "/api/v1/admin/emails" "api.descAdminEmails"
        (param query "page" "page (default 1)"
          ∷ param query "per_page" "per_page (max 100)"
          ∷ param query "search" "search"
          ∷ [])
        "curl -H \"Authorization: Bearer <admin.token>\" \"BASE/api/v1/admin/emails?page=1&per_page=20\""
        false
    ∷ endpoint get "/api/v1/admin/emails/{id}" "api.descAdminEmailDetail"
        (param path "id" "email id" ∷ [])
        "curl -H \"Authorization: Bearer <admin.token>\" \"BASE/api/v1/admin/emails/{id}\"" false
    ∷ endpoint delete "/api/v1/admin/emails/{id}" "api.descAdminDeleteEmail"
        (param path "id" "email id" ∷ [])
        "curl -X DELETE -H \"Authorization: Bearer <admin.token>\" \"BASE/api/v1/admin/emails/{id}\""
        true
    ∷ endpoint get "/api/v1/admin/domains" "api.descAdminDomains" []
        "curl -H \"Authorization: Bearer <admin.token>\" \"BASE/api/v1/admin/domains\"" false
    ∷ endpoint post "/api/v1/admin/domains" "api.descAdminAddDomain"
        (param body "domain" "domain (e.g. temp.example.com)" ∷ [])
        "curl -X POST -H \"Authorization: Bearer <admin.token>\" \\\n  -H \"Content-Type: application/json\" \\\n  -d '{\"domain\": \"temp.example.com\"}' \"BASE/api/v1/admin/domains\""
        true
    ∷ endpoint delete "/api/v1/admin/domains/{domain}" "api.descAdminRemoveDomain"
        (param path "domain" "domain" ∷ [])
        "curl -X DELETE -H \"Authorization: Bearer <admin.token>\" \"BASE/api/v1/admin/domains/{domain}\""
        true
    ∷ endpoint get "/api/v1/admin/config" "api.descAdminConfig" []
        "curl -H \"Authorization: Bearer <admin.token>\" \"BASE/api/v1/admin/config\"" false
    ∷ endpoint put "/api/v1/admin/config" "api.descAdminUpdateConfig"
        (param body_text "patch" "{\"tempmail\": {\"address_lifetime_hours\": 48}}" ∷ [])
        "curl -X PUT -H \"Authorization: Bearer <admin.token>\" \\\n  -H \"Content-Type: application/json\" \\\n  -d '{\"tempmail\": {\"address_lifetime_hours\": 48}}' \"BASE/api/v1/admin/config\""
        true
    ∷ endpoint post "/api/v1/admin/cleanup/run" "api.descAdminCleanup" []
        "curl -X POST -H \"Authorization: Bearer <admin.token>\" \"BASE/api/v1/admin/cleanup/run\""
        true
    ∷ endpoint get "/api/v1/admin/tls/status" "api.descTlsStatus" []
        "curl -H \"Authorization: Bearer <admin.token>\" \"BASE/api/v1/admin/tls/status\"" false
    ∷ endpoint post "/api/v1/admin/tls/issue" "api.descTlsIssue"
        (param body "email" "email (Let's Encrypt contact)" ∷ [])
        "curl -X POST -H \"Authorization: Bearer <admin.token>\" \"BASE/api/v1/admin/tls/issue\""
        true
    ∷ endpoint get "/api/v1/admin/apikey/status" "api.descApiKeyStatus" []
        "curl -H \"Authorization: Bearer <admin.token>\" \"BASE/api/v1/admin/apikey/status\"" false
    ∷ endpoint get "/api/v1/admin/permanent-addresses" "api.descAdminPermanentList"
        (param query "page" "page (default 1)"
          ∷ param query "per_page" "per_page (max 100)"
          ∷ param query "search" "search"
          ∷ param query "sort" "sort: created | emails | email"
          ∷ [])
        "curl -H \"Authorization: Bearer <admin.token>\" \"BASE/api/v1/admin/permanent-addresses?page=1&per_page=20\""
        false
    ∷ endpoint get "/api/v1/admin/permanent-addresses/stats" "api.descAdminPermanentStats" []
        "curl -H \"Authorization: Bearer <admin.token>\" \"BASE/api/v1/admin/permanent-addresses/stats\""
        false
    ∷ endpoint post "/api/v1/admin/permanent-addresses" "api.descAdminPermanentCreate"
        (param body "username" "username (required)" ∷ param body "domain" "domain (optional)" ∷ [])
        "curl -X POST -H \"Authorization: Bearer <admin.token>\" \"BASE/api/v1/admin/permanent-addresses\""
        true
    ∷ endpoint post "/api/v1/admin/permanent-addresses/{id}/purge-emails"
        "api.descAdminPermanentPurge" (param path "id" "address id" ∷ [])
        "curl -X POST -H \"Authorization: Bearer <admin.token>\" \"BASE/api/v1/admin/permanent-addresses/{id}/purge-emails\""
        true
    ∷ endpoint post "/api/v1/admin/permanent-addresses/run-retention"
        "api.descAdminPermanentRetention" []
        "curl -X POST -H \"Authorization: Bearer <admin.token>\" \"BASE/api/v1/admin/permanent-addresses/run-retention\""
        true
    ∷ endpoint post "/api/v1/admin/apikey/regenerate" "api.descApiKeyRegenerate" []
        "curl -X POST -H \"Authorization: Bearer <admin.token>\" \"BASE/api/v1/admin/apikey/regenerate\""
        true
    ∷ []
