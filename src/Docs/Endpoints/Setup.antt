-- ===== src/Docs/Endpoints/Setup.antt =====
-- web/app/api/page.tsx: SETUP_ENDPOINTS.
use wgtemporary_email.Base.{false, true, List, [], ◌∷◌}
use wgtemporary_email.Docs.Endpoints.{Endpoint, get, post, body, param, endpoint}

abbrev pub setup_endpoints : List Endpoint
setup_endpoints =
    endpoint get "/api/v1/setup/status" "api.descSetupStatus" [] "curl \"BASE/api/v1/setup/status\""
      false
    ∷ endpoint post "/api/v1/setup/complete" "api.descSetupComplete"
        (param body "domains" "domains (comma separated, e.g. example.com,temp.example.com)"
          ∷ param body "hostname" "hostname (e.g. mail.example.com)"
          ∷ param body "setup_key" "setup key (from the api container log)"
          ∷ param body "web_hostname" "web_hostname (optional panel domain)"
          ∷ param body "admin_token" "admin_token (optional, auto-generated)"
          ∷ param body "address_lifetime_hours" "address_lifetime_hours (default 24)"
          ∷ param body "max_storage_mb" "max_storage_mb (0 = unlimited)"
          ∷ param body "allow_custom_usernames" "allow_custom_usernames (true/false)"
          ∷ [])
        "curl -X POST \"BASE/api/v1/setup/complete\" \\\n  -H \"Content-Type: application/json\" \\\n  -d '{\"domains\": [\"example.com\"], \"hostname\": \"mail.example.com\"}'"
        true
    ∷ []
