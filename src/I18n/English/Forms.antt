-- ===== src/I18n/English/Forms.antt =====
-- web/lib/i18n/en.ts: the texts of the set-up, the mailbox and the API page.
use wgtemporary_email.Base.{String, [], ◌∷◌}
use wgtemporary_email.Base.Dict.{Dict}

abbrev pub setup : Dict String
setup =
    ("setupTitle", "First-Time Setup")
    ∷ (
      "setupIntro",
      "Complete the following configuration before first use. Everything can be changed later in the admin panel.",
    )
    ∷ ("setupKeySection", "One-Time Setup Key")
    ∷ (
      "setupKeyDesc",
      "Printed by the server at startup: docker compose logs api | grep 'Setup key'. Required so an uninitialized instance cannot be taken over by a stranger.",
    )
    ∷ ("setupKeyPlaceholder", "Paste the setup key from the server log")
    ∷ ("domainsSection", "Receive Domains")
    ∷ ("domainsDesc", "The domains this service receives mail for (at least one), e.g. example.com")
    ∷ ("addDomain", "Add domain")
    ∷ ("hostnameSection", "Mail Server Hostname")
    ∷ (
      "hostnameDesc",
      "The hostname MX records point to. Its A record in DNS should point to this server.",
    )
    ∷ ("tokenSection", "Admin Token")
    ∷ (
      "tokenDesc",
      "The token for signing into the admin panel (/admin). Leave empty to auto-generate.",
    )
    ∷ ("tokenPlaceholder", "Leave empty to auto-generate")
    ∷ ("generate", "Generate")
    ∷ ("optionalSection", "Optional Settings")
    ∷ ("optionalDesc", "All of these can be changed later in the admin panel.")
    ∷ ("lifetimeLabel", "Address lifetime (hours)")
    ∷ ("storageLabel", "Storage cap (MB, 0 = unlimited)")
    ∷ ("allowCustom", "Allow users to choose custom usernames")
    ∷ ("serverIpLabel", "Server public IP (used to generate DNS hints)")
    ∷ ("serverIpPlaceholder", "e.g. 216.238.53.44")
    ∷ ("webHostnameLabel", "Panel access domain (optional)")
    ∷ (
      "webHostnameHint",
      "A proper domain for accessing the web panel, e.g. mail.example.com. Leave empty to use the mail hostname.",
    )
    ∷ ("webHostnamePlaceholder", "mail.example.com")
    ∷ ("saveBtn", "Save and finish setup")
    ∷ ("saving", "Saving...")
    ∷ ("needDomain", "Please enter at least one domain")
    ∷ ("needHostname", "Please enter the mail server hostname")
    ∷ ("networkError", "Network error, please try again")
    ∷ ("doneTitle", "Setup Complete")
    ∷ (
      "doneDesc",
      "The service is ready. Save the information below, then configure DNS as instructed.",
    )
    ∷ ("tokenLabel", "Admin panel token (shown only once, keep it safe)")
    ∷ ("copied", "Copied")
    ∷ ("copy", "Copy")
    ∷ ("dnsLabel", "DNS records to add")
    ∷ ("aRecord", "A record:")
    ∷ ("mxRecord", "MX record ({domain}):")
    ∷ ("ptrHint", "Also ask your VPS provider to set the reverse DNS (PTR) of {ip} to {hostname}.")
    ∷ ("yourServerIp", "your server IP")
    ∷ ("openSite", "Open user site")
    ∷ ("openAdmin", "Open admin panel")
    ∷ ("backendUnreachable", "Cannot reach the backend. Please make sure the service is running.")
    ∷ []

abbrev pub mailbox : Dict String
mailbox =
    ("title", "Permanent Mailbox")
    ∷ (
      "desc",
      "The mailbox address is kept forever. Emails are retained for 30 days by default - keep your access token safe.",
    )
    ∷ ("createTitle", "Create a permanent mailbox")
    ∷ ("usernamePlaceholder", "yourname")
    ∷ ("createBtn", "Create mailbox")
    ∷ ("creating", "Creating...")
    ∷ ("createdNote", "Created successfully! Save the access token now - it is shown only once:")
    ∷ ("copyToken", "Copy token")
    ∷ ("showToken", "Show token")
    ∷ ("hideToken", "Hide token")
    ∷ ("copied", "Copied")
    ∷ ("loginTitle", "Sign in to a permanent mailbox")
    ∷ ("tokenPlaceholder", "Enter the access token")
    ∷ ("loginBtn", "Sign in")
    ∷ ("logout", "Sign out")
    ∷ ("myEmail", "My mailbox: {email}")
    ∷ ("retentionNote", "Emails are kept for {days} days; the address itself never expires")
    ∷ ("noEmails", "No emails yet")
    ∷ ("noSubject", "(No subject)")
    ∷ ("new", "New")
    ∷ ("noContent", "No content")
    ∷ ("attachments", "Attachments")
    ∷ ("deleteEmail", "Delete this email")
    ∷ ("deleteConfirm", "Delete this email?")
    ∷ ("failedCreate", "Failed to create. Please try again.")
    ∷ ("failedLogin", "Invalid token or the mailbox does not exist")
    ∷ ("usernameTaken", "This username is already taken")
    ∷ ("needUsername", "Please enter a username")
    ∷ []

abbrev pub api : Dict String
api =
    ("apiTitle", "API Documentation")
    ∷ (
      "apiDesc",
      "Complete REST API reference for WGTemporaryEmail. Every read-only endpoint can be tested live with one click.",
    )
    ∷ ("invalidJson", "Invalid JSON body")
    ∷ ("baseUrlLabel", "Base URL")
    ∷ (
      "authUserNote",
      "User API: the access token is returned when creating an address (POST /api/v1/addresses). It is used in the URL path.",
    )
    ∷ (
      "authAdminNote",
      "Admin API: requires the admin token in the Authorization header: Bearer <admin.token>.",
    )
    ∷ ("publicSection", "User API (public)")
    ∷ ("adminSection", "Admin API (requires token)")
    ∷ ("setupSection", "Setup API")
    ∷ ("adminTokenPlaceholder", "Enter admin token (optional, for admin API tests)")
    ∷ ("runTest", "Run test")
    ∷ ("testing", "Testing...")
    ∷ ("copyResponse", "Copy response")
    ∷ ("copied", "Copied")
    ∷ ("response", "Response")
    ∷ ("params", "Parameters")
    ∷ ("example", "Example (curl)")
    ∷ ("descDomains", "List the domains available for creating addresses.")
    ∷ (
      "descCreateAddress",
      "Create a temporary address. Body: username (optional, 3-64 chars), domain (optional, must be configured).",
    )
    ∷ (
      "descListEmails",
      "List emails of an address. Query: page, per_page (max 100), unread_only, search.",
    )
    ∷ ("descGetEmail", "Get full email details. Query: mark_read=false to keep unread.")
    ∷ ("descDeleteEmail", "Delete an email of the address.")
    ∷ ("descRawEmail", "Download the raw RFC 5322 message (.eml).")
    ∷ ("descAttachment", "Download an attachment of the email.")
    ∷ ("descAdminStats", "System-wide statistics for the dashboard.")
    ∷ ("descAdminAddresses", "List all addresses. Query: page, per_page, search.")
    ∷ ("descAdminAddressDetail", "Get one address with its emails.")
    ∷ ("descAdminDeleteAddress", "Delete an address and all its emails. Destructive.")
    ∷ ("descAdminEmails", "List all received emails. Query: page, per_page, search.")
    ∷ ("descAdminEmailDetail", "Get full details of one email.")
    ∷ ("descAdminDeleteEmail", "Delete an email. Destructive.")
    ∷ ("descAdminDomains", "List configured domains with usage counts.")
    ∷ ("descAdminAddDomain", "Add a domain (hot-reloaded; MX picks it up within 15s).")
    ∷ ("descAdminRemoveDomain", "Remove a domain. Destructive.")
    ∷ ("descAdminConfig", "View the current configuration (secrets masked).")
    ∷ ("descAdminUpdateConfig", "Partially update whitelisted config keys (hot-reloaded).")
    ∷ (
      "descAdminCleanup",
      "Run expired-address cleanup and storage-cap enforcement now. Destructive.",
    )
    ∷ ("descSetupStatus", "Whether the first-run setup wizard has been completed.")
    ∷ (
      "descHealth",
      "Liveness probe: reports whether the service and database are up (no configuration details).",
    )
    ∷ (
      "descAddressInfo",
      "Return the mailbox bound to this token (address, type, created/expiry). Used to sign in to a permanent mailbox with just its token.",
    )
    ∷ (
      "descCreatePermanent",
      "Create a permanent mailbox (public, no authentication, rate limited). The address never expires; its emails are kept for the configured retention period. Returns the access token - save it.",
    )
    ∷ (
      "descCreatePermanentApi",
      "Create a permanent mailbox with the integration API key (X-API-Key header). Same result as the public route, but authenticated so it can be used by external systems.",
    )
    ∷ (
      "descTlsStatus",
      "Certificate status for the mail hostname and the panel: whether files exist, their expiry date and subject.",
    )
    ∷ (
      "descTlsIssue",
      "Ask the certbot sidecar to issue/renew a Let's Encrypt certificate (HTTP-01). Requires the hostnames to resolve here and port 80 to be reachable.",
    )
    ∷ (
      "descApiKeyStatus",
      "Whether an integration API key is configured (the key itself is never returned).",
    )
    ∷ (
      "descAdminPermanentList",
      "List permanent mailboxes with email count, unread count, storage and last delivery. Supports search, paging and sorting.",
    )
    ∷ (
      "descAdminPermanentStats",
      "Aggregate figures for all permanent mailboxes: totals, storage, retention window and the configured limit.",
    )
    ∷ (
      "descAdminPermanentCreate",
      "Create a permanent mailbox from the admin panel. Returns the access token once - it is the only way to read the mailbox later.",
    )
    ∷ (
      "descAdminPermanentPurge",
      "Delete every email of one permanent mailbox while keeping the address itself.",
    )
    ∷ (
      "descAdminPermanentRetention",
      "Run the retention job immediately: removes emails older than the configured retention period.",
    )
    ∷ (
      "descApiKeyRegenerate",
      "Generate a new integration API key. The previous key stops working immediately and the new one is shown only once.",
    )
    ∷ ("descSetupComplete", "Write the initial configuration. Only works before initialization.")
    ∷ ("chainTestNote", "Creates a new address, then lists its emails.")
    ∷ ("destructiveNote", "Destructive endpoints are documented but not one-click testable.")
    ∷ ("confirmDestructive", "This action will modify or delete data. Continue?")
    ∷ ("binaryResponse", "Binary response ({n} bytes) - cannot be displayed as text.")
    ∷ ("fillParams", "Fill in the parameters above and run the test.")
    ∷ ("testSuccess", "Success")
    ∷ ("testFailed", "Request failed")
    ∷ ("closeResponse", "Close")
    ∷ []
