-- ===== src/I18n/English/PanelRest.antt =====
-- web/lib/i18n/en.ts: the texts of the panel, second half.
use wgtemporary_email.Base.{String, [], ◌∷◌}
use wgtemporary_email.Base.Dict.{Dict}

abbrev pub admin_rest : Dict String
admin_rest =
    (
      "deleteAddressConfirm",
      "Delete this address? All its emails will also be deleted. This cannot be undone.",
    )
    ∷ ("domainsTitle", "Domain Management")
    ∷ ("dnsCol", "DNS check")
    ∷ ("dnsCheck", "Check DNS")
    ∷ ("dnsChecking", "Checking…")
    ∷ ("dnsOk", "MX → {host} (ready)")
    ∷ ("dnsMismatch", "MX not pointing here: {found} (expected {expected})")
    ∷ ("dnsNone", "no MX record")
    ∷ ("dnsError", "DNS lookup failed: {err}")
    ∷ (
      "dnsHint",
      "Mail only arrives after the domain's MX record points here - check it after adding.",
    )
    ∷ ("addDomain", "Add domain")
    ∷ ("addDomainPlaceholder", "e.g. temp.example.com")
    ∷ ("add", "Add")
    ∷ (
      "domainDnsHint",
      "After adding, configure the MX record for this domain to point to this server, otherwise mail cannot be received.",
    )
    ∷ ("configuredDomainsTitle", "Configured Domains ({n})")
    ∷ ("domainCol", "Domain")
    ∷ ("addressCountCol", "Addresses")
    ∷ ("noDomainsConfigured", "No domains configured")
    ∷ ("cannotRemoveLast", "Cannot remove the last domain")
    ∷ ("removeDomain", "Remove domain")
    ∷ (
      "removeDomainConfirm",
      "Remove domain {domain}? Existing emails of its addresses are kept, but the MX server will stop accepting new mail for it.",
    )
    ∷ (
      "domainAdded",
      "Added domain {domain}. Effective for the API immediately and for the MX server within ~15s.",
    )
    ∷ ("domainRemoved", "Removed domain {domain} ({n} addresses affected).")
    ∷ ("addFailed", "Failed to add. Please try again.")
    ∷ ("removeFailed", "Failed to remove. Please try again.")
    ∷ ("configTitle", "System Configuration")
    ∷ (
      "configHotReloadNote",
      "Changes take effect immediately after saving (no restart needed). Comments in config.yaml are removed when rewritten.",
    )
    ∷ ("mailSection", "Mail & Addresses")
    ∷ ("mailSectionDesc", "tempmail / server settings")
    ∷ ("maxMsgSizeMb", "Max message size (MB)")
    ∷ ("addressLifetime", "Address lifetime (hours)")
    ∷ ("maxEmailsPerAddress", "Max emails per address")
    ∷ ("maxStorageMb", "Storage cap (MB, 0 = unlimited)")
    ∷ ("cleanupInterval", "Cleanup interval (hours)")
    ∷ ("rateLimitSection", "Rate limits (per IP, per minute)")
    ∷ (
      "rateLimitDesc",
      "0 disables a limit. Applies immediately; creation limits are per IP address, so several users behind one NAT share the same budget.",
    )
    ∷ ("rlAddressCreate", "Address creation / min")
    ∷ ("rlPermanentCreate", "Permanent mailbox creation / min")
    ∷ ("rlApiCreate", "Creation via API key / min")
    ∷ ("rlSetup", "Setup wizard / min")
    ∷ ("rlAdmin", "Admin API / min")
    ∷ ("rlEmailRead", "Mailbox reads & downloads / min")
    ∷ ("minUsernameLength", "Min username length")
    ∷ ("maxUsernameLength", "Max username length")
    ∷ (
      "storageCapHint",
      "0 = unlimited. When exceeded, the cleanup job deletes oldest emails first until under the cap.",
    )
    ∷ ("mailHostname", "Mail server hostname")
    ∷ (
      "hostnameHint",
      "Restart the MX container after changing this so the SMTP banner picks up the new hostname.",
    )
    ∷ ("tokenSection", "Admin Token")
    ∷ ("tokenSectionDesc", "After changing it you must sign in again with the new token")
    ∷ ("tokenPlaceholder", "Enter a new token (leave empty to keep current)")
    ∷ ("tokenHint", "At least 8 characters, 16+ recommended")
    ∷ ("switchesSection", "Feature Toggles")
    ∷ ("docsEnabled", "Enable API docs (/docs Swagger)")
    ∷ ("allowCustomUsernames", "Allow custom usernames")
    ∷ ("checkDkim", "Validate DKIM")
    ∷ ("checkSpf", "Validate SPF")
    ∷ ("checkDmarc", "Validate DMARC")
    ∷ ("storeResults", "Store validation results")
    ∷ ("databaseSection", "Database")
    ∷ ("poolSize", "Connection pool size")
    ∷ ("maxOverflow", "Pool max overflow")
    ∷ (
      "poolHint",
      "Note: pool_size / max_overflow require an API container restart to take effect (the pool is created at startup).",
    )
    ∷ ("corsSection", "CORS Allowed Origins")
    ∷ ("corsDesc", "One origin per line, * means allow all")
    ∷ ("saveReload", "Save & Hot Reload")
    ∷ ("saving", "Saving...")
    ∷ ("nothingToSave", "No changes to save")
    ∷ ("savedReloaded", "Configuration saved and hot-reloaded (no restart needed)")
    ∷ (
      "restartRequired",
      "Saved. Some changes (CORS, DB pool size, max message size) take effect after restarting the containers.",
    )
    ∷ ("currentConfigTitle", "Current full config (secrets masked)")
    ∷ ("saveFailed", "Save failed. Please try again.")
    ∷ ("intMinError", "Must be an integer >= {n}")
    ∷ ("tokenUpdated", "Admin token updated. Please sign in again with the new token.")
    ∷ ("apiKeyTitle", "Integration API Key")
    ∷ (
      "apiKeyDesc",
      "Used to create permanent mailboxes via the API (POST /api/v1/api/addresses with the X-API-Key header)",
    )
    ∷ ("apiKeyStatusConfigured", "Configured")
    ∷ ("apiKeyNotSet", "Not configured yet")
    ∷ ("apiKeyRegenerate", "Regenerate key")
    ∷ ("apiKeyNew", "New API key (shown only once, save it now):")
    ∷ ("apiKeyCopy", "Copy key")
    ∷ ("apiKeyConfirm", "Regenerate the API key? The old key stops working immediately.")
    ∷ ("tlsTitle", "TLS Certificate (Let's Encrypt)")
    ∷ ("tlsEnabledLabel", "Enable TLS/STARTTLS")
    ∷ ("tlsStatusLabel", "Status")
    ∷ ("tlsCertIssued", "Certificate issued")
    ∷ ("tlsCertNotIssued", "No certificate issued yet")
    ∷ ("tlsExpires", "Expires: {date}")
    ∷ ("tlsIssuer", "Issuer: {issuer}")
    ∷ ("tlsEmailLabel", "Notification email")
    ∷ ("tlsEmailPlaceholder", "admin@example.com")
    ∷ ("tlsIssueBtn", "Issue / renew certificate")
    ∷ ("tlsIssuing", "Issuing... (usually under a minute)")
    ∷ ("tlsIssueSubmitted", "Submitted - issuing certificate...")
    ∷ ("tlsIssueSuccess", "Certificate issued successfully. You can now enable TLS.")
    ∷ ("tlsIssueFailed", "Issuance failed: {msg}")
    ∷ ("tlsIssueBusy", "An issuance job is already running")
    ∷ (
      "tlsAutoRenewNote",
      "Certificates renew automatically (30 days before expiry); the MX server applies renewals without a restart.",
    )
    ∷ (
      "tlsHostnameNote",
      "The certificate is issued for the mail server hostname ({hostname}). Its A record must point to this server and port 80 must be publicly reachable.",
    )
    ∷ ("tlsJobRunning", "Issuance in progress...")
    ∷ ("tlsLastRenew", "Last renewal check: {date}")
    ∷ ("webHostnameLabel", "Panel access domain (web panel)")
    ∷ (
      "webHostnameHint",
      "Leave empty to access the panel via the mail hostname. The HTTPS certificate covers both names.",
    )
    ∷ (
      "mxHostnameNote",
      "This name is used for mail routing (the DNS MX record points to it). Do not use it as the panel access address - set a proper access domain below instead.",
    )
    ∷ (
      "webHostnameEmptyNote",
      "No panel access domain set yet. It is recommended to access the panel via a proper domain (e.g. mail.example.com) instead of the MX hostname.",
    )
    ∷ (
      "webHostnameUpdated",
      "Saved. Remember to add the DNS A record for this domain and re-issue the certificate.",
    )
    ∷ ("allowIpAccessLabel", "Allow accessing the user panel via IP / other domains")
    ∷ (
      "allowIpAccessHint",
      "When off, requests from non-official domains or IPs are redirected to the official domain. The admin panel and API always stay reachable from any address to prevent lockouts.",
    )
    ∷ ("httpsUrl", "Panel HTTPS: https://{host}")
    ∷ ("certCovers", "Certificate covers: {domains}")
    ∷ ("cleanupTitle", "Data Cleanup")
    ∷ ("cleanupCardTitle", "Manual cleanup of expired addresses")
    ∷ (
      "cleanupDesc",
      "The system cleans up automatically every {h} hours: expired addresses plus the oldest emails exceeding the storage cap ({m} MB, 0 = unlimited). You can also run it once now.",
    )
    ∷ ("currentAddresses", "{total} addresses total, {active} active.")
    ∷ ("runNow", "Clean up now")
    ∷ ("cleaning", "Cleaning...")
    ∷ ("cleanupDone", "Cleanup completed ({time})")
    ∷ ("deletedAddresses", "Expired addresses deleted: {n}")
    ∷ ("deletedEmails", "Emails deleted by storage cap: {n}")
    ∷ ("storageChanged", "Storage: {a} → {b}")
    ∷ ("cleanupFailed", "Cleanup failed. Please try again.")
    ∷ (
      "cleanupConfirm",
      "Run expired-address cleanup now? All expired addresses and their emails will be deleted.",
    )
    ∷ (
      "autoCleanupRetention",
      "Permanent mailboxes: emails older than {d} days are deleted automatically",
    )
    ∷ ("retentionDeletedEmails", "Emails deleted by retention: {n}")
    ∷ ("autoCleanupTitle", "Automatic cleanup")
    ∷ (
      "autoCleanupMail",
      "Mail data: expired addresses (every {h}h) and the oldest emails exceeding the storage cap ({m} MB)",
    )
    ∷ (
      "autoCleanupLogs",
      "Container logs: rotated automatically per container (10 MB x 3 files, 30 MB max)",
    )
    ∷ ("autoCleanupBuild", "Docker build cache: cleaned weekly")
    ∷ ("autoCleanupApt", "apt cache: cleaned monthly")
    ∷ ("autoCleanupJournald", "System logs (journald): capped at 200 MB")
    ∷ []
