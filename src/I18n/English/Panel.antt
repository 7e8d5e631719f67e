-- ===== src/I18n/English/Panel.antt =====
-- web/lib/i18n/en.ts: the texts of the panel, first half.
use wgtemporary_email.Base.{String, [], ◌∷◌}
use wgtemporary_email.Base.Dict.{Dict}

abbrev pub admin_first : Dict String
admin_first =
    ("adminPanel", "Admin Panel")
    ∷ ("dashboard", "Dashboard")
    ∷ ("emails", "Emails")
    ∷ ("addresses", "Addresses")
    ∷ ("domains", "Domains")
    ∷ ("config", "Configuration")
    ∷ ("cleanup", "Cleanup")
    ∷ ("userSite", "User Site")
    ∷ ("logout", "Sign out")
    ∷ ("loginTitle", "Admin Panel Login")
    ∷ ("loginDesc", "Enter the admin token from config.yaml")
    ∷ ("loginPlaceholder", "Admin token")
    ∷ ("loginBtn", "Sign in")
    ∷ ("loggingIn", "Signing in...")
    ∷ ("loginFailed", "Login failed. Check your network and try again.")
    ∷ ("wrongToken", "Invalid admin token, please check and try again")
    ∷ ("loginLocalNote", "The token is stored only in your browser, never sent to any third party")
    ∷ ("activeAddresses", "Active Addresses")
    ∷ ("totalAddressesSub", "{n} total")
    ∷ ("totalEmails", "Total Emails")
    ∷ ("unreadSub", "Unread {n}")
    ∷ ("emails24h", "Emails in 24h")
    ∷ ("attachmentsTotal", "Attachments")
    ∷ ("storageUsage", "Storage Usage")
    ∷ ("storageCap", "Cap {n} MB")
    ∷ ("storageNoCap", "No cap")
    ∷ ("uptime", "Uptime")
    ∷ ("lifetimeSub", "Address lifetime {n}h")
    ∷ ("dbHealthy", "DB Healthy")
    ∷ ("dbError", "DB Error")
    ∷ ("configuredDomains", "Configured Domains ({n})")
    ∷ ("noDomains", "No domains configured")
    ∷ ("recentEmails", "Recent Emails")
    ∷ ("recentAddresses", "Recent Addresses")
    ∷ ("viewAll", "View all")
    ∷ ("noEmails", "No emails")
    ∷ ("noAddresses", "No addresses")
    ∷ ("active", "Active")
    ∷ ("expired", "Expired")
    ∷ ("permanent", "Permanent")
    ∷ ("neverExpires", "Never expires")
    ∷ ("emailsCount", "{n} emails")
    ∷ ("createdSub", "Created {time}")
    ∷ ("noSubject", "(No subject)")
    ∷ ("subject", "Subject")
    ∷ ("fromCol", "From")
    ∷ ("toCol", "Recipient")
    ∷ ("timeCol", "Time")
    ∷ ("sizeCol", "Size")
    ∷ ("actionsCol", "Actions")
    ∷ ("statusCol", "Status")
    ∷ ("emailCol", "Email Address")
    ∷ ("emailCountCol", "Emails")
    ∷ ("unreadCol", "Unread")
    ∷ ("createdCol", "Created")
    ∷ ("expiresCol", "Expires")
    ∷ ("view", "View")
    ∷ ("delete", "Delete")
    ∷ ("search", "Search")
    ∷ ("prev", "Prev")
    ∷ ("next", "Next")
    ∷ ("pageOf", "Page {p} / {n}")
    ∷ ("totalItems", "{n} items total")
    ∷ ("loading", "Loading...")
    ∷ ("loadFailed", "Failed to load. Please try again.")
    ∷ ("sessionExpired", "Session expired, please sign in again")
    ∷ ("requestFailed", "Request failed ({status})")
    ∷ ("tooManyRequests", "Too many requests, please slow down")
    ∷ ("serverError", "Server error, please try again later")
    ∷ ("uptimeDaysHours", "{d}d {h}h")
    ∷ ("uptimeHoursMinutes", "{h}h {m}m")
    ∷ ("uptimeMinutes", "{m}m")
    ∷ ("new", "New")
    ∷ ("emailsTitle", "Email Management")
    ∷ ("searchEmailsPlaceholder", "Search subject / sender / recipient")
    ∷ ("deleteEmailConfirm", "Delete this email? This cannot be undone.")
    ∷ ("dkimPass", "DKIM Pass")
    ∷ ("dkimFail", "DKIM Fail")
    ∷ ("attachmentsN", "{n} attachment(s)")
    ∷ ("attachments", "Attachments")
    ∷ ("noContent", "No content")
    ∷ ("viewRawHeaders", "View raw headers")
    ∷ ("deleteThisEmail", "Delete this email")
    ∷ ("addressesTitle", "Address Management")
    ∷ ("mailboxes", "Permanent addresses")
    ∷ ("mbTitle", "Permanent address management")
    ∷ (
      "mbDesc",
      "Mailboxes that never expire: the address is kept forever, emails are removed after the retention period.",
    )
    ∷ ("mbTotal", "Mailboxes")
    ∷ ("mbEmails", "Emails")
    ∷ ("mbStorage", "Storage used")
    ∷ ("mbWithEmails", "{n} with emails")
    ∷ ("mbUnreadSub", "{n} unread")
    ∷ ("mbCap", "Limit {n}")
    ∷ ("mbCapUnlimited", "No limit configured")
    ∷ ("mbRetentionTitle", "Email retention")
    ∷ ("mbRetentionDays", "{n} days")
    ∷ ("mbRunRetention", "Run cleanup now")
    ∷ ("mbRetentionRan", "Retention cleanup removed {n} email(s).")
    ∷ ("mbCreateTitle", "Create a permanent address")
    ∷ (
      "mbCreateDesc",
      "The access token is shown once - hand it to the owner, it is the only way to read this mailbox.",
    )
    ∷ ("mbUsernamePlaceholder", "username")
    ∷ ("mbDomainPlaceholder", "domain")
    ∷ ("mbCreateBtn", "Create")
    ∷ ("mbCreating", "Creating...")
    ∷ ("mbNeedUsername", "Enter a username first.")
    ∷ ("mbCreated", "Created {email}")
    ∷ ("mbCreatedNote", "Save the access token now - it will not be shown again.")
    ∷ ("mbCopyToken", "Copy token")
    ∷ ("mbCopied", "Copied")
    ∷ ("mbCreatedDialogTitle", "Mailbox created")
    ∷ ("mbListTitle", "Mailboxes ({n})")
    ∷ ("mbSearchPlaceholder", "Search addresses...")
    ∷ ("mbSizeCol", "Size")
    ∷ ("mbLastEmailCol", "Last email")
    ∷ ("mbNever", "never")
    ∷ ("mbPurgeEmails", "Delete emails (keep address)")
    ∷ ("mbPurgeConfirm", "Delete all emails of {email}? The address itself is kept.")
    ∷ ("mbPurged", "Removed {n} email(s) from {email}.")
    ∷ ("mbDelete", "Delete mailbox")
    ∷ ("mbDeleteConfirm", "Delete {email}? The address and all its emails are removed permanently.")
    ∷ ("mbDeleted", "Deleted {email}.")
    ∷ ("mbNoMailboxes", "No permanent addresses yet")
    ∷ ("searchAddressesPlaceholder", "Search email address")
    ∷ ("createdExpiresSub", "Created {a} · Expires {b}")
    ∷ ("createdPermanentSub", "Created {a} · Permanent mailbox")
    ∷ ("emailsTotal", "{n} emails total")
    ∷ ("viewInEmails", "View in Email Management")
    ∷ ("deleteAddressBtn", "Delete this address and all its emails")
    ∷ []
