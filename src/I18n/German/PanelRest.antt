-- ===== src/I18n/German/PanelRest.antt =====
-- web/lib/i18n/extra-dept.ts: the German texts of the panel, second half.
use wgtemporary_email.Base.{String, [], ◌∷◌}
use wgtemporary_email.Base.Dict.{Dict}

abbrev pub de_admin_rest : Dict String
de_admin_rest =
    (
      "deleteAddressConfirm",
      "Diese Adresse löschen? Alle ihre E-Mails werden ebenfalls gelöscht. Nicht umkehrbar.",
    )
    ∷ ("domainsTitle", "Domain-Verwaltung")
    ∷ ("dnsCol", "DNS-Prüfung")
    ∷ ("dnsCheck", "DNS prüfen")
    ∷ ("dnsChecking", "Prüfe…")
    ∷ ("dnsOk", "MX zeigt auf {host} (bereit)")
    ∷ ("dnsMismatch", "MX zeigt nicht hierher: {found} (erwartet {expected})")
    ∷ ("dnsNone", "kein MX-Eintrag")
    ∷ ("dnsError", "DNS-Abfrage fehlgeschlagen: {err}")
    ∷ (
      "dnsHint",
      "E-Mails kommen erst an, wenn der MX-Eintrag hierher zeigt - nach dem Hinzufügen prüfen.",
    )
    ∷ ("addDomain", "Domain hinzufügen")
    ∷ ("addDomainPlaceholder", "z. B. temp.example.com")
    ∷ ("add", "Hinzufügen")
    ∷ (
      "domainDnsHint",
      "Nach dem Hinzufügen den MX-Record dieser Domain auf diesen Server zeigen lassen, sonst kann keine Post empfangen werden.",
    )
    ∷ ("configuredDomainsTitle", "Konfigurierte Domains ({n})")
    ∷ ("domainCol", "Domain")
    ∷ ("addressCountCol", "Adressen")
    ∷ ("noDomainsConfigured", "Keine Domains konfiguriert")
    ∷ ("cannotRemoveLast", "Die letzte Domain kann nicht entfernt werden")
    ∷ ("removeDomain", "Domain entfernen")
    ∷ (
      "removeDomainConfirm",
      "Domain {domain} entfernen? Bestehende E-Mails bleiben erhalten, aber der MX nimmt keine neue Post für sie mehr an.",
    )
    ∷ (
      "domainAdded", "Domain {domain} hinzugefügt. Für die API sofort, für den MX in ~15s wirksam.",
    )
    ∷ ("domainRemoved", "Domain {domain} entfernt ({n} Adressen betroffen).")
    ∷ ("addFailed", "Hinzufügen fehlgeschlagen. Erneut versuchen.")
    ∷ ("removeFailed", "Entfernen fehlgeschlagen. Erneut versuchen.")
    ∷ ("configTitle", "Systemkonfiguration")
    ∷ (
      "configHotReloadNote",
      "Änderungen werden beim Speichern sofort wirksam (kein Neustart). Kommentare in config.yaml gehen beim Umschreiben verloren.",
    )
    ∷ ("mailSection", "E-Mail & Adressen")
    ∷ ("mailSectionDesc", "tempmail / server Einstellungen")
    ∷ ("maxMsgSizeMb", "Max. Nachrichtengröße (MB)")
    ∷ ("addressLifetime", "Adresslebensdauer (Stunden)")
    ∷ ("maxEmailsPerAddress", "Max. E-Mails pro Adresse")
    ∷ ("maxStorageMb", "Speicherlimit (MB, 0 = unbegrenzt)")
    ∷ ("cleanupInterval", "Bereinigungsintervall (Stunden)")
    ∷ ("rateLimitSection", "Ratenlimits (pro IP, pro Minute)")
    ∷ (
      "rateLimitDesc",
      "0 deaktiviert das Limit. Wirkt sofort; Erstell-Limits gelten pro IP-Adresse, mehrere Nutzer hinter einem NAT teilen sich das Kontingent.",
    )
    ∷ ("rlAddressCreate", "Adresserstellung / Min")
    ∷ ("rlPermanentCreate", "Dauerhafte Postfächer / Min")
    ∷ ("rlApiCreate", "Erstellung per API-Schlüssel / Min")
    ∷ ("rlSetup", "Einrichtungsassistent / Min")
    ∷ ("rlAdmin", "Admin-API / Min")
    ∷ ("rlEmailRead", "Postfach-Lesezugriffe / Min")
    ∷ ("minUsernameLength", "Min. Benutzernamenlänge")
    ∷ ("maxUsernameLength", "Max. Benutzernamenlänge")
    ∷ (
      "storageCapHint",
      "0 = unbegrenzt. Bei Überschreitung werden die ältesten E-Mails zuerst gelöscht.",
    )
    ∷ ("mailHostname", "Hostname des Mailservers")
    ∷ (
      "hostnameHint",
      "Nach der Änderung den MX-Container neu starten, damit das SMTP-Banner den neuen Hostnamen nutzt.",
    )
    ∷ ("tokenSection", "Admin-Token")
    ∷ ("tokenSectionDesc", "Nach der Änderung mit dem neuen Token neu anmelden")
    ∷ ("tokenPlaceholder", "Neuen Token eingeben (leer = unverändert)")
    ∷ ("tokenHint", "Mindestens 8 Zeichen, 16+ empfohlen")
    ∷ ("switchesSection", "Funktionsschalter")
    ∷ ("docsEnabled", "API-Dokumentation aktivieren (/docs Swagger)")
    ∷ ("allowCustomUsernames", "Benutzerdefinierte Benutzernamen erlauben")
    ∷ ("checkDkim", "DKIM prüfen")
    ∷ ("checkSpf", "SPF prüfen")
    ∷ ("checkDmarc", "DMARC prüfen")
    ∷ ("storeResults", "Prüfergebnisse speichern")
    ∷ ("databaseSection", "Datenbank")
    ∷ ("poolSize", "Verbindungspool-Größe")
    ∷ ("maxOverflow", "Pool Max-Overflow")
    ∷ (
      "poolHint",
      "Hinweis: pool_size / max_overflow erfordern einen Neustart des API-Containers (Pool wird beim Start erstellt).",
    )
    ∷ ("corsSection", "Erlaubte CORS-Origins")
    ∷ ("corsDesc", "Ein Origin pro Zeile, * erlaubt alle")
    ∷ ("saveReload", "Speichern & neu laden")
    ∷ ("saving", "Wird gespeichert...")
    ∷ ("nothingToSave", "Keine Änderungen zum Speichern")
    ∷ ("savedReloaded", "Konfiguration gespeichert und ohne Neustart neu geladen")
    ∷ (
      "restartRequired",
      "Gespeichert. Einige Änderungen (CORS, DB-Pool, maximale Nachrichtengröße) greifen erst nach einem Neustart der Container.",
    )
    ∷ ("currentConfigTitle", "Aktuelle Gesamtkonfiguration (Geheimnisse maskiert)")
    ∷ ("saveFailed", "Speichern fehlgeschlagen. Erneut versuchen.")
    ∷ ("intMinError", "Muss eine Ganzzahl >= {n} sein")
    ∷ ("tokenUpdated", "Admin-Token aktualisiert. Bitte mit dem neuen Token neu anmelden.")
    ∷ ("apiKeyTitle", "Integrations-API-Key")
    ∷ (
      "apiKeyDesc",
      "Wird verwendet, um permanente Mailboxen per API zu erstellen (POST /api/v1/api/addresses mit X-API-Key-Header)",
    )
    ∷ ("apiKeyStatusConfigured", "Konfiguriert")
    ∷ ("apiKeyNotSet", "Nicht konfiguriert")
    ∷ ("apiKeyRegenerate", "Key neu generieren")
    ∷ ("apiKeyNew", "Neuer API-Key (wird nur einmal angezeigt, jetzt speichern):")
    ∷ ("apiKeyCopy", "Key kopieren")
    ∷ ("apiKeyConfirm", "API-Key neu generieren? Der alte Key wird sofort ungültig.")
    ∷ ("tlsTitle", "TLS-Zertifikat (Let's Encrypt)")
    ∷ ("tlsEnabledLabel", "TLS/STARTTLS aktivieren")
    ∷ ("tlsStatusLabel", "Status")
    ∷ ("tlsCertIssued", "Zertifikat ausgestellt")
    ∷ ("tlsCertNotIssued", "Noch kein Zertifikat")
    ∷ ("tlsExpires", "Läuft ab: {date}")
    ∷ ("tlsIssuer", "Aussteller: {issuer}")
    ∷ ("tlsEmailLabel", "Benachrichtigungs-E-Mail")
    ∷ ("tlsEmailPlaceholder", "admin@example.com")
    ∷ ("tlsIssueBtn", "Zertifikat ausstellen / erneuern")
    ∷ ("tlsIssuing", "Ausstellung läuft… (meist <1 Min.)")
    ∷ ("tlsIssueSubmitted", "Auftrag übermittelt…")
    ∷ ("tlsIssueSuccess", "Zertifikat erfolgreich ausgestellt. TLS kann jetzt aktiviert werden.")
    ∷ ("tlsIssueFailed", "Ausstellung fehlgeschlagen: {msg}")
    ∷ ("tlsIssueBusy", "Es läuft bereits eine Ausstellung")
    ∷ (
      "tlsAutoRenewNote",
      "Zertifikate werden automatisch erneuert (30 Tage vor Ablauf); der MX übernimmt Erneuerungen ohne Neustart.",
    )
    ∷ (
      "tlsHostnameNote",
      "Das Zertifikat wird für den Hostnamen des Mailservers ({hostname}) ausgestellt. Der A-Record muss auf diesen Server zeigen und Port 80 öffentlich erreichbar sein.",
    )
    ∷ ("tlsJobRunning", "Ausstellung läuft…")
    ∷ ("tlsLastRenew", "Letzte Erneuerungsprüfung: {date}")
    ∷ ("webHostnameLabel", "Panel-Zugriffsdomain")
    ∷ (
      "webHostnameHint",
      "Leer = Panel-Zugriff über den Mail-Hostnamen. Das HTTPS-Zertifikat deckt beide Namen ab.",
    )
    ∷ (
      "mxHostnameNote",
      "Dieser Name dient dem Mail-Routing (der MX-Record zeigt darauf). Nicht als Panel-Adresse verwenden - unten eine eigene Zugriffsdomain einrichten.",
    )
    ∷ (
      "webHostnameEmptyNote",
      "Noch keine Panel-Zugriffsdomain gesetzt. Bitte über eine ordentliche Domain (z. B. mail.example.com) statt über den MX-Hostnamen zugreifen.",
    )
    ∷ (
      "webHostnameUpdated",
      "Gespeichert. Bitte den A-Record der Domain anlegen und das Zertifikat neu ausstellen.",
    )
    ∷ ("allowIpAccessLabel", "Zugriff auf den Nutzerbereich per IP / anderen Domains erlauben")
    ∷ (
      "allowIpAccessHint",
      "Aus = Zugriffe über fremde Domains oder IPs werden auf die offizielle Domain umgeleitet. Admin-Panel und API bleiben von jeder Adresse erreichbar, damit man sich nicht aussperrt.",
    )
    ∷ ("httpsUrl", "Panel HTTPS: https://{host}")
    ∷ ("certCovers", "Zertifikat deckt ab: {domains}")
    ∷ ("cleanupTitle", "Datenbereinigung")
    ∷ ("cleanupCardTitle", "Manuelle Bereinigung abgelaufener Adressen")
    ∷ (
      "cleanupDesc",
      "Das System bereinigt automatisch alle {h} Stunden: abgelaufene Adressen sowie die ältesten E-Mails über dem Speicherlimit ({m} MB, 0 = unbegrenzt). Du kannst es auch jetzt einmal ausführen.",
    )
    ∷ ("currentAddresses", "{total} Adressen gesamt, {active} aktiv.")
    ∷ ("runNow", "Jetzt bereinigen")
    ∷ ("cleaning", "Bereinigung...")
    ∷ ("cleanupDone", "Bereinigung abgeschlossen ({time})")
    ∷ ("deletedAddresses", "Gelöschte abgelaufene Adressen: {n}")
    ∷ ("deletedEmails", "Durch Speicherlimit gelöschte E-Mails: {n}")
    ∷ ("storageChanged", "Speicher: {a} → {b}")
    ∷ ("cleanupFailed", "Bereinigung fehlgeschlagen. Erneut versuchen.")
    ∷ (
      "cleanupConfirm",
      "Bereinigung abgelaufener Adressen jetzt ausführen? Alle abgelaufenen Adressen und ihre E-Mails werden gelöscht.",
    )
    ∷ (
      "autoCleanupRetention",
      "Permanente Mailboxen: E-Mails älter als {d} Tage werden automatisch gelöscht",
    )
    ∷ ("retentionDeletedEmails", "Durch Aufbewahrungsfrist gelöschte E-Mails: {n}")
    ∷ ("autoCleanupTitle", "Automatische Bereinigung")
    ∷ (
      "autoCleanupMail",
      "Mail-Daten: abgelaufene Adressen (alle {h}h) und älteste E-Mails über dem Limit ({m} MB)",
    )
    ∷ (
      "autoCleanupLogs",
      "Container-Logs: automatische Rotation pro Container (10 MB × 3, max. 30 MB)",
    )
    ∷ ("autoCleanupBuild", "Docker-Build-Cache: wöchentliche Bereinigung")
    ∷ ("autoCleanupApt", "apt-Cache: monatliche Bereinigung")
    ∷ ("autoCleanupJournald", "Systemlogs (journald): auf 200 MB begrenzt")
    ∷ []
