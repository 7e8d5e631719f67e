-- ===== src/I18n/German/Forms.antt =====
-- web/lib/i18n/extra-dept.ts: the German texts of the set-up, the API page
-- and the banner.
use wgtemporary_email.Base.{String, [], ◌∷◌}
use wgtemporary_email.Base.Dict.{Dict}

abbrev pub de_banner : Dict String
de_banner =
    ("text", "Sie greifen gerade über {host} zu. Empfohlen wird die offizielle Domain:")
    ∷ ("goto", "Wechseln")
    ∷ ("dismiss", "Nicht mehr anzeigen")
    ∷ []

abbrev pub de_setup : Dict String
de_setup =
    ("setupTitle", "Erstkonfiguration")
    ∷ (
      "setupIntro",
      "Schließe vor der ersten Nutzung die folgende Konfiguration ab. Alles kann später im Admin-Panel geändert werden.",
    )
    ∷ ("setupKeySection", "Einmaliger Setup-Schlüssel")
    ∷ (
      "setupKeyDesc",
      "Wird beim Start vom Server ausgegeben: docker compose logs api | grep 'Setup key'. Verhindert, dass eine nicht initialisierte Instanz von Dritten übernommen wird.",
    )
    ∷ ("setupKeyPlaceholder", "Setup-Schlüssel aus dem Server-Log einfügen")
    ∷ ("domainsSection", "Empfangsdomains")
    ∷ (
      "domainsDesc",
      "Die Domains, für die dieser Dienst Post empfängt (mindestens eine), z. B. example.com",
    )
    ∷ ("addDomain", "Domain hinzufügen")
    ∷ ("hostnameSection", "Hostname des Mailservers")
    ∷ (
      "hostnameDesc",
      "Der Name, auf den MX-Records zeigen. Sein A-Record im DNS muss auf diesen Server zeigen",
    )
    ∷ ("tokenSection", "Admin-Token")
    ∷ ("tokenDesc", "Token für die Anmeldung am Admin-Panel (/admin). Leer = automatisch generiert")
    ∷ ("tokenPlaceholder", "Leer = automatisch generiert")
    ∷ ("generate", "Generieren")
    ∷ ("optionalSection", "Optionale Einstellungen")
    ∷ ("optionalDesc", "Alles kann später im Admin-Panel geändert werden")
    ∷ ("lifetimeLabel", "Adresslebensdauer (Stunden)")
    ∷ ("storageLabel", "Speicherlimit (MB, 0 = unbegrenzt)")
    ∷ ("allowCustom", "Benutzerdefinierte Benutzernamen erlauben")
    ∷ ("serverIpLabel", "Öffentliche Server-IP (für DNS-Hinweise)")
    ∷ ("serverIpPlaceholder", "z. B. 216.238.53.44")
    ∷ ("webHostnameLabel", "Panel-Zugriffsdomain (optional)")
    ∷ (
      "webHostnameHint",
      "Offizielle Domain für den Web-Panel-Zugriff, z. B. mail.example.com. Leer = Mail-Hostname wird verwendet.",
    )
    ∷ ("webHostnamePlaceholder", "mail.example.com")
    ∷ ("saveBtn", "Speichern und abschließen")
    ∷ ("saving", "Wird gespeichert...")
    ∷ ("needDomain", "Bitte mindestens eine Domain angeben")
    ∷ ("needHostname", "Bitte den Hostname des Mailservers angeben")
    ∷ ("networkError", "Netzwerkfehler, bitte erneut versuchen")
    ∷ ("doneTitle", "Einrichtung abgeschlossen")
    ∷ (
      "doneDesc",
      "Der Dienst ist bereit. Speichere die folgenden Informationen und konfiguriere dann das DNS.",
    )
    ∷ ("tokenLabel", "Admin-Panel-Token (wird nur einmal angezeigt, gut aufbewahren)")
    ∷ ("copied", "Kopiert")
    ∷ ("copy", "Kopieren")
    ∷ ("dnsLabel", "Hinzuzufügende DNS-Records")
    ∷ ("aRecord", "A-Record:")
    ∷ ("mxRecord", "MX-Record ({domain}):")
    ∷ (
      "ptrHint",
      "Bitte auch den VPS-Anbieter bitten, das Reverse-DNS (PTR) von {ip} auf {hostname} zu setzen.",
    )
    ∷ ("yourServerIp", "deine Server-IP")
    ∷ ("openSite", "Nutzerbereich öffnen")
    ∷ ("openAdmin", "Admin-Panel öffnen")
    ∷ ("backendUnreachable", "Backend nicht erreichbar. Bitte prüfen, ob der Dienst läuft.")
    ∷ []

abbrev pub de_api : Dict String
de_api =
    ("apiTitle", "API-Dokumentation")
    ∷ (
      "apiDesc",
      "Vollständige REST-API-Referenz für WGTemporaryEmail. Alle schreibgeschützten Endpoints können mit einem Klick live getestet werden.",
    )
    ∷ ("invalidJson", "Ungültiges JSON")
    ∷ ("baseUrlLabel", "Basis-URL")
    ∷ (
      "authUserNote",
      "Nutzer-API: Der Zugriffstoken wird beim Erstellen einer Adresse zurückgegeben (POST /api/v1/addresses) und im URL-Pfad verwendet.",
    )
    ∷ (
      "authAdminNote",
      "Admin-API: Erfordert den Admin-Token im Header: Authorization: Bearer <admin.token>.",
    )
    ∷ ("publicSection", "Nutzer-API (öffentlich)")
    ∷ ("adminSection", "Admin-API (Token erforderlich)")
    ∷ ("setupSection", "Einrichtungs-API")
    ∷ ("adminTokenPlaceholder", "Admin-Token eingeben (optional, für Admin-API-Tests)")
    ∷ ("runTest", "Test ausführen")
    ∷ ("testing", "Test läuft...")
    ∷ ("copyResponse", "Antwort kopieren")
    ∷ ("copied", "Kopiert")
    ∷ ("response", "Antwort")
    ∷ ("params", "Parameter")
    ∷ ("example", "Beispiel (curl)")
    ∷ ("descDomains", "Listet die für die Adresserstellung verfügbaren Domains auf.")
    ∷ (
      "descCreateAddress",
      "Erstellt eine temporäre Adresse. Body: username (optional, 3-64), domain (optional, muss konfiguriert sein).",
    )
    ∷ (
      "descListEmails",
      "Listet die E-Mails einer Adresse. Query: page, per_page (max. 100), unread_only, search.",
    )
    ∷ ("descGetEmail", "Volle E-Mail-Details. Query: mark_read=false lässt sie ungelesen.")
    ∷ ("descDeleteEmail", "Löscht eine E-Mail der Adresse.")
    ∷ ("descRawEmail", "Lädt die originale RFC-5322-Nachricht (.eml) herunter.")
    ∷ ("descAttachment", "Lädt einen Anhang der E-Mail herunter.")
    ∷ ("descAdminStats", "Systemweite Statistiken für das Dashboard.")
    ∷ ("descAdminAddresses", "Listet alle Adressen. Query: page, per_page, search.")
    ∷ ("descAdminAddressDetail", "Holt eine Adresse samt ihren E-Mails.")
    ∷ ("descAdminDeleteAddress", "Löscht eine Adresse und alle ihre E-Mails. Destruktiv.")
    ∷ ("descAdminEmails", "Listet alle empfangenen E-Mails. Query: page, per_page, search.")
    ∷ ("descAdminEmailDetail", "Volle Details einer E-Mail.")
    ∷ ("descAdminDeleteEmail", "Löscht eine E-Mail. Destruktiv.")
    ∷ ("descAdminDomains", "Listet konfigurierte Domains mit Nutzungsstatistiken.")
    ∷ ("descAdminAddDomain", "Fügt eine Domain hinzu (Hot-Reload, MX übernimmt sie in 15s).")
    ∷ ("descAdminRemoveDomain", "Entfernt eine Domain. Destruktiv.")
    ∷ ("descAdminConfig", "Zeigt die aktuelle Konfiguration (Geheimnisse maskiert).")
    ∷ (
      "descAdminUpdateConfig",
      "Aktualisiert teilweise erlaubte Konfigurationsschlüssel (Hot-Reload).",
    )
    ∷ (
      "descAdminCleanup",
      "Führt Bereinigung abgelaufener Adressen und Speicherlimit sofort aus. Destruktiv.",
    )
    ∷ ("descSetupStatus", "Ob der Erstkonfigurations-Assistent abgeschlossen ist.")
    ∷ (
      "descHealth",
      "Liveness-Prüfung: meldet nur, ob Dienst und Datenbank laufen (keine Konfigurationsdetails).",
    )
    ∷ (
      "descAddressInfo",
      "Liefert das zu diesem Token gehörende Postfach (Adresse, Typ, Erstellung/Ablauf). Wird für die Anmeldung am dauerhaften Postfach nur mit Token genutzt.",
    )
    ∷ (
      "descCreatePermanent",
      "Erstellt ein dauerhaftes Postfach (öffentlich, ohne Authentifizierung, ratenbegrenzt). Die Adresse läuft nie ab, E-Mails bleiben für die konfigurierte Frist. Das Token wird zurückgegeben - bitte speichern.",
    )
    ∷ (
      "descCreatePermanentApi",
      "Erstellt ein dauerhaftes Postfach mit dem Integrationsschlüssel (X-API-Key-Header). Gleiches Ergebnis wie die öffentliche Route, aber authentifiziert für externe Systeme.",
    )
    ∷ (
      "descTlsStatus",
      "Zertifikatsstatus für Mail-Hostname und Panel: Dateien vorhanden, Ablaufdatum und Aussteller.",
    )
    ∷ (
      "descTlsIssue",
      "Beauftragt den certbot-Sidecar mit Ausstellung/Erneuerung eines Let's-Encrypt-Zertifikats (HTTP-01). Hostnamen müssen hierher zeigen und Port 80 erreichbar sein.",
    )
    ∷ (
      "descApiKeyStatus",
      "Meldet, ob ein Integrationsschlüssel konfiguriert ist (der Schlüssel selbst wird nie zurückgegeben).",
    )
    ∷ (
      "descAdminPermanentList",
      "Listet dauerhafte Postfächer mit E-Mail-Anzahl, Ungelesenen, Speicher und letztem Eingang. Suche, Paging und Sortierung inklusive.",
    )
    ∷ (
      "descAdminPermanentStats",
      "Aggregierte Zahlen aller dauerhaften Postfächer: Summen, Speicher, Aufbewahrungsfrist und konfiguriertes Limit.",
    )
    ∷ (
      "descAdminPermanentCreate",
      "Legt ein dauerhaftes Postfach im Panel an. Das Zugriffstoken wird einmal zurückgegeben - nur damit lässt sich das Postfach später lesen.",
    )
    ∷ (
      "descAdminPermanentPurge",
      "Löscht alle E-Mails eines dauerhaften Postfachs und behält die Adresse.",
    )
    ∷ (
      "descAdminPermanentRetention",
      "Führt die Aufbewahrungsbereinigung sofort aus (E-Mails älter als die konfigurierte Frist).",
    )
    ∷ (
      "descApiKeyRegenerate",
      "Erzeugt einen neuen Integrationsschlüssel. Der alte wird sofort ungültig, der neue nur einmal angezeigt.",
    )
    ∷ (
      "descSetupComplete",
      "Schreibt die Anfangskonfiguration. Nur vor der Initialisierung möglich.",
    )
    ∷ ("chainTestNote", "Erstellt eine neue Adresse und listet dann ihre E-Mails.")
    ∷ ("destructiveNote", "Destruktive Endpoints werden nur dokumentiert, ohne Ein-Klick-Test.")
    ∷ ("testSuccess", "Erfolg")
    ∷ ("testFailed", "Anfrage fehlgeschlagen")
    ∷ ("closeResponse", "Schließen")
    ∷ ("confirmDestructive", "Diese Aktion ändert oder löscht Daten. Fortfahren?")
    ∷ ("binaryResponse", "Binäre Antwort ({n} Bytes), kann nicht als Text angezeigt werden.")
    ∷ ("fillParams", "Fülle die Parameter oben aus und führe den Test aus.")
    ∷ []
