-- ===== src/I18n/German/Panel.antt =====
-- web/lib/i18n/extra-dept.ts: the German texts of the panel, first half.
use wgtemporary_email.Base.{String, [], ◌∷◌}
use wgtemporary_email.Base.Dict.{Dict}

abbrev pub de_admin_first : Dict String
de_admin_first =
    ("adminPanel", "Admin-Panel")
    ∷ ("dashboard", "Übersicht")
    ∷ ("emails", "E-Mails")
    ∷ ("addresses", "Adressen")
    ∷ ("domains", "Domains")
    ∷ ("config", "Konfiguration")
    ∷ ("cleanup", "Bereinigung")
    ∷ ("userSite", "Nutzerbereich")
    ∷ ("logout", "Abmelden")
    ∷ ("loginTitle", "Admin-Panel Anmeldung")
    ∷ ("loginDesc", "Admin-Token aus config.yaml eingeben")
    ∷ ("loginPlaceholder", "Admin-Token")
    ∷ ("loginBtn", "Anmelden")
    ∷ ("loggingIn", "Anmeldung...")
    ∷ ("loginFailed", "Anmeldung fehlgeschlagen. Netzwerk prüfen und erneut versuchen.")
    ∷ ("wrongToken", "Admin-Token falsch. Bitte prüfen und erneut versuchen")
    ∷ (
      "loginLocalNote",
      "Der Token wird nur in deinem Browser gespeichert und nie an Dritte gesendet",
    )
    ∷ ("activeAddresses", "Aktive Adressen")
    ∷ ("totalAddressesSub", "{n} gesamt")
    ∷ ("totalEmails", "E-Mails gesamt")
    ∷ ("unreadSub", "Ungelesen {n}")
    ∷ ("emails24h", "E-Mails in 24h")
    ∷ ("attachmentsTotal", "Anhänge")
    ∷ ("storageUsage", "Speichernutzung")
    ∷ ("storageCap", "Limit {n} MB")
    ∷ ("storageNoCap", "Kein Limit")
    ∷ ("uptime", "Laufzeit")
    ∷ ("lifetimeSub", "Adresslebensdauer {n}h")
    ∷ ("dbHealthy", "DB ok")
    ∷ ("dbError", "DB-Fehler")
    ∷ ("configuredDomains", "Konfigurierte Domains ({n})")
    ∷ ("noDomains", "Keine Domains konfiguriert")
    ∷ ("recentEmails", "Letzte E-Mails")
    ∷ ("recentAddresses", "Letzte Adressen")
    ∷ ("viewAll", "Alle ansehen")
    ∷ ("noEmails", "Keine E-Mails")
    ∷ ("noAddresses", "Keine Adressen")
    ∷ ("active", "Aktiv")
    ∷ ("expired", "Abgelaufen")
    ∷ ("permanent", "Dauerhaft")
    ∷ ("neverExpires", "Läuft nie ab")
    ∷ ("emailsCount", "{n} E-Mails")
    ∷ ("createdSub", "Erstellt {time}")
    ∷ ("noSubject", "(Kein Betreff)")
    ∷ ("subject", "Betreff")
    ∷ ("fromCol", "Von")
    ∷ ("toCol", "Empfänger")
    ∷ ("timeCol", "Zeit")
    ∷ ("sizeCol", "Größe")
    ∷ ("actionsCol", "Aktionen")
    ∷ ("statusCol", "Status")
    ∷ ("emailCol", "E-Mail-Adresse")
    ∷ ("emailCountCol", "E-Mails")
    ∷ ("unreadCol", "Ungelesen")
    ∷ ("createdCol", "Erstellt")
    ∷ ("expiresCol", "Läuft ab")
    ∷ ("view", "Ansehen")
    ∷ ("delete", "Löschen")
    ∷ ("search", "Suchen")
    ∷ ("prev", "Zurück")
    ∷ ("next", "Weiter")
    ∷ ("pageOf", "Seite {p} / {n}")
    ∷ ("totalItems", "{n} Einträge gesamt")
    ∷ ("loading", "Wird geladen...")
    ∷ ("loadFailed", "Laden fehlgeschlagen. Erneut versuchen.")
    ∷ ("sessionExpired", "Sitzung abgelaufen, bitte erneut anmelden")
    ∷ ("requestFailed", "Anfrage fehlgeschlagen ({status})")
    ∷ ("tooManyRequests", "Zu viele Anfragen, bitte später erneut versuchen")
    ∷ ("serverError", "Serverfehler, bitte später erneut versuchen")
    ∷ ("uptimeDaysHours", "{d} T {h} Std")
    ∷ ("uptimeHoursMinutes", "{h} Std {m} Min")
    ∷ ("uptimeMinutes", "{m} Min")
    ∷ ("new", "Neu")
    ∷ ("emailsTitle", "E-Mail-Verwaltung")
    ∷ ("searchEmailsPlaceholder", "Betreff / Absender / Empfänger suchen")
    ∷ ("deleteEmailConfirm", "Diese E-Mail löschen? Nicht umkehrbar.")
    ∷ ("dkimPass", "DKIM bestanden")
    ∷ ("dkimFail", "DKIM fehlgeschlagen")
    ∷ ("attachmentsN", "{n} Anhang/Anhänge")
    ∷ ("attachments", "Anhänge")
    ∷ ("noContent", "Kein Inhalt")
    ∷ ("viewRawHeaders", "Roh-Header ansehen")
    ∷ ("deleteThisEmail", "Diese E-Mail löschen")
    ∷ ("addressesTitle", "Adressverwaltung")
    ∷ ("mailboxes", "Dauerhafte Adressen")
    ∷ ("mbTitle", "Verwaltung dauerhafter Adressen")
    ∷ (
      "mbDesc",
      "Postfächer ohne Ablauf: Die Adresse bleibt dauerhaft, E-Mails werden nach der Aufbewahrungsfrist gelöscht.",
    )
    ∷ ("mbTotal", "Postfächer")
    ∷ ("mbEmails", "E-Mails")
    ∷ ("mbStorage", "Belegter Speicher")
    ∷ ("mbWithEmails", "{n} mit E-Mails")
    ∷ ("mbUnreadSub", "{n} ungelesen")
    ∷ ("mbCap", "Limit {n}")
    ∷ ("mbCapUnlimited", "Kein Limit konfiguriert")
    ∷ ("mbRetentionTitle", "Aufbewahrung")
    ∷ ("mbRetentionDays", "{n} Tage")
    ∷ ("mbRunRetention", "Bereinigung jetzt ausführen")
    ∷ ("mbRetentionRan", "Die Bereinigung hat {n} E-Mail(s) entfernt.")
    ∷ ("mbCreateTitle", "Dauerhafte Adresse anlegen")
    ∷ (
      "mbCreateDesc",
      "Das Zugriffstoken wird nur einmal angezeigt - geben Sie es dem Inhaber weiter, es ist der einzige Zugang zu diesem Postfach.",
    )
    ∷ ("mbUsernamePlaceholder", "Benutzername")
    ∷ ("mbDomainPlaceholder", "Domain")
    ∷ ("mbCreateBtn", "Anlegen")
    ∷ ("mbCreating", "Wird angelegt...")
    ∷ ("mbNeedUsername", "Bitte einen Benutzernamen eingeben.")
    ∷ ("mbCreated", "{email} angelegt")
    ∷ ("mbCreatedNote", "Token jetzt speichern - es wird nicht erneut angezeigt.")
    ∷ ("mbCopyToken", "Token kopieren")
    ∷ ("mbCopied", "Kopiert")
    ∷ ("mbCreatedDialogTitle", "Postfach angelegt")
    ∷ ("mbListTitle", "Postfächer ({n})")
    ∷ ("mbSearchPlaceholder", "Adressen suchen...")
    ∷ ("mbSizeCol", "Größe")
    ∷ ("mbLastEmailCol", "Letzte E-Mail")
    ∷ ("mbNever", "nie")
    ∷ ("mbPurgeEmails", "E-Mails löschen (Adresse behalten)")
    ∷ ("mbPurgeConfirm", "Alle E-Mails von {email} löschen? Die Adresse bleibt erhalten.")
    ∷ ("mbPurged", "{n} E-Mail(s) von {email} entfernt.")
    ∷ ("mbDelete", "Postfach löschen")
    ∷ ("mbDeleteConfirm", "{email} löschen? Adresse und alle E-Mails werden endgültig entfernt.")
    ∷ ("mbDeleted", "{email} gelöscht.")
    ∷ ("mbNoMailboxes", "Noch keine dauerhaften Adressen")
    ∷ ("searchAddressesPlaceholder", "E-Mail-Adresse suchen")
    ∷ ("createdExpiresSub", "Erstellt {a} · Läuft ab {b}")
    ∷ ("createdPermanentSub", "Erstellt {a} · Dauerhaftes Postfach")
    ∷ ("emailsTotal", "{n} E-Mails gesamt")
    ∷ ("viewInEmails", "In E-Mail-Verwaltung ansehen")
    ∷ ("deleteAddressBtn", "Diese Adresse und alle ihre E-Mails löschen")
    ∷ []
