-- ===== src/I18n/German/Site.antt =====
-- web/lib/i18n/de.ts: the German texts of the other public pages.
use wgtemporary_email.Base.{String, [], ◌∷◌}
use wgtemporary_email.Base.Dict.{Dict}

abbrev pub de_nav : Dict String
de_nav =
    ("about", "Über uns")
    ∷ ("privacy", "Datenschutz")
    ∷ ("api", "API")
    ∷ ("permanentMailbox", "Permanente Mailbox")
    ∷ ("tempMailbox", "Temporäres Postfach")
    ∷ []

abbrev pub de_about : Dict String
de_about =
    ("aboutTitle", "Über WGTemporaryEmail")
    ∷ (
      "aboutDesc",
      "Ein datenschutzorientierter Wegwerf-E-Mail-Dienst. Open Source, selbst gehostet, keine Werbung, kein Tracking.",
    )
    ∷ (
      "aboutP1",
      "Öffne die Startseite, um sofort eine temporäre E-Mail-Adresse zu erhalten - ohne Registrierung und ohne persönliche Daten. Nutze sie für Bestätigungscodes, Testregistrierungen oder Probeabos und halte dein echtes Postfach frei von Spam. Adressen und E-Mails werden nach einer festgelegten Zeit automatisch gelöscht.",
    )
    ∷ (
      "aboutP2",
      "Dieses Projekt wird in Containern bereitgestellt (PostgreSQL + FastAPI + Go-Mailserver + Web-Frontend) und lässt sich leicht auf dem eigenen Server betreiben.",
    )
    ∷ ("feature1T", "Sofortige Erstellung")
    ∷ ("feature1D", "Zufällige Adresse per Klick, eigene Benutzernamen möglich")
    ∷ ("feature2T", "Automatischer Ablauf")
    ∷ (
      "feature2D", "Adressen und E-Mails werden automatisch bereinigt, ohne Spuren zu hinterlassen",
    )
    ∷ ("feature3T", "Sicherheitsprüfung")
    ∷ ("feature3D", "Zeigt DKIM / SPF / DMARC-Prüfergebnisse")
    ∷ ("feature4T", "Volle E-Mail-Unterstützung")
    ∷ ("feature4D", "HTML / Text / Anhänge / Download der Original-E-Mail")
    ∷ ("feature5T", "Vollständig Open Source")
    ∷ ("feature5D", "Öffentlicher Quellcode, offen für Prüfung und Weiterentwicklung")
    ∷ ("feature6T", "Keine Werbung, kein Tracking")
    ∷ ("feature6D", "Weder Werbung noch Tracking-Skripte")
    ∷ ("relationTitle", "Beziehung zu den Ausgangsprojekten")
    ∷ ("relationDesc", "Open-Source-Geist - auf den Schultern von Giganten")
    ∷ (
      "relationP1",
      "WGTemporaryEmail wurde nicht von Grund auf neu entwickelt, sondern aus zwei hervorragenden Open-Source-Projekten integriert:",
    )
    ∷ (
      "relationP2",
      "Aufbauend auf diesen Ausgangsprojekten ergänzt dieses Projekt: ein chinesisches Admin-Panel (Statistiken, E-Mail-/Adress-/Domain-Verwaltung, Hot-Reload der Konfiguration), einen Erststart-Assistenten, Sicherheitshärtung (Rate-Limiting, XSS-Bereinigung, Sicherheitsupdates der Abhängigkeiten), eine Speicherbegrenzung mit automatischer Bereinigung und mehr.",
    )
    ∷ (
      "relationP3",
      "Alle Ausgangsprojekte und dieses Projekt stehen unter der MIT-Lizenz, die ursprünglichen Urheberrechtshinweise bleiben erhalten. Danke an Lm36 für die großartige Arbeit.",
    )
    ∷ ("sourceTitle", "Quellcode")
    ∷ ("sourceDesc", "Stars, Forks und Issues sind willkommen")
    ∷ ("sourceNote", "Für Fehlerberichte und Funktionswünsche öffne bitte ein GitHub-Issue.")
    ∷ ("demoLabel", "Live-Demo")
    ∷ []

abbrev pub de_privacy : Dict String
de_privacy =
    ("privacyTitle", "Datenschutzerklärung")
    ∷ (
      "privacyDesc",
      "WGTemporaryEmail stellt Datenschutz in den Mittelpunkt: keine Registrierung, keine Werbung, kein Tracking. Diese Seite erklärt, wie der Dienst Daten speichert und verarbeitet.",
    )
    ∷ (
      "scopeNote",
      "Diese Richtlinie gilt für diese Instanz des temporären E-Mail-Dienstes (\"der Dienst\").",
    )
    ∷ ("collectTitle", "Daten, die wir sammeln und speichern")
    ∷ (
      "collectP1",
      "Um die Posteingangsfunktion bereitzustellen, speichert der Dienst serverseitig:",
    )
    ∷ ("collectL1", "Die von dir erstellten temporären E-Mail-Adressen und deren Ablaufzeit")
    ∷ (
      "collectL2",
      "E-Mails an diese Adressen, einschließlich Absender, Betreff, Inhalt und Anhänge",
    )
    ∷ (
      "collectL3",
      "Ein zufälliges Zugriffstoken, das an die Adresse gebunden ist (zur Überprüfung deines Zugriffs)",
    )
    ∷ (
      "collectP2",
      "Dein Browser (localStorage) speichert die aktuelle Adresse und das Token, damit du beim nächsten Mal weitermachen kannst. Diese Daten bleiben nur auf deinem Gerät.",
    )
    ∷ ("retentionTitle", "Datenspeicherung und -löschung")
    ∷ (
      "retentionL1",
      "Adressen und E-Mails werden standardmäßig 24 Stunden aufbewahrt und dann automatisch gelöscht (die Dauer kann je nach Dienstkonfiguration variieren)",
    )
    ∷ (
      "permanentMailboxNote",
      "Dauerhafte Postfächer: Die Adresse bleibt erhalten, bis Sie sie löschen; E-Mails werden nach der konfigurierten Aufbewahrungsfrist (Standard 30 Tage) automatisch entfernt.",
    )
    ∷ ("retentionL2", "Du kannst E-Mails jederzeit manuell in der Oberfläche löschen")
    ∷ (
      "retentionL3",
      "Wird das Limit an E-Mails pro Adresse überschritten, werden die ältesten automatisch bereinigt",
    )
    ∷ ("retentionL4", "Gelöschte Daten können nicht wiederhergestellt werden")
    ∷ (
      "storageNote",
      "Überschreitet der gespeicherte Mail-Bestand das konfigurierte Limit, werden die ältesten E-Mails automatisch gelöscht.",
    )
    ∷ ("notCollectTitle", "Was wir NICHT sammeln")
    ∷ (
      "notCollectL1",
      "Keine Registrierung oder Anmeldung; wir fragen niemals nach Name, echter E-Mail-Adresse, Telefonnummer oder sonstigen persönlichen Daten",
    )
    ∷ ("notCollectL2", "Keine Werbung und keine Tracking- oder Analyse-Skripte von Drittanbietern")
    ∷ ("notCollectL3", "Kein Verkauf, keine Weitergabe und keine Übertragung von Daten an Dritte")
    ∷ ("securityTitle", "E-Mail-Inhalt und Sicherheit")
    ∷ (
      "securityL1",
      "E-Mail-Inhalte und Anhänge werden in der Serverdatenbank gespeichert und zusammen mit der E-Mail gelöscht",
    )
    ∷ (
      "securityL2",
      "HTML-E-Mails werden vor der Anzeige bereinigt, um schädliche Skripte zu verhindern",
    )
    ∷ (
      "securityL3",
      "Der Zugriff auf ein Postfach erfordert das zugehörige zufällige Zugriffstoken - gib es nicht weiter",
    )
    ∷ ("securityL4", "DKIM / SPF / DMARC-Prüfergebnisse werden als Referenz angezeigt")
    ∷ (
      "tlsNote",
      "Der Mail-Transport wird mit STARTTLS (TLS 1.2/1.3) verschlüsselt; das Web-Panel wird über HTTPS bereitgestellt.",
    )
    ∷ ("disclaimerTitle", "Nutzungshinweise und Haftungsausschluss")
    ∷ (
      "disclaimerP1",
      "Temporäre E-Mails eignen sich für einmalige Szenarien wie Bestätigungscodes und Testregistrierungen. Verwende sie nicht für: die Verknüpfung wichtiger Konten, Bank-/Zahlungs- oder andere sensible Dienste oder den Empfang von E-Mails, deren Verlust du nicht verkraften kannst - nach Ablauf der Adresse werden alle E-Mails dauerhaft gelöscht.",
    )
    ∷ (
      "disclaimerP2",
      "Sende oder empfange keine sensiblen persönlichen Informationen über temporäre E-Mails. Der Dienst haftet nicht für die Folgen der Datenlöschung.",
    )
    ∷ ("contactTitle", "Kontakt")
    ∷ ("contactP1", "Dieses Projekt ist vollständig Open Source. Quellcode:")
    ∷ (
      "contactP2",
      "Bei Fragen zum Datenschutz oder Anträgen auf Datenlöschung öffne bitte ein GitHub-Issue.",
    )
    ∷ []

abbrev pub de_mailbox : Dict String
de_mailbox =
    ("title", "Permanente Mailbox")
    ∷ (
      "desc",
      "Die Adresse bleibt für immer erhalten; E-Mails werden standardmäßig 30 Tage aufbewahrt. Bewahre dein Zugriffs-Token sicher auf.",
    )
    ∷ ("createTitle", "Permanente Mailbox erstellen")
    ∷ ("usernamePlaceholder", "deinname")
    ∷ ("createBtn", "Mailbox erstellen")
    ∷ ("creating", "Wird erstellt...")
    ∷ ("createdNote", "Erstellt! Speichere jetzt das Zugriffs-Token (wird nur einmal angezeigt):")
    ∷ ("copyToken", "Token kopieren")
    ∷ ("showToken", "Token anzeigen")
    ∷ ("hideToken", "Token verbergen")
    ∷ ("copied", "Kopiert")
    ∷ ("loginTitle", "Bei permanenter Mailbox anmelden")
    ∷ ("tokenPlaceholder", "Zugriffs-Token eingeben")
    ∷ ("loginBtn", "Anmelden")
    ∷ ("logout", "Abmelden")
    ∷ ("myEmail", "Meine Mailbox: {email}")
    ∷ ("retentionNote", "E-Mails werden {days} Tage aufbewahrt; die Adresse selbst läuft nie ab")
    ∷ ("noEmails", "Noch keine E-Mails")
    ∷ ("noSubject", "(Kein Betreff)")
    ∷ ("new", "Neu")
    ∷ ("noContent", "Kein Inhalt")
    ∷ ("attachments", "Anhänge")
    ∷ ("deleteEmail", "Diese E-Mail löschen")
    ∷ ("deleteConfirm", "Diese E-Mail löschen?")
    ∷ ("failedCreate", "Erstellen fehlgeschlagen. Bitte erneut versuchen.")
    ∷ ("failedLogin", "Ungültiges Token oder Mailbox existiert nicht")
    ∷ ("usernameTaken", "Dieser Benutzername ist bereits vergeben")
    ∷ ("needUsername", "Bitte einen Benutzernamen eingeben")
    ∷ []
