-- ===== src/I18n/German/Inbox.antt =====
-- web/lib/i18n/de.ts: the German texts of the page of the temporary address.
use wgtemporary_email.Base.{String, [], ◌∷◌}
use wgtemporary_email.Base.Dict.{Dict}

abbrev pub de_home : Dict String
de_home =
    ("yourTempEmail", "Deine temporäre E-Mail")
    ∷ ("readyDesc", "Deine temporäre E-Mail ist bereit. Sie wird in {time} automatisch gelöscht.")
    ∷ ("loading", "Wird geladen...")
    ∷ ("copy", "Kopieren")
    ∷ ("copied", "Kopiert")
    ∷ ("newEmail", "Neue E-Mail")
    ∷ ("expiresIn", "Läuft ab in {time}")
    ∷ ("inbox", "Posteingang")
    ∷ ("auto", "Auto")
    ∷ ("searchEmails", "E-Mails durchsuchen...")
    ∷ ("clearSearch", "Suche löschen")
    ∷ ("noEmailsYet", "Noch keine E-Mails")
    ∷ ("autoRefreshingEvery", "Automatische Aktualisierung alle {sec}s")
    ∷ ("noSubject", "(Kein Betreff)")
    ∷ ("newBadge", "Neu")
    ∷ ("selectAnEmail", "E-Mail auswählen")
    ∷ ("viewContents", "E-Mail auswählen, um den Inhalt anzuzeigen")
    ∷ ("html", "HTML")
    ∷ ("plain", "Text")
    ∷ ("from", "Von:")
    ∷ ("to", "An:")
    ∷ ("date", "Datum:")
    ∷ ("dkimValid", "DKIM gültig")
    ∷ ("dkimInvalid", "DKIM ungültig")
    ∷ ("spf", "SPF: {v}")
    ∷ ("dmarc", "DMARC: {v}")
    ∷ ("attachmentsCount", "{n} Anhang/Anhänge")
    ∷ ("attachments", "Anhänge")
    ∷ ("noContent", "Kein Inhalt")
    ∷ ("lastRefreshed", "Zuletzt aktualisiert: {time} • Automatische Aktualisierung aktiviert")
    ∷ ("footerText", "WGTemporaryEmail - Open-Source-Dienst für temporäre E-Mails")
    ∷ ("dialogTitle", "Neue E-Mail generieren")
    ∷ (
      "dialogDesc",
      "Erstelle eine neue temporäre E-Mail-Adresse. Lasse den Benutzernamen leer für eine zufällige Adresse.",
    )
    ∷ ("customNamePlaceholder", "eigener-name (optional)")
    ∷ (
      "dialogHint",
      "Leer lassen für eine zufällige Adresse oder einen eigenen Benutzernamen eingeben (3-64 Zeichen, alphanumerisch + . _ -)",
    )
    ∷ ("generateEmail", "E-Mail generieren")
    ∷ ("creating", "Wird erstellt...")
    ∷ (
      "usernameTaken",
      "Dieser Benutzername ist bereits vergeben. Wähle einen anderen oder lasse das Feld für eine zufällige Adresse leer.",
    )
    ∷ ("failedToCreate", "E-Mail-Adresse konnte nicht erstellt werden. Bitte erneut versuchen.")
    ∷ (
      "rateLimited",
      "Zu viele Anfragen. Das Limit gilt pro IP-Adresse - bitte etwa eine Minute warten.",
    )
    ∷ ("failedToLoad", "E-Mail konnte nicht geladen werden. Bitte erneut versuchen.")
    ∷ ("failedToDelete", "E-Mail konnte nicht gelöscht werden. Bitte erneut versuchen.")
    ∷ ("deleteEmailConfirm", "Diese E-Mail löschen?")
    ∷ ("expiredNewAddress", "{old} ist abgelaufen. Neue Adresse: {new}")
    ∷ ("expiredNow", "Abgelaufen - neue Adresse wird erstellt...")
    ∷ []
