-- ===== src/I18n/German.antt =====
-- web/lib/i18n/de.ts and web/lib/i18n/extra-dept.ts: the German dictionary,
-- and what is merged into it.
mod Inbox
mod Site
mod Panel
mod PanelRest
mod Forms
use wgtemporary_email.Base.{[], ◌∷◌, ◌++◌}
use wgtemporary_email.Base.Dict.{Dict}
use wgtemporary_email.I18n.Dictionary.{Node}
use wgtemporary_email.I18n.English.{section}
use Inbox.{de_home}
use Site.{de_nav, de_about, de_privacy, de_mailbox}
use Panel.{de_admin_first}
use PanelRest.{de_admin_rest}
use Forms.{de_banner, de_setup, de_api}

abbrev pub de : Dict Node
de =
    ("nav", section de_nav)
    ∷ ("home", section de_home)
    ∷ ("about", section de_about)
    ∷ ("privacy", section de_privacy)
    ∷ ("mailbox", section de_mailbox)
    ∷ []

abbrev pub extra_de : Dict Node
extra_de =
    ("banner", section de_banner)
    ∷ ("admin", section (de_admin_first ++ de_admin_rest))
    ∷ ("setup", section de_setup)
    ∷ ("api", section de_api)
    ∷ []
