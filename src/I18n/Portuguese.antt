-- ===== src/I18n/Portuguese.antt =====
-- web/lib/i18n/pt.ts and web/lib/i18n/extra-dept.ts: the Portuguese dictionary,
-- and what is merged into it.
mod Inbox
mod Site
mod Panel
mod PanelRest
mod Forms
use wgtemporary_email.Base.{[], ◌∷◌, ◌++◌}
use wgtemporary_email.Base.Dict.{Dict}
use wgtemporary_email.I18n.Dictionary.{Node}
use wgtemporary_email.I18n.English.{section}
use Inbox.{pt_home}
use Site.{pt_nav, pt_about, pt_privacy, pt_mailbox}
use Panel.{pt_admin_first}
use PanelRest.{pt_admin_rest}
use Forms.{pt_banner, pt_setup, pt_api}

abbrev pub pt : Dict Node
pt =
    ("nav", section pt_nav)
    ∷ ("home", section pt_home)
    ∷ ("about", section pt_about)
    ∷ ("privacy", section pt_privacy)
    ∷ ("mailbox", section pt_mailbox)
    ∷ []

abbrev pub extra_pt : Dict Node
extra_pt =
    ("banner", section pt_banner)
    ∷ ("admin", section (pt_admin_first ++ pt_admin_rest))
    ∷ ("setup", section pt_setup)
    ∷ ("api", section pt_api)
    ∷ []
