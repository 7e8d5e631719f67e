-- ===== src/I18n/TraditionalChinese.antt =====
-- web/lib/i18n/zh-TW.ts and web/lib/i18n/extra-zh.ts: the traditional Chinese dictionary,
-- and what is merged into it.
mod Site
mod Panel
mod PanelRest
mod Forms
use wgtemporary_email.Base.{[], ◌∷◌, ◌++◌}
use wgtemporary_email.Base.Dict.{Dict}
use wgtemporary_email.I18n.Dictionary.{Node}
use wgtemporary_email.I18n.English.{section}
use Site.{zh_tw_nav, zh_tw_home, zh_tw_about, zh_tw_privacy, zh_tw_mailbox}
use Panel.{zh_tw_admin_first}
use PanelRest.{zh_tw_admin_rest}
use Forms.{zh_tw_banner, zh_tw_setup, zh_tw_api}

abbrev pub zh_tw : Dict Node
zh_tw =
    ("nav", section zh_tw_nav)
    ∷ ("home", section zh_tw_home)
    ∷ ("about", section zh_tw_about)
    ∷ ("privacy", section zh_tw_privacy)
    ∷ ("mailbox", section zh_tw_mailbox)
    ∷ []

abbrev pub extra_zh_tw : Dict Node
extra_zh_tw =
    ("banner", section zh_tw_banner)
    ∷ ("admin", section (zh_tw_admin_first ++ zh_tw_admin_rest))
    ∷ ("setup", section zh_tw_setup)
    ∷ ("api", section zh_tw_api)
    ∷ []
