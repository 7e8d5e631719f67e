-- ===== src/I18n/SimplifiedChinese.antt =====
-- web/lib/i18n/zh-CN.ts and web/lib/i18n/extra-zh.ts: the simplified Chinese dictionary,
-- and what is merged into it.
mod Site
mod Panel
mod PanelRest
mod Forms
use wgtemporary_email.Base.{[], ◌∷◌, ◌++◌}
use wgtemporary_email.Base.Dict.{Dict}
use wgtemporary_email.I18n.Dictionary.{Node}
use wgtemporary_email.I18n.English.{section}
use Site.{zh_cn_nav, zh_cn_home, zh_cn_about, zh_cn_privacy, zh_cn_mailbox}
use Panel.{zh_cn_admin_first}
use PanelRest.{zh_cn_admin_rest}
use Forms.{zh_cn_banner, zh_cn_setup, zh_cn_api}

abbrev pub zh_cn : Dict Node
zh_cn =
    ("nav", section zh_cn_nav)
    ∷ ("home", section zh_cn_home)
    ∷ ("about", section zh_cn_about)
    ∷ ("privacy", section zh_cn_privacy)
    ∷ ("mailbox", section zh_cn_mailbox)
    ∷ []

abbrev pub extra_zh_cn : Dict Node
extra_zh_cn =
    ("banner", section zh_cn_banner)
    ∷ ("admin", section (zh_cn_admin_first ++ zh_cn_admin_rest))
    ∷ ("setup", section zh_cn_setup)
    ∷ ("api", section zh_cn_api)
    ∷ []
