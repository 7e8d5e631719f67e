-- ===== src/I18n/English.antt =====
-- web/lib/i18n/en.ts: the English dictionary.
mod Site
mod Panel
mod PanelRest
mod Forms
pub mod Spoken
use wgtemporary_email.Base.{String, [], ◌∷◌, ◌++◌}
use wgtemporary_email.Base.Dict.{Dict}
use wgtemporary_email.I18n.Dictionary.{Node, text, group, Fields, end, field}
use Site.{nav, home, about, privacy, banner}
use Panel.{admin_first}
use PanelRest.{admin_rest}
use Forms.{setup, mailbox, api}

-- An object of texts.
abbrev fields_of : Dict String → Fields
fields_of [] = end
fields_of ((k, s) ∷ d) = field k (text s) (fields_of d)

abbrev pub section : Dict String → Node
section d = group (fields_of d)

abbrev pub en : Dict Node
en =
    ("nav", section nav)
    ∷ ("home", section home)
    ∷ ("about", section about)
    ∷ ("privacy", section privacy)
    ∷ ("admin", section (admin_first ++ admin_rest))
    ∷ ("setup", section setup)
    ∷ ("mailbox", section mailbox)
    ∷ ("api", section api)
    ∷ ("banner", section banner)
    ∷ []
