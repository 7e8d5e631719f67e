-- ===== src/I18n/Provider.antt =====
-- web/lib/i18n/index.tsx: I18nProvider, with the module's language, localStorage and the document.
-- The functions that only the browser runs are modelled in the browser.
use wgtemporary_email.Base.{
  String, ◌≡◌, refl, Bool, true, Option, none, some, if◌then◌else◌, is_some, str_eq, Bool-cases,
  inl, inr, ◌∙◌, ap, arith, eq_iff,
}
use wgtemporary_email.Base.Dict.{Dict, lookup}
use wgtemporary_email.Base.Text.{is_empty}
use wgtemporary_email.I18n.Dictionary.{Node}
use wgtemporary_email.I18n.Language.{
  default_lang, is_known, resolve_lang, HasDefaults, resolve_lang-is_known, resolve_lang_of_known,
}

-- `lang` is the provider's state, `module_lang` the module's variable, and `document_lang` and
-- `right_to_left` the attributes of the document. `stored` is the text under "wgtempemail_lang" in
-- localStorage, which throws where `storage_works` is false.
pub record I18n : Type 0 where
  pub lang : String
  pub module_lang : String
  pub document_lang : String
  pub right_to_left : Bool
  pub stored : Option String
  pub storage_works : Bool

-- `RTL_LANGUAGES.has(lang)`
abbrev pub is_rtl : String → Bool
is_rtl lang = str_eq lang "ar"

-- `applyDocument(lang)`
abbrev pub apply_document : String → I18n → I18n
apply_document lang s = record s { document_lang = lang; right_to_left = is_rtl lang }

-- The layout effect of the first render, for the language that it detects.
abbrev pub layout_effect : String → I18n → I18n
layout_effect detected s = apply_document detected (
    if str_eq detected default_lang
    then s
    else record s { module_lang = detected; lang = detected })

-- The effect of a render with the language `lang`.
abbrev pub lang_effect : String → I18n → I18n
lang_effect lang s = apply_document lang (record s { module_lang = lang })

-- The effects of a page load: the state and the module start at the default language, the layout
-- effect runs before the effect of that first render, and the effect runs once more for a language
-- that the layout effect has changed.
unfoldable pub load_effects : String → I18n → I18n
load_effects detected s =
    let opened : I18n =
      layout_effect detected (record s { lang = default_lang; module_lang = default_lang }) in
    let first : I18n = lang_effect default_lang opened in
    if str_eq opened.lang default_lang then first else lang_effect opened.lang first

-- `localStorage.setItem(…, code)`, where a failure is ignored
abbrev pub store : String → I18n → I18n
store code s = if s.storage_works then record s { stored = some code } else s

-- The stored text if there is one that is not empty, or else the other.
abbrev pub saved_or : Option String → String → String
saved_or none other = other
saved_or (some saved) other = if is_empty saved then other else saved

module _ (dicts : Dict (Dict Node)) where
  -- `detectLang()`, for the browser's own language, the empty text if it has none
  unfoldable pub detect_lang : String → I18n → String
  detect_lang navigator_lang s =
      resolve_lang dicts
        (if s.storage_works then saved_or s.stored navigator_lang else navigator_lang)

  unfoldable pub load : String → I18n → I18n
  unfolding detect_lang load_effects
  load navigator_lang s = load_effects (detect_lang navigator_lang s) s

  -- `setLang(code)`, and the effect of the render that follows it.
  unfoldable pub set_lang : String → I18n → I18n
  set_lang code s =
      if is_some (lookup code dicts)
      then lang_effect code
          (apply_document code (store code (record s { module_lang = code; lang = code })))
      else s

-- The module and the document have the provider's language, and the direction is that language's.
pub record IsInSync (s : I18n) : Type 0 where
  pub in_module : s.module_lang ≡ s.lang
  pub in_document : s.document_lang ≡ s.lang
  pub direction : s.right_to_left ≡ is_rtl s.lang

load_effects-lang : (detected : String) (s : I18n) → (load_effects detected s).lang ≡ detected
unfolding load_effects
load_effects-lang detected s = ground (arith, eq_iff detected "en")

load_effects-IsInSync : (detected : String) (s : I18n) → IsInSync (load_effects detected s)
unfolding load_effects
load_effects-IsInSync detected s = elim (Bool-cases (str_eq detected "en")) [
  | inl same ↦ rw same (record { in_module = refl; in_document = refl; direction = refl })
  | inr other ↦
      rw (other, other) (record { in_module = refl; in_document = refl; direction = refl })
]

module _ (dicts : Dict (Dict Node)) where
  -- After a page load the provider, the module and the document have the detected language.
  pub load-IsInSync :
      (navigator_lang : String) (s : I18n)
      → IsInSync (load dicts navigator_lang s)
        × ((load dicts navigator_lang s).lang ≡ detect_lang dicts navigator_lang s)
  unfolding load
  load-IsInSync navigator_lang s =
      let detected = detect_lang dicts navigator_lang s in
      (load_effects-IsInSync detected s, load_effects-lang detected s)

  -- If the provider, the module and the document have one language, they have one after a language has
  -- been chosen, also where the code is not registered.
  pub set_lang-IsInSync : (code : String) (s : I18n) → IsInSync s → IsInSync (set_lang dicts code s)
  unfolding set_lang
  set_lang-IsInSync code s h = ground arith

  -- What a page load detects is a language of the registry, if that has "en", "zh-CN" and "zh-TW".
  pub detect_lang-is_known :
      (navigator_lang : String) (s : I18n)
      → HasDefaults dicts
      → is_known dicts (detect_lang dicts navigator_lang s) ≡ true
  unfolding detect_lang
  detect_lang-is_known navigator_lang s h = resolve_lang-is_known dicts _ h

  kept :
      (code navigator_lang : String) (s : I18n)
      → is_known dicts code ≡ true
      → s.storage_works ≡ true
      → (if (set_lang dicts code s).storage_works
          then saved_or (set_lang dicts code s).stored navigator_lang
          else navigator_lang)
        ≡ code
  unfolding set_lang
  kept code navigator_lang s known works = ground arith

  -- What is detected after a registered language has been chosen.
  detect_lang-set_lang :
      (code navigator_lang : String) (s : I18n)
      → is_known dicts code ≡ true
      → s.storage_works ≡ true
      → detect_lang dicts navigator_lang (set_lang dicts code s) ≡ code
  unfolding detect_lang set_lang
  detect_lang-set_lang code navigator_lang s known works =
      ap (resolve_lang dicts) (kept code navigator_lang s known works)
      ∙ resolve_lang_of_known dicts code known

  -- A registered language that the user chooses is the language after the next page load, whatever the
  -- browser's own language, if localStorage works.
  pub load-set_lang :
      (code navigator_lang : String) (s : I18n)
      → is_known dicts code ≡ true
      → s.storage_works ≡ true
      → (load dicts navigator_lang (set_lang dicts code s)).lang ≡ code
  unfolding load
  load-set_lang code navigator_lang s known works =
      load_effects-lang (detect_lang dicts navigator_lang (set_lang dicts code s))
        (set_lang dicts code s)
      ∙ detect_lang-set_lang code navigator_lang s known works
