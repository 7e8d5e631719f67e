-- ===== src/I18n/Tests.antt =====
-- web/lib/i18n/index.tsx at a small registry.
use wgtemporary_email.Base.{◌≡◌, String, refl, true, false, none, some, [], ◌∷◌, arith}
use wgtemporary_email.Base.Dict.{Dict}
use wgtemporary_email.Base.Text.{replace_all}
use Prim.Native.Nat.{ℕ}
use wgtemporary_email.Api.{runtime, answer, text as detail_text}
use wgtemporary_email.Home.Handlers.{create_error as home_error}
use wgtemporary_email.Mailbox.Handlers.{create_error as mailbox_error}
use wgtemporary_email.Admin.Client.{receive}
use wgtemporary_email.I18n.English.Spoken.{
  IsSpoken, ErrorIsTold, create_error-IsSpoken, receive-IsTold,
}
use wgtemporary_email.I18n.Dictionary.{
  Node, text, group, end, field, deep_merge, get_value, interpolate, merge_dicts, lookup_phrase,
}
use wgtemporary_email.I18n.Dictionary.Merge.{entry, deep_merge-entry}
use wgtemporary_email.I18n.Dictionary.Phrases.{lookup_phrase-fallback}
use wgtemporary_email.I18n.SimplifiedChinese.{zh_cn, extra_zh_cn}
use wgtemporary_email.I18n.Translated.{
  registered_dicts, text_at, same_names, registered_dicts-Translated,
}
use wgtemporary_email.I18n.Language.{is_known, resolve_lang, HasDefaults, resolve_lang_idem}
use wgtemporary_email.I18n.Provider.{
  I18n, detect_lang, load, set_lang, IsInSync, load-IsInSync, set_lang-IsInSync,
  detect_lang-is_known, load-set_lang,
}

i18n : Unit {0}
unfolding resolve_lang lookup_phrase deep_merge merge_dicts load set_lang interpolate get_value
    replace_all
i18n = tt

abbrev en : Dict Node
en = ("home", group (field "copy" (text "Copy {what}") (field "new" (text "New") end))) ∷ []

abbrev extra : Dict Node
extra = ("home", group (field "new" (text "Neu") end)) ∷ []

abbrev de : Dict Node
de = ("home", group (field "new" (text "Frisch") (field "old" (text "Alt") end))) ∷ []

abbrev dicts : Dict (Dict Node)
dicts = ("en", en) ∷ ("zh-CN", en) ∷ ("zh-TW", en) ∷ ("de", de) ∷ []

abbrev browser : I18n
browser = record {
  lang = "en";
  module_lang = "en";
  document_lang = "en";
  right_to_left = false;
  stored = none;
  storage_works = true;
}

resolve_lang_tests :
    (resolve_lang dicts "zh-HK" ≡ "zh-TW")
    × (resolve_lang dicts "zh-Hans" ≡ "zh-CN")
    × (resolve_lang dicts "de-AT" ≡ "de")
    × (resolve_lang dicts "fr" ≡ "en")
    × (resolve_lang dicts "" ≡ "en")
unfolding i18n
resolve_lang_tests = (refl, refl, refl, refl, refl)

-- A `$&` in a value stands for the placeholder, as replaceAll has it.
interpolate_tests :
    (interpolate "Copy {what} {what}" (some (("what", "it") ∷ [])) ≡ "Copy it it")
    × (interpolate "Copy {what}" (some (("what", "$&!") ∷ [])) ≡ "Copy {what}!")
unfolding i18n
interpolate_tests = (refl, refl)

deep_merge-entry_example : entry "home" "new" (deep_merge de (some extra)) ≡ some (text "Neu")
deep_merge-entry_example = deep_merge-entry "home" "new" de extra (tt, tt)

lookup_phrase-fallback_test :
    lookup_phrase dicts en "de" "home.copy" none ≡ lookup_phrase dicts en "en" "home.copy" none
unfolding i18n
lookup_phrase-fallback_test =
    lookup_phrase-fallback dicts en "de" "home.copy" none refl (λ h. ground arith)

abbrev defaults : HasDefaults dicts
defaults = record { english = refl; simplified = refl; traditional = refl }

resolve_lang_idem_test :
    resolve_lang dicts (resolve_lang dicts "zh-HK") ≡ resolve_lang dicts "zh-HK"
resolve_lang_idem_test = resolve_lang_idem dicts "zh-HK" defaults

load-IsInSync_test :
    IsInSync (load dicts "de-AT" browser)
    × ((load dicts "de-AT" browser).lang ≡ detect_lang dicts "de-AT" browser)
load-IsInSync_test = load-IsInSync dicts "de-AT" browser

set_lang-IsInSync_test : IsInSync (set_lang dicts "de" browser)
set_lang-IsInSync_test =
    set_lang-IsInSync dicts "de" browser
      (record { in_module = refl; in_document = refl; direction = refl })

detect_lang-is_known_test : is_known dicts (detect_lang dicts "fr" browser) ≡ true
detect_lang-is_known_test = detect_lang-is_known dicts "fr" browser defaults

load-set_lang_example : (load dicts "fr" (set_lang dicts "de" browser)).lang ≡ "de"
load-set_lang_example = load-set_lang dicts "de" "fr" browser refl refl

create_error-IsSpoken_test : IsSpoken (home_error runtime) × IsSpoken (mailbox_error runtime)
create_error-IsSpoken_test = create_error-IsSpoken runtime

receive-IsTold_example :
    ErrorIsTold {B = ℕ}
      (answer 422 (some (0, detail_text "bad host")))
      (receive {B = ℕ} (answer 422 (some (0, detail_text "bad host"))) none).1
receive-IsTold_example = receive-IsTold {B = ℕ} (answer 422 (some (0, detail_text "bad host"))) none

registered_dicts-Translated_example :
    (t : String) × (text_at (deep_merge zh_cn (some extra_zh_cn)) "home" "readyDesc" ≡ some t)
    × (same_names "Your temporary email is ready. It will be automatically deleted in {time}." t
        ≡ true)
unfolding registered_dicts deep_merge
registered_dicts-Translated_example =
    registered_dicts-Translated "zh-CN" (deep_merge zh_cn (some extra_zh_cn)) "home" "readyDesc"
      "Your temporary email is ready. It will be automatically deleted in {time}." refl refl
