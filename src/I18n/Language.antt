-- ===== src/I18n/Language.antt =====
-- web/lib/i18n/index.tsx: which language a preference stands for.
use wgtemporary_email.Base.{
  String, ◌≡◌, refl, Bool, true, false, not, ◌&&◌, ◌||◌, List, [], ◌∷◌, if◌then◌else◌, is_some,
}
use wgtemporary_email.Base.Dict.{Dict, lookup}
use wgtemporary_email.Base.Text.{is_empty, to_lower, starts_with, includes, split}
use wgtemporary_email.I18n.Dictionary.{Node}

abbrev pub default_lang : String
default_lang = "en"

-- `parts[0]`
abbrev pub head_or_empty : List String → String
head_or_empty [] = ""
head_or_empty (s ∷ _) = s

if_true : (b : Bool) (s t : String) → b ≡ true → (if b then s else t) ≡ s
if_true b s t h = rw h

module _ (dicts : Dict (Dict Node)) where
  -- `code && DICTS[code]`
  abbrev pub is_known : String → Bool
  is_known code = not (is_empty code) && is_some (lookup code dicts)

  -- The part of resolveLang behind its first test, on the preference in lower case.
  unfoldable pub resolve_folded : String → String
  unfolding starts_with includes split
  resolve_folded nav =
      if starts_with "zh" nav
      then if includes "tw" nav || includes "hk" nav || includes "mo" nav then "zh-TW" else "zh-CN"
      else let base = head_or_empty (split b'-' nav) in if is_known base then base else default_lang

  -- `resolveLang(raw)`; null is the empty text, which the source treats alike.
  unfoldable pub resolve_lang : String → String
  unfolding resolve_folded to_lower
  resolve_lang raw = if is_known raw then raw else resolve_folded (to_lower raw)

  -- The registry has the languages that resolveLang names itself.
  pub record HasDefaults : Type 0 where
    pub english : is_some (lookup "en" dicts) ≡ true
    pub simplified : is_some (lookup "zh-CN" dicts) ≡ true
    pub traditional : is_some (lookup "zh-TW" dicts) ≡ true

  known_if :
      (b : Bool) (s t : String)
      → is_known s ≡ true
      → is_known t ≡ true
      → is_known (if b then s else t) ≡ true
  known_if true s t hs ht = hs
  known_if false s t hs ht = ht

  -- A text that is known if a test holds, or else one that is known anyway.
  known_or :
      (b : Bool) (s t : String)
      → (b ≡ true → is_known s ≡ true)
      → is_known t ≡ true
      → is_known (if b then s else t) ≡ true
  known_or true s t hs ht = hs refl
  known_or false s t hs ht = ht

  resolve_folded-is_known : (nav : String) → HasDefaults → is_known (resolve_folded nav) ≡ true
  unfolding resolve_folded
  resolve_folded-is_known nav h =
      let base = head_or_empty (split b'-' nav) in
      known_if (starts_with "zh" nav) _ _
        (known_if (includes "tw" nav || includes "hk" nav || includes "mo" nav) "zh-TW" "zh-CN"
          h.traditional h.simplified)
        (known_or (is_known base) base default_lang (λ own. own) h.english)

  -- Whatever the preference, resolveLang answers a language of the registry, if the registry has "en",
  -- "zh-CN" and "zh-TW".
  pub resolve_lang-is_known : (raw : String) → HasDefaults → is_known (resolve_lang raw) ≡ true
  unfolding resolve_lang
  resolve_lang-is_known raw h =
      known_or (is_known raw) raw (resolve_folded (to_lower raw)) (λ own. own)
        (resolve_folded-is_known (to_lower raw) h)

  pub resolve_lang_of_known : (raw : String) → is_known raw ≡ true → resolve_lang raw ≡ raw
  unfolding resolve_lang
  resolve_lang_of_known raw h = if_true (is_known raw) raw (resolve_folded (to_lower raw)) h

  -- Resolving a language a second time changes nothing, if the registry has "en", "zh-CN" and "zh-TW".
  pub resolve_lang_idem :
      (raw : String) → HasDefaults → resolve_lang (resolve_lang raw) ≡ resolve_lang raw
  resolve_lang_idem raw h = resolve_lang_of_known (resolve_lang raw) (resolve_lang-is_known raw h)
