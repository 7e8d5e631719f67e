-- ===== src/I18n/Dictionary/Phrases.antt =====
-- What a lookup answers: the fallbacks to English and to the key.
use wgtemporary_email.Base.{String, ◌≡◌, refl, ◌∙◌, ap, Option, none, some}
use wgtemporary_email.Base.Dict.{Dict, lookup}
use wgtemporary_email.I18n.Dictionary.{
  Node, text, group, get_value, interpolate, or_object, text_or, template_of, lookup_phrase,
}

abbrev pub IsText : Option Node → Type 0
IsText o = (s : String) × (o ≡ some (text s))

template_of_other :
    (own english : Option Node) (key : String)
    → ¬ IsText own
    → template_of (text_or own english) key ≡ template_of (text_or english english) key
template_of_other none none key h = refl
template_of_other none (some (text s)) key h = refl
template_of_other none (some (group fs)) key h = refl
template_of_other (some (text s)) english key h = absurd (h (s, refl))
template_of_other (some (group fs)) none key h = refl
template_of_other (some (group fs)) (some (text s)) key h = refl
template_of_other (some (group fs)) (some (group gs)) key h = refl

template_of_none :
    (english : Option Node) (key : String)
    → ¬ IsText english
    → template_of (text_or english english) key ≡ key
template_of_none none key h = refl
template_of_none (some (text s)) key h = absurd (h (s, refl))
template_of_none (some (group fs)) key h = refl

module _ (dicts : Dict (Dict Node)) (en : Dict Node) (lang key : String)
    (vars : Option (Dict String)) where
  -- A text of the language's own dictionary is the template, whatever English says.
  pub lookup_phrase-own :
      (s : String)
      → get_value (or_object (lookup lang dicts)) key ≡ some (text s)
      → lookup_phrase dicts en lang key vars ≡ interpolate s vars
  unfolding lookup_phrase
  lookup_phrase-own s own = rw own refl

  -- Where the language's dictionary has no text at the key, lookup answers what it does for English,
  -- if the registry has the English dictionary as English.
  pub lookup_phrase-fallback :
      lookup "en" dicts ≡ some en
      → ¬ IsText (get_value (or_object (lookup lang dicts)) key)
      → lookup_phrase dicts en lang key vars ≡ lookup_phrase dicts en "en" key vars
  unfolding lookup_phrase
  lookup_phrase-fallback english own = rw english (
      ap (λ s. interpolate s vars)
        (template_of_other (get_value (or_object (lookup lang dicts)) key) (get_value en key) key
          own))

  -- Where neither the language's dictionary nor the English one has a text at the key, lookup answers the
  -- key, with the variables in it.
  pub lookup_phrase-key :
      ¬ IsText (get_value (or_object (lookup lang dicts)) key)
      → ¬ IsText (get_value en key)
      → lookup_phrase dicts en lang key vars ≡ interpolate key vars
  unfolding lookup_phrase
  lookup_phrase-key own english =
      ap (λ s. interpolate s vars)
        (template_of_other (get_value (or_object (lookup lang dicts)) key) (get_value en key) key
            own
          ∙ template_of_none (get_value en key) key english)
