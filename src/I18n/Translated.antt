-- ===== src/I18n/Translated.antt =====
-- web/lib/i18n/index.tsx: the merged dictionaries against the English one.
use Prim.Native.Char.{code}
use Prim.Native.String.{[], ◌∷◌}
use mathlib.Core.Option.{some-injective}
use wgtemporary_email.Base.{
  false_of, not-none, sym, ap, ◌∙◌, Option-cases, inl, inr, String, ◌≡◌, refl, Bool, true, false,
  ◌&&◌, Option, none, some, List, [], ◌∷◌, all, any, str_eq, if◌then◌else◌, ◌==◌,
}
use wgtemporary_email.Base.Dict.{Dict, lookup}
use wgtemporary_email.Base.Dict.Checked.{all-lookup}
use wgtemporary_email.I18n.Dictionary.{
  Node, text, group, members, deep_merge, merge_dicts, walk, of_members,
}
use wgtemporary_email.I18n.Dictionary.Merge.{members-of_members}
use wgtemporary_email.I18n.English.{en}
use wgtemporary_email.I18n.SimplifiedChinese.{zh_cn, extra_zh_cn}
use wgtemporary_email.I18n.TraditionalChinese.{zh_tw, extra_zh_tw}
use wgtemporary_email.I18n.German.{de, extra_de}
use wgtemporary_email.I18n.Portuguese.{pt, extra_pt}

-- The names in braces in a text; the option is the name that is being read, backwards.
abbrev names_from : Option String → String → List String
names_from o [] = []
names_from none (c ∷ s) = if code c == b'{' then names_from (some "") s else names_from none s
names_from (some n) (c ∷ s) =
    let ended = names_from none s in
    let longer = names_from (some (c ∷ n)) s in if code c == b'}' then n ∷ ended else longer

abbrev pub names_in : String → List String
names_in s = names_from none s

abbrev has_all : List String → List String → Bool
has_all as_ bs = all (λ a. any (λ b. str_eq a b) bs) as_

abbrev pub same_names : String → String → Bool
same_names s t = has_all (names_in s) (names_in t) && has_all (names_in t) (names_in s)

-- A text of the other dictionary has just the names of this one.
abbrev translates : Option Node → Node → Bool
translates (some (text t)) (text s) = same_names s t
translates _ _ = false

abbrev fields_of_node : Option Node → Dict Node
fields_of_node none = []
fields_of_node (some (text _)) = []
fields_of_node (some (group fs)) = members fs

abbrev covers_fields : Dict Node → Dict Node → Bool
covers_fields other d = all (λ e. translates (lookup e.0 other) e.1) d

abbrev covers : Dict Node → Dict Node → Bool
covers other d =
    all (λ e. covers_fields (fields_of_node (lookup e.0 other)) (fields_of_node (some e.1))) d

abbrev text_of : Option Node → Option String
text_of (some (text s)) = some s
text_of _ = none

-- The text that the loop of getValue finds at a section and a key.
abbrev pub text_at : Dict Node → String → String → Option String
text_at d section key = text_of (walk (group (of_members d)) (section ∷ key ∷ []))

walk_field : (o : Option Node) → text_of (elim o [ none ↦ none | some n ↦ walk n [] ]) ≡ text_of o
walk_field none = refl
walk_field (some n) = refl

walk_section :
    (o : Option Node) (key : String)
    → text_of (elim o [ none ↦ none | some n ↦ walk n (key ∷ []) ])
      ≡ text_of (lookup key (fields_of_node o))
walk_section none key = refl
walk_section (some (text s)) key = refl
walk_section (some (group fs)) key = walk_field (lookup key (members fs))

text_at-lookup :
    (d : Dict Node) (section key : String)
    → text_at d section key ≡ text_of (lookup key (fields_of_node (lookup section d)))
text_at-lookup d section key =
    ap (λ x. text_of (elim (lookup section x) [ none ↦ none | some n ↦ walk n (key ∷ []) ]))
      (members-of_members d)
    ∙ walk_section (lookup section d) key

-- A field that is covered has a text with the same names.
abbrev Translated : Option Node → String → Type 0
Translated o s = (t : String) × (text_of o ≡ some t) × (same_names s t ≡ true)

translates-Translated :
    (o : Option Node) (n : Node) (s : String)
    → translates o n ≡ true
    → text_of (some n) ≡ some s
    → Translated o s
translates-Translated (some (text t)) (text s') s h e =
    (t, refl, rw (sym (some-injective s' s e)) h)
translates-Translated (some (text t)) (group fs) s h e = absurd (false_of h)
translates-Translated (some (group fs)) n s h e = absurd (false_of h)
translates-Translated none n s h e = absurd (false_of h)

covers_fields-Translated :
    (other d : Dict Node) (key s : String)
    → covers_fields other d ≡ true
    → text_of (lookup key d) ≡ some s
    → Translated (lookup key other) s
covers_fields-Translated other d key s h e = elim (Option-cases (lookup key d)) [
  | inl absent ↦ absurd (not-none s (rw absent at e))
  | inr (n, here) ↦
      translates-Translated (lookup key other) n s
        (all-lookup (λ k n. translates (lookup k other) n) d key n h here) (rw here at e)
]

covers-Translated :
    (other d : Dict Node) (section key s : String)
    → covers other d ≡ true
    → text_at d section key ≡ some s
    → (t : String) × (text_at other section key ≡ some t) × (same_names s t ≡ true)
covers-Translated other d section key s h e =
    let found = sym (text_at-lookup d section key) ∙ e in
    elim (Option-cases (lookup section d)) [
      | inl absent ↦ absurd (not-none s (rw absent at found))
      | inr (n, here) ↦
          let (t, there, same) =
            covers_fields-Translated (fields_of_node (lookup section other))
              (fields_of_node (some n)) key s
              (all-lookup
                (λ k n. covers_fields (fields_of_node (lookup k other)) (fields_of_node (some n))) d
                section n h here)
              (rw here at found) in
          (t, text_at-lookup other section key ∙ there, same)
    ]

-- DICTS, of the languages whose texts stand here.
unfoldable pub registered_dicts : Dict (Dict Node)
unfolding merge_dicts
registered_dicts =
    merge_dicts (("en", en) ∷ ("zh-CN", zh_cn) ∷ ("zh-TW", zh_tw) ∷ ("de", de) ∷ ("pt", pt) ∷ [])
      (("zh-CN", extra_zh_cn) ∷ ("zh-TW", extra_zh_tw) ∷ ("de", extra_de) ∷ ("pt", extra_pt) ∷ [])

covered : all (λ e. covers e.1 en) registered_dicts ≡ true
unfolding registered_dicts deep_merge
covered = refl

-- Every English text has a text in the merged dictionaries of simplified Chinese, traditional Chinese,
-- German and Portuguese, with just the same names in braces: no phrase falls back to English, and each
-- variable of the one is a variable of the other.
pub registered_dicts-Translated :
    (code : String) (dict : Dict Node) (section key s : String)
    → lookup code registered_dicts ≡ some dict
    → text_at en section key ≡ some s
    → (t : String) × (text_at dict section key ≡ some t) × (same_names s t ≡ true)
registered_dicts-Translated code dict section key s known h =
    covers-Translated dict en section key s
      (all-lookup (λ _ d. covers d en) registered_dicts code dict covered known) h
