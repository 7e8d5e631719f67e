-- ===== src/I18n/Dictionary/Merge.antt =====
-- What a merged dictionary holds.
use wgtemporary_email.Base.{
  String, ◌≡◌, refl, Bool, true, false, Option, none, some, [], ◌∷◌, arith, All, str_eq, eq_iff,
  if◌then◌else◌, ap, sym, ◌∙◌,
}
use wgtemporary_email.Base.Dict.{
  Dict, lookup, spread, lookup_last, lookup-insert, or_else, lookup-spread,
}
use wgtemporary_email.I18n.Dictionary.{
  Node, text, group, Fields, members, of_members, spread_of, merge_entry, merge_entries, deep_merge,
  merge_dicts,
}

pub members-of_members : (d : Dict Node) → members (of_members d) ≡ d
members-of_members [] = refl
members-of_members ((k, v) ∷ d) = ap (λ (t : Dict Node). (k, v) ∷ t) (members-of_members d)

abbrev pub IsGroup : Node → Type 0
IsGroup (text s) = ⊥
IsGroup (group fs) = Unit

-- Every value is an object: the shape of a dictionary's sections.
abbrev pub IsSectioned : Dict Node → Type 0
IsSectioned = All (λ e. IsGroup e.1)

abbrev pub inside : Option Node → String → Option Node
inside o k = lookup k (spread_of o)

-- `d[section][k]`
abbrev pub entry : String → String → Dict Node → Option Node
entry section k d = inside (lookup section d) k

-- The last value at `[section][k]` of an extension.
abbrev pub last_entry : String → String → Dict Node → Option Node
last_entry section k [] = none
last_entry section k ((j, v) ∷ d) =
    or_else (last_entry section k d)
      (if str_eq j section then lookup_last k (spread_of (some v)) else none)

or_else_assoc : (a b c : Option Node) → or_else (or_else a b) c ≡ or_else a (or_else b c)
or_else_assoc none b c = refl
or_else_assoc (some v) b c = refl

-- One merged section, by whether it is the section that is read.
inside-merged :
    (b : Bool) (section k j : String) (fs : Fields) (out : Dict Node)
    → (b ≡ true → j ≡ section)
    → inside
        (if b
          then some (group (of_members (spread (spread_of (lookup j out)) (members fs))))
          else lookup section out)
        k
      ≡ or_else (if b then lookup_last k (members fs) else none) (entry section k out)
inside-merged true section k j fs out same =
    ap (lookup k) (members-of_members (spread (spread_of (lookup j out)) (members fs)))
    ∙ (lookup-spread k (spread_of (lookup j out)) (members fs)
        ∙ ap (λ s. or_else (lookup_last k (members fs)) (entry s k out)) (same refl))
inside-merged false section k j fs out same = refl

entry-merge_entry :
    (section k j : String) (fs : Fields) (out : Dict Node)
    → entry section k (merge_entry j (group fs) out)
      ≡ or_else
          (if str_eq j section then lookup_last k (members fs) else none)
          (entry section k out)
entry-merge_entry section k j fs out =
    ap (λ o. inside o k)
      (lookup-insert j section (group (of_members (spread (spread_of (lookup j out)) (members fs))))
        out)
    ∙ inside-merged (str_eq j section) section k j fs out (eq_iff j section).0

entry-merge_entries :
    (section k : String) (out extra : Dict Node)
    → IsSectioned extra
    → entry section k (merge_entries out extra)
      ≡ or_else (last_entry section k extra) (entry section k out)
unfolding merge_entries
entry-merge_entries section k out [] h = refl
entry-merge_entries section k out ((j, text s) ∷ extra) h = absurd h.0
entry-merge_entries section k out ((j, group fs) ∷ extra) h =
    let mine = if str_eq j section then lookup_last k (members fs) else none in
    entry-merge_entries section k (merge_entry j (group fs) out) extra h.1
    ∙ (ap (or_else (last_entry section k extra)) (entry-merge_entry section k j fs out)
        ∙ sym (or_else_assoc (last_entry section k extra) mine (entry section k out)))

-- A key of a section of the merged dictionary has the last value that the extension gives it, and the
-- value of the base where the extension gives it none. The extension is a dictionary of sections.
pub deep_merge-entry :
    (section k : String) (base extra : Dict Node)
    → IsSectioned extra
    → entry section k (deep_merge base (some extra))
      ≡ or_else (last_entry section k extra) (entry section k base)
unfolding deep_merge
deep_merge-entry section k base extra h = entry-merge_entries section k base extra h

-- The registry has a language exactly if there is a base dictionary for it, which is then merged with
-- the extension of that language.
pub lookup-merge_dicts :
    (code : String) (base extra : Dict (Dict Node))
    → lookup code (merge_dicts base extra)
      ≡ elim (lookup code base) [ none ↦ none | some d ↦ some (deep_merge d (lookup code extra)) ]
unfolding merge_dicts
lookup-merge_dicts code [] extra = refl
lookup-merge_dicts code ((j, d) ∷ base) extra =
    ground (arith, lookup-merge_dicts code base extra, eq_iff j code)
