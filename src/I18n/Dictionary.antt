-- ===== src/I18n/Dictionary.antt =====
-- web/lib/i18n/index.tsx: dictionaries, deepMerge, getValue, interpolate and lookup.
pub mod Merge
pub mod Phrases
use Prim.Native.Nat.{ℕ, suc}
use Prim.Native.String
use Prim.Native.String.{String}
use mathlib.Core.Option.{Option, none, some}
use mathlib.Core.List.{List, [], ◌∷◌}
use wgtemporary_email.Base.Dict.{Dict, lookup, insert, spread}
use wgtemporary_email.Base.Text.{◌+++◌, split, replace_all, show}

-- A value of a dictionary: a text, or an object of values.
mutual
  pub data Node : Type 0 where
    text : String → Node
    group : Fields → Node

  pub data Fields : Type 0 where
    end : Fields
    field : String → Node → Fields → Fields

abbrev pub members : Fields → Dict Node
members end = []
members (field k v fs) = (k, v) ∷ members fs

abbrev pub of_members : Dict Node → Fields
of_members [] = end
of_members ((k, v) ∷ d) = field k v (of_members d)

-- The characters of a text, by their positions: what a spread makes of it.
abbrev spread_text : ℕ → String → Dict Node
spread_text i String.[] = []
spread_text i (String.◌∷◌ c s) = (show i, text (String.◌∷◌ c String.[])) ∷ spread_text (suc i) s

-- The fields that `...(out[k] ?? {})` spreads.
abbrev pub spread_of : Option Node → Dict Node
spread_of none = []
spread_of (some (group fs)) = members fs
spread_of (some (text s)) = spread_text 0 s

-- One round of deepMerge's loop.
abbrev pub merge_entry : String → Node → Dict Node → Dict Node
merge_entry k (group fs) out =
    insert k (group (of_members (spread (spread_of (lookup k out)) (members fs)))) out
merge_entry k (text s) out = insert k (text s) out

-- `deepMerge(base, extra)`, for an `extra` that may be missing
unfoldable pub merge_entries : Dict Node → Dict Node → Dict Node
merge_entries out [] = out
merge_entries out ((k, v) ∷ extra) = merge_entries (merge_entry k v out) extra

unfoldable pub deep_merge : Dict Node → Option (Dict Node) → Dict Node
unfolding merge_entries
deep_merge base none = base
deep_merge base (some extra) = merge_entries base extra

-- The loop of getValue.
abbrev pub walk : Node → List String → Option Node
walk node [] = some node
walk (text s) (p ∷ path) = none
walk (group fs) (p ∷ path) = elim (lookup p (members fs)) [
  | none ↦ none
  | some node ↦ walk node path
]

-- `getValue(dict, path)`
unfoldable pub get_value : Dict Node → String → Option Node
unfolding split
get_value dict path = walk (group (of_members dict)) (split b'.' path)

-- `interpolate(template, vars)`; numbers among the variables come as their decimal texts.
unfoldable pub interpolate_from : String → Dict String → String
interpolate_from s [] = s
interpolate_from s ((k, v) ∷ vars) = interpolate_from (replace_all ("{" +++ k +++ "}") v s) vars

unfoldable pub interpolate : String → Option (Dict String) → String
unfolding interpolate_from
interpolate template none = template
interpolate template (some vars) = interpolate_from template vars

-- The registry, DICTS.
unfoldable pub merge_dicts : Dict (Dict Node) → Dict (Dict Node) → Dict (Dict Node)
unfolding deep_merge
merge_dicts [] extra_dicts = []
merge_dicts ((code, d) ∷ base_dicts) extra_dicts =
    (code, deep_merge d (lookup code extra_dicts)) ∷ merge_dicts base_dicts extra_dicts

abbrev pub or_object : Option (Dict Node) → Dict Node
or_object none = []
or_object (some d) = d

-- A value that is a text, or else the value of `other`.
abbrev pub text_or : Option Node → Option Node → Option Node
text_or (some (text s)) other = some (text s)
text_or _ other = other

abbrev pub template_of : Option Node → String → String
template_of (some (text s)) key = s
template_of _ key = key

module _ (dicts : Dict (Dict Node)) (en : Dict Node) where
  -- `lookup(lang, key, vars)`
  unfoldable pub lookup_phrase : String → String → Option (Dict String) → String
  unfolding get_value interpolate
  lookup_phrase lang key vars =
      interpolate
        (template_of (text_or (get_value (or_object (lookup lang dicts)) key) (get_value en key))
          key)
        vars
