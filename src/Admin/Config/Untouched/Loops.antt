-- ===== src/Admin/Config/Untouched/Loops.antt =====
-- web/app/admin/config/page.tsx: what the loops of handleSave make of a form as fetchConfig filled it in.
use wgtemporary_email.Base.{
  and_left, and_right, any, ◌||◌, str_eq, eq_iff, not-ltb, ℕ, String, ◌≡◌, refl, sym, ap, ◌∙◌, Bool,
  true, false, not, ◌&&◌, Option, none, some, List, [], ◌∷◌, All, Bool-cases, inl, inr,
  if◌then◌else◌, ◌≤◌,
}
use wgtemporary_email.Base.Dict.{Dict, lookup, insert, lookup-insert}
use wgtemporary_email.Base.Text.{is_empty-show, show}
use wgtemporary_email.Admin.Requests.{Value, null, bool, num, str, strs}
use wgtemporary_email.Admin.Config.Fields.{
  IntField, BoolField, int_fields, bool_fields, min_allowed, Config, get_value, Form, int_input,
  bool_input, name_of,
}
use wgtemporary_email.Admin.Config.Patch.{
  put, Step, patched, patch_int, patch_ints, patch_bools, differs, is_ticked,
}

-- A number of the configuration is one that the page lets through, and is read back as it is shown.
abbrev pub IsReadable : (String → Option ℕ) → IntField → Option Value → Type 0
IsReadable integer f none = Unit
IsReadable integer f (some (num n)) = (min_allowed f ≤ n) × (integer (show n) ≡ some n)
IsReadable integer f (some _) = ⊥

abbrev pub is_switch : Option Value → Bool
is_switch (some (bool _)) = true
is_switch _ = false

abbrev pub is_there : Option Value → Bool
is_there none = false
is_there (some _) = true

lookup-section :
    (k : String) (o : Option (Dict Value))
    → lookup k (elim o [ none ↦ [] | some d ↦ d ]) ≡ elim o [ none ↦ none | some d ↦ lookup k d ]
lookup-section k none = refl
lookup-section k (some d) = refl

-- A setting that was put is read back, and every other setting stays.
get_value-put :
    (section key s k : String) (v : Value) (patch : Config)
    → get_value (put section key v patch) s k
      ≡ (if str_eq section s && str_eq key k then some v else get_value patch s k)
unfolding get_value
get_value-put section key s k v patch =
    ap (λ (o : Option (Dict Value)). elim o [ none ↦ none | some d ↦ lookup k d ])
      (lookup-insert section s (insert key v written) patch)
    ∙ chosen (str_eq section s) (eq_iff section s).0
  where
    written : Dict Value
    written = elim (lookup section patch) [ none ↦ [] | some d ↦ d ]

    chosen :
        (b : Bool)
        → (b ≡ true → section ≡ s)
        → elim (if b then some (insert key v written) else lookup s patch) [
          | none ↦ none
          | some d ↦ lookup k d
        ]
          ≡ (if b && str_eq key k
              then some v
              else elim (lookup s patch) [ none ↦ none | some d ↦ lookup k d ])
    chosen false same = refl
    chosen true same =
        lookup-insert key k v written
        ∙ ap (λ o. if str_eq key k then some v else o)
            (lookup-section k (lookup section patch)
              ∙ ap (λ t. elim (lookup t patch) [ none ↦ none | some d ↦ lookup k d ]) (same refl))

choose_twice :
    (a b w : Bool) (x y : Option Value)
    → (if b && w then x else if a && w then x else y) ≡ (if (a || b) && w then x else y)
choose_twice true true true x y = refl
choose_twice true true false x y = refl
choose_twice true false true x y = refl
choose_twice true false false x y = refl
choose_twice false b w x y = refl

module _ (c : Config) (s k : String) where
  -- The field is the setting `k` of the section `s`.
  abbrev pub int_is : IntField → Bool
  int_is f = str_eq f.section s && str_eq f.key k

  abbrev pub bool_is : BoolField → Bool
  bool_is f = str_eq f.section s && str_eq f.key k

  -- What a save of an untouched form sends for the setting: it switches off a switch of the page that the
  -- server did not list as one, sends a number of the page as the server has it, and no other setting.
  abbrev pub untouched : Option Value
  untouched =
      if any bool_is bool_fields && not (is_switch (get_value c s k))
      then some (bool false)
      else if any int_is int_fields && is_there (get_value c s k)
      then get_value c s k
      else none

  get_value-named :
      (section key : String)
      → (str_eq section s && str_eq key k) ≡ true
      → get_value c s k ≡ get_value c section key
  get_value-named section key h =
      let e = (eq_iff section s).0 (and_left (str_eq section s) _ h) in
      let e' = (eq_iff key k).0 (and_right (str_eq section s) _ h) in
      ap (λ t. get_value c t k) (sym e) ∙ ap (get_value c section) (sym e')

  switch_off :
      (b : Bool) (f : BoolField) (v : Option Value) (patch : Config)
      → is_switch v ≡ false
      → b ≡ bool_is f
      → get_value (put f.section f.key (bool false) patch) s k
        ≡ (if b && not (is_switch v) then some (bool false) else get_value patch s k)
  switch_off b f v patch other e =
      get_value-put f.section f.key s k (bool false) patch
      ∙ rw (sym e, other) (both b (some (bool false)) (get_value patch s k))
    where
      both : (b : Bool) (x y : Option Value) → (if b then x else y) ≡ (if b && true then x else y)
      both true x y = refl
      both false x y = refl

  kept_switch : (b : Bool) (x y : Option Value) → y ≡ (if b && false then x else y)
  kept_switch true x y = refl
  kept_switch false x y = refl

  -- A round of the loop over BOOL_FIELDS.
  round_bool :
      (f : BoolField) (v : Option Value) (patch : Config)
      → get_value
          (if differs v (is_ticked (some (bool_input v)))
            then put f.section f.key (bool (is_ticked (some (bool_input v)))) patch
            else patch)
          s
          k
        ≡ (if bool_is f && not (is_switch v) then some (bool false) else get_value patch s k)
  round_bool f (some (bool true)) patch = kept_switch (bool_is f) _ _
  round_bool f (some (bool false)) patch = kept_switch (bool_is f) _ _
  round_bool f none patch = switch_off (bool_is f) f none patch refl refl
  round_bool f (some null) patch = switch_off (bool_is f) f (some null) patch refl refl
  round_bool f (some (num n)) patch = switch_off (bool_is f) f (some (num n)) patch refl refl
  round_bool f (some (str t)) patch = switch_off (bool_is f) f (some (str t)) patch refl refl
  round_bool f (some (strs t)) patch = switch_off (bool_is f) f (some (strs t)) patch refl refl

  same_test :
      (b w w' : Bool) (x y : Option Value)
      → (b ≡ true → w ≡ w')
      → (if b && w then x else y) ≡ (if b && w' then x else y)
  same_test true w w' x y h = rw (h refl) refl
  same_test false w w' x y h = refl

  pub patch_bools-get :
      (form : Form) (fs : List BoolField) (patch : Config)
      → All
          (λ f.
            lookup (name_of f.section f.key) form ≡ some (bool_input (get_value c f.section f.key)))
          fs
      → get_value (patch_bools c form fs patch) s k ≡ (
          if any bool_is fs && not (is_switch (get_value c s k))
          then some (bool false)
          else get_value patch s k)
  unfolding patch_bools
  patch_bools-get form [] patch filled = refl
  patch_bools-get form (f ∷ fs) patch filled = rw filled.0 (
      patch_bools-get form fs _ filled.1
      ∙ ap
          (λ o.
            if any bool_is fs && not (is_switch (get_value c s k)) then some (bool false) else o)
          (round_bool f (get_value c f.section f.key) patch
            ∙ same_test (bool_is f) _ (not (is_switch (get_value c s k))) _ _
                (λ h. ap (λ v. not (is_switch v)) (sym (get_value-named f.section f.key h))))
      ∙ choose_twice (bool_is f) (any bool_is fs) (not (is_switch (get_value c s k))) _ _)

  module _ (integer : String → Option ℕ) (form : Form) where
    -- The loop over INT_FIELDS ends with a patch that has `o` for the setting.
    abbrev EndsWith : Option Value → Step → Type 0
    EndsWith o step = (p : Config) × (step ≡ patched p) × (get_value p s k ≡ o)

    round_int :
        (f : IntField) (v : Option Value) (skipped : Step) (rest : ℕ → Step) (o : Option Value)
        → IsReadable integer f v
        → (v ≡ none → EndsWith o skipped)
        → ((n : ℕ) → v ≡ some (num n) → EndsWith o (rest n))
        → EndsWith o (patch_int integer f (some (int_input v)) skipped rest)
    round_int f none skipped rest o r skip put_it = skip refl
    round_int f (some (num n)) skipped rest o r skip put_it =
        rw (is_empty-show n, r.1, not-ltb n (min_allowed f) r.0) (put_it n refl)
    round_int f (some null) skipped rest o r skip put_it = absurd r
    round_int f (some (bool _)) skipped rest o r skip put_it = absurd r
    round_int f (some (str _)) skipped rest o r skip put_it = absurd r
    round_int f (some (strs _)) skipped rest o r skip put_it = absurd r

    abbrev sent_int : List IntField → Option Value → Option Value
    sent_int fs o = if any int_is fs && is_there (get_value c s k) then get_value c s k else o

    skipped_int :
        (f : IntField) (fs : List IntField) (o : Option Value)
        → get_value c f.section f.key ≡ none
        → sent_int fs o ≡ sent_int (f ∷ fs) o
    skipped_int f fs o absent = elim (Bool-cases (int_is f)) [
      | inl this ↦
          rw (get_value-named f.section f.key this ∙ absent) (nowhere (any int_is fs) (int_is f))
      | inr other ↦ rw other refl
    ]
      where
        nowhere :
            (a b : Bool)
            → (if a && false then none else o) ≡ (if (b || a) && false then none else o)
        nowhere true true = refl
        nowhere true false = refl
        nowhere false true = refl
        nowhere false false = refl

    written_int :
        (f : IntField) (fs : List IntField) (patch : Config) (n : ℕ)
        → get_value c f.section f.key ≡ some (num n)
        → sent_int fs (get_value (put f.section f.key (num n) patch) s k)
          ≡ sent_int (f ∷ fs) (get_value patch s k)
    written_int f fs patch n here =
        ap (sent_int fs) (get_value-put f.section f.key s k (num n) patch)
        ∙ elim (Bool-cases (int_is f)) [
          | inl this ↦ rw (this, get_value-named f.section f.key this ∙ here) (once (any int_is fs))
          | inr other ↦ rw other refl
        ]
      where
        once : (a : Bool) → (if a && true then some (num n) else some (num n)) ≡ some (num n)
        once true = refl
        once false = refl

    pub patch_ints-get :
        (fs : List IntField) (patch : Config)
        → All
            (λ f.
              lookup (name_of f.section f.key) form
              ≡ some (int_input (get_value c f.section f.key)))
            fs
        → All (λ f. IsReadable integer f (get_value c f.section f.key)) fs
        → EndsWith (sent_int fs (get_value patch s k)) (patch_ints integer form fs patch)
    unfolding patch_ints
    patch_ints-get [] patch filled readable = (patch, refl, refl)
    patch_ints-get (f ∷ fs) patch filled readable = rw filled.0 (
        round_int f (get_value c f.section f.key) _ _ _ readable.0
          (λ absent.
            let (p, e, g) = patch_ints-get fs patch filled.1 readable.1 in
            (p, e, g ∙ skipped_int f fs (get_value patch s k) absent))
          (λ n here.
            let (p, e, g) =
              patch_ints-get fs (put f.section f.key (num n) patch) filled.1 readable.1 in
            (p, e, g ∙ written_int f fs patch n here)))
