-- ===== src/Admin/Config/Redact.antt =====
-- web/app/admin/config/page.tsx: the configuration as it is shown, its secrets hidden. The entries of
-- an object keep their order.
use mathlib.Core.Option
use wgtemporary_email.Base.{
  ap, ◌∙◌, ◌++◌, Option-cases, zero, suc, Option, none, some, List, [], ◌∷◌, any, arith, str_eq,
  eq_iff, Bool-cases, inl, inr, ℕ, String, ◌≡◌, refl, Bool, true, false, ◌||◌, if◌then◌else◌,
}
use wgtemporary_email.Base.Text.{to_lower, includes}

-- A JSON value.
mutual
  pub data Json : Type 0 where
    null : Json
    flag : Bool → Json
    number : ℕ → Json
    text : String → Json
    array : Elements → Json
    object : Entries → Json

  pub data Elements : Type 0 where
    nil : Elements
    cons : Json → Elements → Elements

  pub data Entries : Type 0 where
    end : Entries
    entry : String → Json → Entries → Entries

-- `SECRET_KEY_RE.test(k)`
unfoldable pub is_secret : String → Bool
unfolding to_lower includes
is_secret k =
    let folded = to_lower k in
    includes "password" folded
    || includes "passwd" folded
    || includes "secret" folded
    || includes "token" folded
    || includes "apikey" folded
    || includes "api_key" folded
    || includes "privatekey" folded
    || includes "private_key" folded

-- `redactConfig`
unfoldable mutual
  unfolding is_secret

  pub redact_config : Json → Json
  redact_config (array xs) = array (redact_elements xs)
  redact_config (object es) = object (redact_entries es)
  redact_config node = node

  pub redact_elements : Elements → Elements
  redact_elements nil = nil
  redact_elements (cons x xs) = cons (redact_config x) (redact_elements xs)

  pub redact_entries : Entries → Entries
  redact_entries end = end
  redact_entries (entry k v es) =
      let shown = redact_config v in
      entry k (if is_secret k then text "***" else shown) (redact_entries es)

-- The parts of a name that make its value a secret.
abbrev pub secret_words : List String
secret_words =
    "password" ∷ "passwd" ∷ "secret" ∷ "token" ∷ "apikey" ∷ "api_key" ∷ "privatekey" ∷ "private_key"
    ∷ []

-- A name with one of them in it, in small or capital letters.
abbrev pub names_secret : String → Bool
names_secret k = any (λ w. includes w (to_lower k)) secret_words

is_secret-names_secret : (k : String) → is_secret k ≡ names_secret k
unfolding is_secret
is_secret-names_secret k = ground arith

-- A way into a JSON value: the entry with a key, or the element at an index.
pub data Way : Type 0 where
  key : String → Way
  index : ℕ → Way

abbrev entry_at : String → Entries → Option Json
entry_at k end = none
entry_at k (entry j v es) = if str_eq j k then some v else entry_at k es

abbrev element_at : ℕ → Elements → Option Json
element_at i nil = none
element_at zero (cons x xs) = some x
element_at (suc i) (cons x xs) = element_at i xs

abbrev step : Way → Json → Option Json
step (key k) (object es) = entry_at k es
step (index i) (array xs) = element_at i xs
step _ _ = none

abbrev and_then : Option Json → (Json → Option Json) → Option Json
and_then none f = none
and_then (some j) f = f j

-- The value at the end of a path.
abbrev pub at : List Way → Json → Option Json
at [] j = some j
at (w ∷ ws) j = and_then (step w j) (at ws)

-- The way is the entry of a secret.
abbrev pub is_hidden : Way → Bool
is_hidden (key k) = names_secret k
is_hidden (index _) = false

entry_at-redact :
    (k : String) (es : Entries)
    → entry_at k (redact_entries es)
      ≡ Option.map (λ v. if names_secret k then text "***" else redact_config v) (entry_at k es)
unfolding redact_config
entry_at-redact k end = refl
entry_at-redact k (entry j v es) = elim (Bool-cases (str_eq j k)) [
  | inl same ↦ rw (same, is_secret-names_secret j, (eq_iff j k).0 same) refl
  | inr other ↦ rw other (entry_at-redact k es)
]

element_at-redact :
    (i : ℕ) (xs : Elements)
    → element_at i (redact_elements xs) ≡ Option.map redact_config (element_at i xs)
unfolding redact_config
element_at-redact i nil = refl
element_at-redact zero (cons x xs) = refl
element_at-redact (suc i) (cons x xs) = element_at-redact i xs

step-redact :
    (w : Way) (j : Json)
    → step w (redact_config j)
      ≡ Option.map (λ v. if is_hidden w then text "***" else redact_config v) (step w j)
unfolding redact_config
step-redact (key k) (object es) = entry_at-redact k es
step-redact (index i) (array xs) = element_at-redact i xs
step-redact (key k) (array xs) = refl
step-redact (index i) (object es) = refl
step-redact (key k) null = refl
step-redact (index i) null = refl
step-redact (key k) (flag b) = refl
step-redact (index i) (flag b) = refl
step-redact (key k) (number n) = refl
step-redact (index i) (number n) = refl
step-redact (key k) (text s) = refl
step-redact (index i) (text s) = refl

or_false_left : (a b : Bool) → (a || b) ≡ false → a ≡ false
or_false_left a b h = ground arith

or_false_right : (a b : Bool) → (a || b) ≡ false → b ≡ false
or_false_right a b h = ground arith

at-redact :
    (ws : List Way) (j : Json)
    → any is_hidden ws ≡ false
    → at ws (redact_config j) ≡ Option.map redact_config (at ws j)
at-redact [] j h = refl
at-redact (w ∷ ws) j h =
    ap (λ o. and_then o (at ws)) (step-redact w j) ∙ elim (Option-cases (step w j)) [
      | inl absent ↦ rw absent refl
      | inr (v, here) ↦
          rw (here, or_false_left (is_hidden w) _ h)
            (at-redact ws v (or_false_right (is_hidden w) _ h))
    ]

and_then_some : (o : Option Json) → and_then o (at []) ≡ o
and_then_some none = refl
and_then_some (some j) = refl

at-append : (ws : List Way) (w : Way) (j : Json) → at (ws ++ w ∷ []) j ≡ and_then (at ws j) (step w)
at-append [] w j = and_then_some (step w j)
at-append (v ∷ ws) w j = elim (Option-cases (step v j)) [
  | inl absent ↦ rw absent refl
  | inr (u, here) ↦ rw here (at-append ws w u)
]

-- A value without its elements and entries.
abbrev pub surface : Json → Json
surface (array xs) = array nil
surface (object es) = object end
surface leaf = leaf

-- How a place shows: three stars where it is there and secret; else there is what was there, a text, a
-- number, a flag, null, an array or an object, the first four as they were.
abbrev pub IsShown : (hidden : Bool) → (before after : Option Json) → Type 0
IsShown true before after = after ≡ Option.map (λ _. text "***") before
IsShown false before after = Option.map surface after ≡ Option.map surface before

surface-redact : (j : Json) → surface (redact_config j) ≡ surface j
unfolding redact_config
surface-redact null = refl
surface-redact (flag b) = refl
surface-redact (number n) = refl
surface-redact (text s) = refl
surface-redact (array xs) = refl
surface-redact (object es) = refl

IsShown-redact :
    (b : Bool) (o : Option Json)
    → IsShown b o (Option.map (λ v. if b then text "***" else redact_config v) o)
IsShown-redact true none = refl
IsShown-redact true (some j) = refl
IsShown-redact false none = refl
IsShown-redact false (some j) = ap some (surface-redact j)

step-IsShown :
    (w : Way) (o : Option Json)
    → IsShown (is_hidden w) (and_then o (step w)) (and_then (Option.map redact_config o) (step w))
step-IsShown w none = IsShown-redact (is_hidden w) none
step-IsShown w (some j) = rw (step-redact w j) (IsShown-redact (is_hidden w) (step w j))

-- What the page shows of a configuration, at any place with no secret above it: an entry whose key names
-- a password, a secret, a token or a key of an API or a private key, in small or capital letters, shows
-- three stars; all else shows as it is.
pub redact_config-IsShown :
    (above : List Way) (w : Way) (j : Json)
    → any is_hidden above ≡ false
    → IsShown (is_hidden w) (at (above ++ w ∷ []) j) (at (above ++ w ∷ []) (redact_config j))
redact_config-IsShown above w j h =
    rw (at-append above w j, at-append above w (redact_config j), at-redact above j h)
      (step-IsShown w (at above j))
