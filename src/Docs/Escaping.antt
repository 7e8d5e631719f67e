-- ===== src/Docs/Escaping.antt =====
-- web/app/api/page.tsx: the values that a user types stay where they are put in the URL of a test.
use Prim.Native.Char.{Char, code}
use Prim.Native.String.{count, [], ◌∷◌}
use mathlib.Core.Option.{some-injective}
use text.Mathlib.TextLemmas.{nil-append, cons-append, length-cons}
use wgtemporary_email.Base.{
  false_of, not-none, and_left, and_right, eq_of_same, not-same, ℕ, zero, suc, ◌+◌, String, ◌≡◌,
  ◌≢◌, refl, sym, ◌∙◌, ap, Bool, true, false, ◌&&◌, some, List, [], ◌∷◌, All, Bool-cases, inl, inr,
  arith, ltb, ◌==◌, if◌then◌else◌, ◌%◌, ◌/◌,
}
use wgtemporary_email.Base.Text.{
  ◌+++◌, is_empty, trim, starts_with, drop_chars, nth_char, is_unreserved, encode_uri_component,
  hex_digit, percent, percent_code,
}
use wgtemporary_email.Docs.Endpoints.{ParamDef}
use wgtemporary_email.Docs.Url.{replace_first, fill_path}

-- How many characters of a text have the code.
unfoldable pub tally : ℕ → String → ℕ
tally n [] = 0
tally n (c ∷ s) = (if code c == n then 1 else 0) + tally n s

zero_add : (k : ℕ) → 0 + k ≡ k
zero_add k = omega arith

tally-append : (n : ℕ) (s t : String) → tally n (s +++ t) ≡ tally n s + tally n t
unfolding tally
tally-append n [] t = ap (tally n) (nil-append t) ∙ sym (zero_add (tally n t))
tally-append n (c ∷ s) t = omega (arith, ap (tally n) (cons-append c s t), tally-append n s t)

tally-append_zero : (n : ℕ) (s t : String) → tally n s ≡ 0 → tally n t ≡ 0 → tally n (s +++ t) ≡ 0
tally-append_zero n s t h g = omega (arith, tally-append n s t)

-- A character that encodeURIComponent never writes.
pub record IsReserved (n : ℕ) : Type 0 where
  pub not_kept : is_unreserved n ≡ false
  pub not_percent : n ≢ b'%'

abbrev all_kept : String → Bool
all_kept [] = true
all_kept (c ∷ s) = is_unreserved (code c) && all_kept s

nth_char-kept :
    (k : ℕ) (s : String) (d : Char)
    → all_kept s ≡ true
    → is_unreserved (code d) ≡ true
    → is_unreserved (code (nth_char k s d)) ≡ true
nth_char-kept k [] d h g = g
nth_char-kept zero (c ∷ s) d h g = and_left (is_unreserved (code c)) (all_kept s) h
nth_char-kept (suc k) (c ∷ s) d h g =
    nth_char-kept k s d (and_right (is_unreserved (code c)) (all_kept s) h) g

not-same_of_kept : (k n : ℕ) → IsReserved n → is_unreserved k ≡ true → k == n ≡ false
not-same_of_kept k n h g = elim (Bool-cases (k == n)) [
  | inl same ↦ absurd (false_of (sym h.not_kept ∙ ap is_unreserved (sym (eq_of_same k n same)) ∙ g))
  | inr other ↦ other
]

tally-kept :
    (n : ℕ) (c : Char) → IsReserved n → is_unreserved (code c) ≡ true → tally n (c ∷ []) ≡ 0
unfolding tally
tally-kept n c h g = rw (not-same_of_kept (code c) n h g) refl

hex_digit-tally : (n k : ℕ) → IsReserved n → tally n (hex_digit k) ≡ 0
unfolding hex_digit
hex_digit-tally n k h =
    tally-kept n (nth_char k "0123456789ABCDEF" "0") h
      (nth_char-kept k "0123456789ABCDEF" "0" refl refl)

percent_sign-tally : (n : ℕ) → IsReserved n → tally n "%" ≡ 0
unfolding tally
percent_sign-tally n h = rw (not-same b'%' n (λ e. h.not_percent (sym e))) refl

percent-tally : (n b : ℕ) → IsReserved n → tally n (percent b) ≡ 0
unfolding percent
percent-tally n b h = tally-append_zero n "%" _ (percent_sign-tally n h) (
    tally-append_zero n (hex_digit (b / 16)) (hex_digit (b % 16)) (hex_digit-tally n (b / 16) h)
      (hex_digit-tally n (b % 16) h))

if-tally :
    (n : ℕ) (b : Bool) (s t : String)
    → tally n s ≡ 0
    → tally n t ≡ 0
    → tally n (if b then s else t) ≡ 0
if-tally n true s t h g = h
if-tally n false s t h g = g

percent_code-tally : (n k : ℕ) → IsReserved n → tally n (percent_code k) ≡ 0
unfolding percent_code
percent_code-tally n k h =
    let p = λ (b : ℕ). percent-tally n b h in
    if-tally n (ltb k 0x80) _ _ (p k) (
      if-tally n (ltb k 0x800) _ _
        (tally-append_zero n (percent (0xc0 + k / 64)) (percent (0x80 + k % 64)) (p _) (p _))
        (if-tally n (ltb k 0x10000) _ _
          (tally-append_zero n (percent (0xe0 + k / 4096)) _ (p _) (
            tally-append_zero n (percent (0x80 + k / 64 % 64)) (percent (0x80 + k % 64)) (p _)
              (p _)))
          (tally-append_zero n (percent (0xf0 + k / 262144)) _ (p _) (
            tally-append_zero n (percent (0x80 + k / 4096 % 64)) _ (p _) (
              tally-append_zero n (percent (0x80 + k / 64 % 64)) (percent (0x80 + k % 64)) (p _)
                (p _))))))

encode_char-tally :
    (n : ℕ) (c : Char)
    → IsReserved n
    → tally n (if is_unreserved (code c) then c ∷ "" else percent_code (code c)) ≡ 0
encode_char-tally n c h = elim (Bool-cases (is_unreserved (code c))) [
  | inl kept ↦ rw kept (tally-kept n c h kept)
  | inr coded ↦ rw coded (percent_code-tally n (code c) h)
]

-- encodeURIComponent writes no reserved character.
encode_uri_component-tally :
    (n : ℕ) (s : String) → IsReserved n → tally n (encode_uri_component s) ≡ 0
unfolding encode_uri_component tally
encode_uri_component-tally n [] h = refl
encode_uri_component-tally n (c ∷ s) h =
    tally-append_zero n (if is_unreserved (code c) then c ∷ "" else percent_code (code c))
      (encode_uri_component s) (encode_char-tally n c h) (encode_uri_component-tally n s h)

starts_with-tally :
    (n : ℕ) (p s : String)
    → starts_with p s ≡ true
    → tally n s ≡ tally n p + tally n (drop_chars (count p) s)
unfolding starts_with drop_chars tally
starts_with-tally n [] s h = sym (zero_add (tally n s))
starts_with-tally n (a ∷ p) [] h = absurd (false_of h)
starts_with-tally n (a ∷ p) (c ∷ s) h =
    let rest = starts_with-tally n p s (and_right (code a == code c) (starts_with p s) h) in
    let same = eq_of_same (code a) (code c) (and_left (code a == code c) (starts_with p s) h) in
    rw (same, length-cons a p) (omega (arith, rest))

-- A text that is put in for another, neither with a reserved character, leaves their number.
replace_first-tally :
    (n : ℕ) (p by s : String)
    → tally n p ≡ 0
    → tally n by ≡ 0
    → tally n (replace_first p by s) ≡ tally n s
unfolding replace_first tally
replace_first-tally n p by [] h g = refl
replace_first-tally n p by (c ∷ s) h g = elim (Bool-cases (starts_with p (c ∷ s))) [
  | inl found ↦ rw found (
      omega (
        arith,
        tally-append n by (drop_chars (count p) (c ∷ s)),
        starts_with-tally n p (c ∷ s) found,
      ))
  | inr other ↦ rw other (omega (arith, replace_first-tally n p by s h g))
]

-- The text around the name of a parameter.
abbrev pub placeholder : ParamDef → String
placeholder p = "{" +++ p.name +++ "}"

-- What a user types cannot leave its place in the path: where none of the names of the parameters has
-- the character, the path that is filled in has a character that encodeURIComponent escapes, such as
-- `/`, `?` or `#`, as often as the documented path, whatever the values.
pub fill_path-tally :
    (n : ℕ) (value : String → String) (ps : List ParamDef) (text filled : String)
    → IsReserved n
    → All (λ p. tally n (placeholder p) ≡ 0) ps
    → fill_path value ps text ≡ some filled
    → tally n filled ≡ tally n text
unfolding fill_path
fill_path-tally n value [] text filled h names e = ap (tally n) (sym (some-injective text filled e))
fill_path-tally n value (p ∷ ps) text filled h names e =
    let v = trim (value p.name) in
    elim (Bool-cases (is_empty v)) [
      | inl blank ↦ absurd (not-none filled (rw blank at e))
      | inr given ↦
          fill_path-tally n value ps (replace_first (placeholder p) (encode_uri_component v) text)
            filled h names.1 (rw given at e)
          ∙ replace_first-tally n (placeholder p) (encode_uri_component v) text names.0
              (encode_uri_component-tally n v h)
    ]
