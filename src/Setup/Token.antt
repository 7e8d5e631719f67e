-- ===== src/Setup/Token.antt =====
-- web/app/setup/page.tsx: what generateToken makes of the random numbers.
use Prim.Native.Char.{Char, code}
use wgtemporary_email.Base.{
  ℕ, zero, suc, String, ◌≡◌, refl, ap, Bool, true, false, ◌&&◌, ◌||◌, List, [], ◌∷◌, ◌%◌, ◌<◌, ◌==◌,
  length, arith,
}
use wgtemporary_email.Base.Text.{nth_char}
use wgtemporary_email.Setup.{token_chars, token_of}

-- The text has the character.
abbrev pub has_char : Char → String → Bool
has_char c String.[] = false
has_char c (String.◌∷◌ d s) = code c == code d || has_char c s

abbrev pub all_chars : (Char → Bool) → String → Bool
all_chars p String.[] = true
all_chars p (String.◌∷◌ c s) = p c && all_chars p s

abbrev pub size : String → ℕ
size String.[] = 0
size (String.◌∷◌ c s) = suc (size s)

has_char-nth_char :
    (i : ℕ) (s : String) (d : Char) → i < size s → has_char (nth_char i s d) s ≡ true
has_char-nth_char i String.[] d h = absurd (omega arith)
has_char-nth_char zero (String.◌∷◌ c s) d h = ground arith
has_char-nth_char (suc i) (String.◌∷◌ c s) d h =
    let rest = has_char-nth_char i s d (omega arith) in ground (arith, rest)

-- A generated token has one character for each random number, and each of them is one of the 55
-- characters of the alphabet.
pub token_of_lem :
    (arr : List ℕ)
    → (size (token_of arr) ≡ length arr)
      × (all_chars (λ c. has_char c token_chars) (token_of arr) ≡ true)
unfolding token_of
token_of_lem [] = (refl, refl)
token_of_lem (a ∷ arr) =
    let (same, known) = token_of_lem arr in
    let here : has_char (nth_char (a % 55) token_chars "A") token_chars ≡ true =
      has_char-nth_char (a % 55) token_chars "A" (omega arith) in
    (ap suc same, and_true _ _ here known)
  where
    and_true : (a b : Bool) → a ≡ true → b ≡ true → (a && b) ≡ true
    and_true true b h k = k
    and_true false b h k = h
