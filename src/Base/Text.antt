-- ===== src/Base/Text.antt =====
-- What the client uses of JavaScript's strings, over the code points of a text.
-- `to_lower` folds the letters A to Z alone: host names and domains, which the client folds, are ASCII.
use Prim.Native.Nat.{ℕ, zero, suc, ◌+◌, ◌-◌, ◌/◌, ◌%◌, pred}
use Prim.Native.Char.{Char, code}
use Prim.Native.String
use Prim.Native.String.{String, [], ◌∷◌, count}
use Prim.Native.String.append.{nil as nil-append, cons as cons-append}
use mathlib.Core.Path.{◌≡◌, refl, ap}
use mathlib.Core.Bool.{Bool, true, false, ◌&&◌, ◌||◌}
use mathlib.Core.Option.{Option, none, some}
use mathlib.Core.List.{List, [], ◌∷◌}
use wgtemporary_email.Base.Tests.{◌==◌, leb, ltb, if◌then◌else◌}

infixr 66 ◌+++◌
abbrev pub ◌+++◌ : String → String → String
s +++ t = String.◌++◌ s t

abbrev push : String → Char → String
push s c = s +++ (c ∷ [])

-- `!s`
abbrev pub is_empty : String → Bool
is_empty [] = true
is_empty (_ ∷ _) = false

-- `s || undefined`
abbrev pub or_none : String → Option String
or_none s = if is_empty s then none else some s

-- `o || ""`
abbrev pub or_empty : Option String → String
or_empty none = ""
or_empty (some s) = s

abbrev pub nth_char : ℕ → String → Char → Char
nth_char _ [] d = d
nth_char zero (c ∷ s) d = c
nth_char (suc n) (c ∷ s) d = nth_char n s d

lower_char : Char → Char
lower_char c =
    if leb b'A' (code c) && leb (code c) b'Z'
    then nth_char (code c - b'A') "abcdefghijklmnopqrstuvwxyz" c
    else c

unfoldable pub to_lower : String → String
unfolding lower_char
to_lower [] = []
to_lower (c ∷ s) = lower_char c ∷ to_lower s

-- The white space and line ends that `trim` removes.
abbrev pub is_space : ℕ → Bool
is_space n =
    (leb 9 n && leb n 13)
    || n == 0x20
    || n == 0xa0
    || n == 0x1680
    || (leb 0x2000 n && leb n 0x200a)
    || n == 0x2028
    || n == 0x2029
    || n == 0x202f
    || n == 0x205f
    || n == 0x3000
    || n == 0xfeff

unfoldable pub trim_start : String → String
trim_start [] = []
trim_start (c ∷ s) = let rest = trim_start s in if is_space (code c) then rest else c ∷ s

unfoldable pub trim_end : String → String
trim_end [] = []
trim_end (c ∷ s) =
    let rest = trim_end s in if is_space (code c) && is_empty rest then [] else c ∷ rest

unfoldable pub trim : String → String
unfolding trim_start trim_end
trim s = trim_end (trim_start s)

-- `s.startsWith(p)`, with `p` first
unfoldable pub starts_with : String → String → Bool
starts_with [] _ = true
starts_with (_ ∷ _) [] = false
starts_with (a ∷ p) (c ∷ s) = code a == code c && starts_with p s

-- `s.includes(p)`, with `p` first
unfoldable pub includes : String → String → Bool
unfolding starts_with
includes p [] = is_empty p
includes p (c ∷ s) = starts_with p (c ∷ s) || includes p s

-- The loop of `split` at one character.
split_from : ℕ → String → String → List String
split_from sep cur [] = cur ∷ []
split_from sep cur (c ∷ s) =
    let closed : List String = cur ∷ split_from sep "" s in
    let longer : List String = split_from sep (push cur c) s in
    if code c == sep then closed else longer

unfoldable pub split : ℕ → String → List String
unfolding split_from
split sep s = split_from sep "" s

-- `parts.join(sep)`
unfoldable pub join : String → List String → String
join sep [] = ""
join sep (s ∷ []) = s
join sep (s ∷ t ∷ rest) = s +++ sep +++ join sep (t ∷ rest)

-- What the character after a `$` in a replacement text stands for.
dollar : String → String → String → Char → String
dollar matched before after c =
    if code c == b'$'
    then "$"
    else if code c == b'&'
    then matched
    else if code c == 0x60
    then before
    else if code c == 0x27
    then after
    else push "$" c

-- A replacement text, expanded; the flag says that the last character was a `$`.
expand_from : String → String → String → Bool → String → String
expand_from matched before after false [] = ""
expand_from matched before after true [] = "$"
expand_from matched before after false (c ∷ s) =
    (if code c == b'$' then "" else c ∷ "") +++ expand_from matched before after (code c == b'$') s
expand_from matched before after true (c ∷ s) =
    dollar matched before after c +++ expand_from matched before after false s

unfoldable pub drop_chars : ℕ → String → String
drop_chars zero t = t
drop_chars (suc n) [] = []
drop_chars (suc n) (_ ∷ t) = drop_chars n t

-- The loop of `replaceAll`: `seen` is what lies behind, and the next `skip` characters belong to
-- a match.
replace_from : String → String → String → String → ℕ → String
replace_from p by seen [] skip = ""
replace_from p by seen (c ∷ s) (suc skip) = replace_from p by (push seen c) s skip
replace_from p by seen (c ∷ s) zero =
    let hit = starts_with p (c ∷ s) in
    let rest = replace_from p by (push seen c) s (if hit then pred (count p) else 0) in
    (if hit then expand_from p seen (drop_chars (count p) (c ∷ s)) false by else c ∷ "") +++ rest

-- `s.replaceAll(p, by)` at a text `p` that is not empty
unfoldable pub replace_all : String → String → String → String
unfolding replace_from expand_from dollar starts_with drop_chars
replace_all p by s = replace_from p by "" s 0

-- The decimal digits, by repeated division; a number has no more digits than its value plus one.
show_from : ℕ → ℕ → String
show_from zero n = ""
show_from (suc fuel) n =
    let rest : String = show_from fuel (n / 10) in
    let digit : String = nth_char (n % 10) "0123456789" "0" ∷ "" in
    if ltb n 10 then digit else rest +++ digit

-- `String(n)`
unfoldable pub show : ℕ → String
unfolding show_from
show n = show_from (suc n) n

is_empty-push : (s : String) (c : Char) → is_empty (push s c) ≡ false
is_empty-push [] c = ap is_empty (nil-append (c ∷ []))
is_empty-push (d ∷ s) c = ap is_empty (cons-append d s (c ∷ []))

is_empty-digits :
    (b : Bool) (s : String) (c : Char) → is_empty (if b then c ∷ [] else push s c) ≡ false
is_empty-digits true s c = refl
is_empty-digits false s c = is_empty-push s c

pub is_empty-show : (n : ℕ) → is_empty (show n) ≡ false
unfolding show
is_empty-show n = is_empty-digits (ltb n 10) _ _

unfoldable pub hex_digit : ℕ → String
hex_digit n = nth_char n "0123456789ABCDEF" "0" ∷ ""

unfoldable pub percent : ℕ → String
percent b = "%" +++ hex_digit (b / 16) +++ hex_digit (b % 16)

-- The bytes of a code point in UTF-8, each as `%XX`.
unfoldable pub percent_code : ℕ → String
percent_code n =
    if ltb n 0x80
    then percent n
    else if ltb n 0x800
    then percent (0xc0 + n / 64) +++ percent (0x80 + n % 64)
    else if ltb n 0x10000
    then percent (0xe0 + n / 4096) +++ percent (0x80 + n / 64 % 64) +++ percent (0x80 + n % 64)
    else percent (0xf0 + n / 262144)
      +++ percent (0x80 + n / 4096 % 64)
      +++ percent (0x80 + n / 64 % 64)
      +++ percent (0x80 + n % 64)

-- A character that encodeURIComponent leaves alone.
abbrev pub is_unreserved : ℕ → Bool
is_unreserved n =
    (leb b'a' n && leb n b'z')
    || (leb b'A' n && leb n b'Z')
    || (leb b'0' n && leb n b'9')
    || n == b'-'
    || n == b'_'
    || n == b'.'
    || n == b'!'
    || n == b'~'
    || n == b'*'
    || n == 0x27
    || n == b'('
    || n == b')'

unfoldable pub encode_uri_component : String → String
unfolding percent_code percent hex_digit
encode_uri_component [] = ""
encode_uri_component (c ∷ s) =
    (if is_unreserved (code c) then c ∷ "" else percent_code (code c)) +++ encode_uri_component s
