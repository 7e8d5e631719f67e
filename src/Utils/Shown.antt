-- ===== src/Utils/Shown.antt =====
-- What the numbers shown by formatBytes and formatRelativeTime say of the values.
use wgtemporary_email.Base.{
  false, sym, String, Option, none, Bool, ◌&&◌, [], ◌∷◌, ◌==◌, ◌%◌, if◌then◌else◌, false_of,
  and_left, and_right, eq_of_same, ap, leb, true, ℕ, zero, suc, ◌≡◌, refl, some, arith, Bool-cases,
  inl, inr, ltb→lt, ◌+◌, ◌-◌, ◌*◌, ◌/◌, ◌≤◌, ◌<◌, ltb,
}
use Prim.Native.Char.{Char, code}
use text.Mathlib.TextLemmas.{append-nil}
use Prim.Native.String.{[], ◌∷◌}
use wgtemporary_email.Base.Text.{◌+++◌, show}
use wgtemporary_email.Utils.{
  show_hundredths, format_bytes, unit_size, scale_from, scale, hundredths, unit_name, Relative,
  minutes_ago, hours_ago, days_ago, date, relative_time,
}

scale_from-bounds :
    (fuel n : ℕ)
    → 0 < n
    → n < unit_size (suc fuel)
    → (unit_size (scale_from fuel n) ≤ n) × (n < unit_size (suc (scale_from fuel n)))
unfolding scale_from
scale_from-bounds zero n pos enough = (omega arith, enough)
scale_from-bounds (suc fuel) n pos enough = elim (Bool-cases (ltb n 1024)) [
  | inl small ↦ rw small (pos, ltb→lt n 1024 small)
  | inr large ↦
      let big : 1024 ≤ n = ground arith in
      let (below, above) = scale_from-bounds fuel (n / 1024) (omega arith) (omega arith) in
      rw large (omega arith, omega arith)
]

-- The unit that formatBytes chooses is the largest power of 1024 that is not above the number of bytes,
-- for a positive number of bytes below 1024 ^ 5 - 3; from there on it is the fifth.
pub scale_lem :
    (n : ℕ)
    → 0 < n
    → n < 1125899906842621
    → (unit_size (scale n) ≤ n) × (n < unit_size (suc (scale n)))
unfolding scale
scale_lem n pos small = elim (Bool-cases (leb 1125899906842621 n)) [
  | inl large ↦ absurd (not_large large)
  | inr below ↦ rw below (scale_from-bounds 4 n pos (omega arith))
]
  where
    not_large : ¬ (leb 1125899906842621 n ≡ true)
    not_large large = ground arith

scale_large : (n : ℕ) → 1125899906842621 ≤ n → scale n ≡ 5
unfolding scale
scale_large n large = ground arith

rounded :
    (i n : ℕ)
    → unit_size i ≤ n
    → n < 1099511627776
    → (2 * (hundredths n i * unit_size i) ≤ 200 * n + unit_size i)
      × (200 * n < 2 * (hundredths n i * unit_size i) + unit_size i)
rounded zero n above small = (omega arith, omega arith)
rounded (suc zero) n above small = (omega arith, omega arith)
rounded (suc (suc zero)) n above small = (omega arith, omega arith)
rounded (suc (suc (suc zero))) n above small = (omega arith, omega arith)
rounded (suc (suc (suc (suc i)))) n above small = absurd (big_unit i n above small)
  where
    unit_pos : (j : ℕ) → 0 < unit_size j
    unit_pos zero = omega arith
    unit_pos (suc j) = let h = unit_pos j in omega arith

    big_unit : (j m : ℕ) → unit_size (suc (suc (suc (suc j)))) ≤ m → m < 1099511627776 → ⊥
    big_unit j m h k = let u = unit_pos j in omega arith

-- For a positive number of bytes below 1 TB, the number of hundredths of the unit that formatBytes
-- shows is at most half a hundredth of the unit from it.
pub hundredths-scale :
    (n : ℕ)
    → 0 < n
    → n < 1099511627776
    → (2 * (hundredths n (scale n) * unit_size (scale n)) ≤ 200 * n + unit_size (scale n))
      × (200 * n < 2 * (hundredths n (scale n) * unit_size (scale n)) + unit_size (scale n))
hundredths-scale n pos small = rounded (scale n) n (scale_lem n pos (omega arith)).0 small

-- What formatRelativeTime says of a time that is past.
abbrev pub IsAgo : Relative → ℕ → ℕ → Type 0
IsAgo (minutes_ago m) now past =
    (m < 60) × (m * 60000 ≤ now - past) × (now - past < m * 60000 + 60000)
IsAgo (hours_ago h) now past =
    (0 < h) × (h < 24) × (h * 3600000 ≤ now - past) × (now - past < h * 3600000 + 3600000)
IsAgo (days_ago d) now past =
    (0 < d) × (d < 7) × (d * 86400000 ≤ now - past) × (now - past < d * 86400000 + 86400000)
IsAgo (date t) now past = (t ≡ some past) × (604800000 ≤ now - past)

-- formatRelativeTime shows minutes below an hour, hours below a day, days below a week, each rounded
-- down, and the date from a week on; a time in the future counts as now.
pub relative_time-IsAgo : (now past : ℕ) → IsAgo (relative_time now (some past)) now past
unfolding relative_time
relative_time-IsAgo now past = ground arith

large_unit : (i n : ℕ) → n < unit_size (suc i) → 1099511627776 ≤ n → unit_name i ≡ "undefined"
large_unit zero n h k = absurd (omega arith)
large_unit (suc zero) n h k = absurd (omega arith)
large_unit (suc (suc zero)) n h k = absurd (omega arith)
large_unit (suc (suc (suc zero))) n h k = absurd (omega arith)
large_unit (suc (suc (suc (suc i)))) n h k = refl

-- From 1 TB on formatBytes has no name for the unit and shows "undefined".
pub unit_name-scale : (n : ℕ) → 1099511627776 ≤ n → unit_name (scale n) ≡ "undefined"
unit_name-scale n large = elim (Bool-cases (ltb n 1125899906842621)) [
  | inl small ↦
      large_unit (scale n) n (scale_lem n (omega arith) (ltb→lt n 1125899906842621 small)).1 large
  | inr over ↦ rw (scale_large n (ground arith)) refl
]

abbrev is_digit : Char → Bool
is_digit d = leb 48 (code d) && leb (code d) 57

-- The hundredths that the text behind a whole number says: none, a digit, or two, after a point.
abbrev pub read_fraction : String → Option ℕ
read_fraction [] = some 0
read_fraction (p ∷ []) = none
read_fraction (p ∷ d ∷ []) = if code p == 46 && is_digit d then some (10 * (code d - 48)) else none
read_fraction (p ∷ d ∷ e ∷ []) =
    if code p == 46 && is_digit d && is_digit e
    then some (10 * (code d - 48) + (code e - 48))
    else none
read_fraction _ = none

-- What show_hundredths writes behind the whole number.
abbrev fraction : ℕ → String
fraction r =
    if r == 0
    then ""
    else if r % 10 == 0
    then "." +++ show (r / 10)
    else if ltb r 10
    then ".0" +++ show r
    else "." +++ show r

abbrev reads : Option ℕ → ℕ → Bool
reads none r = false
reads (some n) r = n == r

abbrev all_read : ℕ → Bool
all_read zero = true
all_read (suc k) = let rest = all_read k in reads (read_fraction (fraction k)) k && rest

hundred_read : all_read 100 ≡ true
unfolding show
hundred_read = refl

read_below : (k r : ℕ) → all_read k ≡ true → r < k → reads (read_fraction (fraction r)) r ≡ true
read_below zero r h lt = absurd (omega arith)
read_below (suc k) r h lt = elim (Bool-cases (r == k)) [
  | inl same ↦ rw (eq_of_same r k same) (and_left (reads (read_fraction (fraction k)) k) _ h)
  | inr other ↦ read_below k r (and_right (reads (read_fraction (fraction k)) k) _ h) (ground arith)
]

reads-eq : (o : Option ℕ) (r : ℕ) → reads o r ≡ true → o ≡ some r
reads-eq none r h = absurd (false_of h)
reads-eq (some n) r h = ap some (eq_of_same n r h)

behind :
    (a b c : Bool) (x u v w : String)
    → (if a then x else if b then x +++ u else if c then x +++ v else x +++ w)
      ≡ x +++ (if a then "" else if b then u else if c then v else w)
behind true b c x u v w = sym (append-nil x)
behind false true c x u v w = refl
behind false false true x u v w = refl
behind false false false x u v w = refl

shown_fraction : (h : ℕ) → show_hundredths h ≡ show (h / 100) +++ fraction (h % 100)
shown_fraction h =
    let last : h % 100 % 10 ≡ h % 10 = omega arith in
    rw last (
      behind (h % 100 == 0) (h % 10 == 0) (ltb (h % 100) 10) (show (h / 100))
        ("." +++ show (h % 100 / 10)) (".0" +++ show (h % 100)) ("." +++ show (h % 100)))

-- The text that formatBytes shows for a positive number of bytes below 1 TB: a whole number, behind it at
-- most two digits after a point, and the name of the unit; and the number that these digits say is within
-- half a hundredth of the unit of the number of bytes.
pub format_bytes-IsNear :
    (n : ℕ)
    → 0 < n
    → n < 1099511627776
    → (whole : ℕ) × (digits : String) × (r : ℕ) × (format_bytes n
        ≡ (show whole +++ digits) +++ " " +++ unit_name (scale n))
      × (read_fraction digits ≡ some r)
      × (2 * ((100 * whole + r) * unit_size (scale n)) ≤ 200 * n + unit_size (scale n))
      × (200 * n < 2 * ((100 * whole + r) * unit_size (scale n)) + unit_size (scale n))
unfolding format_bytes
format_bytes-IsNear n pos small =
    let h = hundredths n (scale n) in
    let whole : 100 * (h / 100) + h % 100 ≡ h = omega arith in
    let (low, high) = hundredths-scale n pos small in
    (
      h / 100,
      fraction (h % 100),
      h % 100,
      rw (not-zero n pos) (ap (λ s. s +++ " " +++ unit_name (scale n)) (shown_fraction h)),
      reads-eq _ _ (read_below 100 (h % 100) hundred_read (omega arith)),
      rw whole low,
      rw whole high,
    )
  where
    not-zero : (n : ℕ) → 0 < n → n == 0 ≡ false
    not-zero n pos = ground arith
