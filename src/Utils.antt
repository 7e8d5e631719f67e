-- ===== src/Utils.antt =====
-- web/lib/utils.ts: formatBytes, formatRelativeTime, sanitizeHtml and copyToClipboard.
pub mod Shown
pub mod Tests
use wgtemporary_email.Base.{
  ℕ, zero, suc, String, Bool, true, false, not, ◌&&◌, ◌||◌, Option, none, some, List, [], ◌∷◌, ◌+◌,
  ◌-◌, ◌*◌, ◌/◌, ◌%◌, ltb, leb, ◌==◌, if◌then◌else◌,
}
use wgtemporary_email.Base.Text.{◌+++◌, is_empty, show}
use wgtemporary_email.Api.{Time}

-- `Math.pow(1024, i)`
abbrev pub unit_size : ℕ → ℕ
unit_size zero = 1
unit_size (suc i) = 1024 * unit_size i

-- The loop of `Math.floor(Math.log(n) / Math.log(1024))`, which divides as long as it can.
unfoldable pub scale_from : ℕ → ℕ → ℕ
scale_from zero n = 0
scale_from (suc fuel) n =
    let rest = scale_from fuel (n / 1024) in if ltb n 1024 then 0 else suc rest

-- `Math.floor(Math.log(n) / Math.log(1024))`, for a positive safe integer `n`. The quotient of the
-- rounded logarithms is 5 already for the three numbers below 1024 ^ 5, and it is exact up to there.
unfoldable pub scale : ℕ → ℕ
unfolding scale_from
scale n = if leb 1125899906842621 n then 5 else scale_from 4 n

-- `Math.round(n / size * 100)`
abbrev pub hundredths : ℕ → ℕ → ℕ
hundredths n i = (200 * n + unit_size i) / (2 * unit_size i)

-- `sizes[i]`, as a text
abbrev pub unit_name : ℕ → String
unit_name zero = "B"
unit_name (suc zero) = "KB"
unit_name (suc (suc zero)) = "MB"
unit_name (suc (suc (suc zero))) = "GB"
unit_name _ = "undefined"

-- `String(h / 100)`
abbrev pub show_hundredths : ℕ → String
show_hundredths h =
    if h % 100 == 0
    then show (h / 100)
    else if h % 10 == 0
    then show (h / 100) +++ "." +++ show (h % 100 / 10)
    else if ltb (h % 100) 10
    then show (h / 100) +++ ".0" +++ show (h % 100)
    else show (h / 100) +++ "." +++ show (h % 100)

-- `formatBytes`
unfoldable pub format_bytes : ℕ → String
unfolding scale show
format_bytes n =
    if n == 0
    then "0 B"
    else show_hundredths (hundredths n (scale n)) +++ " " +++ unit_name (scale n)

-- What formatRelativeTime hands to Intl: a number of units ago, or the date.
pub data Relative : Type 0 where
  minutes_ago hours_ago days_ago : ℕ → Relative
  date : Time → Relative

-- `formatRelativeTime`, where Intl works; in the future the difference is below a minute.
unfoldable pub relative_time : ℕ → Time → Relative
relative_time now none = date none
relative_time now (some past) =
    let diff = now - past in
    if ltb (diff / 60000) 1
    then minutes_ago 0
    else if ltb (diff / 60000) 60
    then minutes_ago (diff / 60000)
    else if ltb (diff / 3600000) 24
    then hours_ago (diff / 3600000)
    else if ltb (diff / 86400000) 7
    then days_ago (diff / 86400000)
    else date (some past)

-- `sanitizeHtml`; `purify` is DOMPurify, none where it throws, and `has_window` says that there is a
-- DOM.
unfoldable pub sanitize_html : (String → Option String) → Bool → String → String
sanitize_html purify has_window html =
    if is_empty html || not has_window
    then ""
    else elim (purify html) [ none ↦ "" | some clean ↦ clean ]

-- `copyToClipboard`: whether its promise is fulfilled. `secure` says that the Clipboard API is there,
-- in a secure context; `written` and `copied` that writeText is fulfilled, and that execCommand
-- answers true without throwing.
unfoldable pub copy_to_clipboard : (secure written copied : Bool) → Bool
copy_to_clipboard secure written copied = if secure && written then true else copied
