-- ===== src/Admin/Display.antt =====
-- web/lib/admin-api.ts: the display helpers.
use wgtemporary_email.Base.{
  ℕ, String, Option, none, some, [], ◌∷◌, arith, ltb, ◌+◌, ◌*◌, ◌/◌, ◌%◌, ◌≤◌, ◌<◌, if◌then◌else◌,
}
use wgtemporary_email.Base.Text.{show}
use wgtemporary_email.Api.{Time}
use wgtemporary_email.Page.{Phrase, say}

-- The numbers that formatUptime shows.
pub data Uptime : Type 0 where
  days_hours : (d h : ℕ) → Uptime
  hours_minutes : (h m : ℕ) → Uptime
  minutes : (m : ℕ) → Uptime

unfoldable pub uptime : ℕ → Uptime
uptime seconds =
    let d = seconds / 86400 in
    let h = seconds % 86400 / 3600 in
    let m = seconds % 3600 / 60 in
    if ltb 0 d then days_hours d h else if ltb 0 h then hours_minutes h m else minutes m

abbrev pub translated : Uptime → Phrase
translated (days_hours d h) = say "admin.uptimeDaysHours" (("d", show d) ∷ ("h", show h) ∷ [])
translated (hours_minutes h m) = say "admin.uptimeHoursMinutes" (("h", show h) ∷ ("m", show m) ∷ [])
translated (minutes m) = say "admin.uptimeMinutes" (("m", show m) ∷ [])

-- `formatUptime(seconds)`
unfoldable pub format_uptime : ℕ → Phrase
unfolding uptime
format_uptime seconds = translated (uptime seconds)

-- What the shown numbers leave out is less than an hour after a day, and less than a minute before.
abbrev pub IsRead : Uptime → ℕ → Type 0
IsRead (days_hours d h) s =
    (0 < d) × (h < 24) × (d * 86400 + h * 3600 ≤ s) × (s < d * 86400 + h * 3600 + 3600)
IsRead (hours_minutes h m) s =
    (0 < h) × (h < 24) × (m < 60) × (h * 3600 + m * 60 ≤ s) × (s < h * 3600 + m * 60 + 60)
IsRead (minutes m) s = (m < 60) × (m * 60 ≤ s) × (s < m * 60 + 60)

-- `formatDateTime(value)`: a missing or empty text is `none`, and `to_locale` is the browser's format
-- of a time in a language.
unfoldable pub format_date_time : (String → ℕ → String) → String → Option Time → String
format_date_time to_locale lang none = "-"
format_date_time to_locale lang (some none) = "-"
format_date_time to_locale lang (some (some t)) = to_locale lang t

-- formatUptime shows days and hours from a day on, hours and minutes from an hour on, and minutes
-- below; the numbers are in their ranges, and what they leave out is less than the last unit.
pub uptime-IsRead : (seconds : ℕ) → IsRead (uptime seconds) seconds
unfolding uptime
uptime-IsRead seconds = ground arith
