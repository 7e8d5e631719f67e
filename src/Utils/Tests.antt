-- ===== src/Utils/Tests.antt =====
-- web/lib/utils.ts at concrete inputs.
use wgtemporary_email.Base.{ℕ, String, suc, ◌≡◌, refl, some, ◌≤◌, ◌<◌, ◌+◌, ◌*◌, arith}
use wgtemporary_email.Base.Text.{◌+++◌, show}
use wgtemporary_email.Utils.{format_bytes, scale, unit_size, unit_name, hundredths, relative_time}
use wgtemporary_email.Utils.Shown.{
  IsAgo, read_fraction, scale_lem, hundredths-scale, format_bytes-IsNear, unit_name-scale,
  relative_time-IsAgo,
}

-- From 1 TB on there is no unit name, and a number can round up to 1024 of its unit.
format_bytes_tests :
    (format_bytes 0 ≡ "0 B")
    × (format_bytes 1536 ≡ "1.5 KB")
    × (format_bytes 1059062 ≡ "1.01 MB")
    × (format_bytes 1048575 ≡ "1024 KB")
unfolding format_bytes
format_bytes_tests = (refl, refl, refl, refl)

scale_lem_example :
    (unit_size (scale 5000000) ≤ 5000000) × (5000000 < unit_size (suc (scale 5000000)))
scale_lem_example = scale_lem 5000000 (omega arith) (omega arith)

hundredths-scale_test :
    (2 * (hundredths 5000000 (scale 5000000) * unit_size (scale 5000000))
      ≤ 200 * 5000000 + unit_size (scale 5000000))
    × (200 * 5000000
        < 2 * (hundredths 5000000 (scale 5000000) * unit_size (scale 5000000))
          + unit_size (scale 5000000))
hundredths-scale_test = hundredths-scale 5000000 (omega arith) (omega arith)

format_bytes-IsNear_example :
    (whole : ℕ) × (digits : String) × (r : ℕ) × (format_bytes 5000000
      ≡ (show whole +++ digits) +++ " " +++ unit_name (scale 5000000))
    × (read_fraction digits ≡ some r)
    × (2 * ((100 * whole + r) * unit_size (scale 5000000))
        ≤ 200 * 5000000 + unit_size (scale 5000000))
    × (200 * 5000000
        < 2 * ((100 * whole + r) * unit_size (scale 5000000)) + unit_size (scale 5000000))
format_bytes-IsNear_example = format_bytes-IsNear 5000000 (omega arith) (omega arith)

unit_name-scale_test : unit_name (scale 2000000000000) ≡ "undefined"
unit_name-scale_test = unit_name-scale 2000000000000 (omega arith)

relative_time-IsAgo_test : IsAgo (relative_time 7200000 (some 60000)) 7200000 60000
relative_time-IsAgo_test = relative_time-IsAgo 7200000 60000
