-- ===== src/Banner/Tests.antt =====
-- web/components/domain-banner.tsx at concrete hosts.
use wgtemporary_email.Base.{◌≡◌, refl, true, false, none}
use wgtemporary_email.Base.Text.{to_lower}
use wgtemporary_email.Banner.{Banner, open_banner, dismiss, open_banner-dismiss}

abbrev fresh : Banner
fresh = record { visible = false; dismissed = none; storage_works = true }

open_banner_tests :
    ((open_banner "mail.example.org" "10.0.0.1" fresh).visible ≡ true)
    × ((open_banner "Mail.example.org" "mail.example.org" fresh).visible ≡ false)
    × ((open_banner "" "10.0.0.1" fresh).visible ≡ false)
unfolding open_banner
open_banner_tests = (refl, refl, refl)

open_banner-dismiss_example :
    (open_banner "MAIL.example.org" "10.0.0.1" (dismiss "mail.example.org" fresh)).visible ≡ false
open_banner-dismiss_example =
    open_banner-dismiss "mail.example.org" "MAIL.example.org" "10.0.0.1" fresh refl
      (unfold to_lower in refl)
