-- ===== src/Banner.antt =====
-- web/components/domain-banner.tsx: when the banner of the official host shows, and its dismissal.
pub mod Tests
use wgtemporary_email.Base.{
  String, ◌≡◌, refl, sym, Bool, true, false, Option, none, some, ◌&&◌, if◌then◌else◌, str_eq,
  eq_iff,
}
use wgtemporary_email.Base.Text.{is_empty, to_lower}

-- `dismissed` is the text under "wgtempemail_domain_banner_dismissed" in localStorage, which throws
-- where `storage_works` is false.
pub record Banner : Type 0 where
  pub visible : Bool
  pub dismissed : Option String
  pub storage_works : Bool

-- `localStorage.getItem(DISMISS_KEY) === target`
abbrev pub is_dismissed : Option String → String → Bool
is_dismissed none target = false
is_dismissed (some s) target = str_eq s target

-- The effect for the official host, at the host of the window.
unfoldable pub banner_effect : String → String → Banner → Banner
unfolding to_lower
banner_effect web_hostname host s =
    if is_empty web_hostname
    then s
    else if str_eq (to_lower host) (to_lower web_hostname)
    then s
    else if s.storage_works && is_dismissed s.dismissed (to_lower web_hostname)
    then s
    else record s { visible = true }

-- A page that opens: the state starts hidden, and then the effect runs.
unfoldable pub open_banner : String → String → Banner → Banner
unfolding banner_effect
open_banner web_hostname host s = banner_effect web_hostname host (record s { visible = false })

-- `dismiss`
unfoldable pub dismiss : String → Banner → Banner
unfolding to_lower
dismiss web_hostname s =
    let stored : Banner =
      if s.storage_works then record s { dismissed = some (to_lower web_hostname) } else s in
    record stored { visible = false }

hidden :
    (a b c : Bool) (s : Banner)
    → s.visible ≡ false
    → c ≡ true
    → (if a then s else if b then s else if c then s else record s { visible = true }).visible
      ≡ false
hidden true b c s h k = h
hidden false true c s h k = h
hidden false false true s h k = h
hidden false false false s h k = sym k

stored_target : (s t : String) → t ≡ s → is_dismissed (some s) t ≡ true
stored_target s t h = (eq_iff s t).1 (sym h)

-- Once the banner is dismissed for a host, no page that opens shows it for that host, however the host
-- is written in capitals and from wherever the page is visited, if localStorage works.
pub open_banner-dismiss :
    (web_hostname again host : String) (s : Banner)
    → s.storage_works ≡ true
    → to_lower again ≡ to_lower web_hostname
    → (open_banner again host (dismiss web_hostname s)).visible ≡ false
unfolding open_banner dismiss
open_banner-dismiss web_hostname again host s works same = rw works (
    hidden (is_empty again) (str_eq (to_lower host) (to_lower again))
      (str_eq (to_lower web_hostname) (to_lower again))
      (record { visible = false; dismissed = some (to_lower web_hostname); storage_works = true })
      refl (stored_target (to_lower web_hostname) (to_lower again) same))
