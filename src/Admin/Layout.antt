-- ===== src/Admin/Layout.antt =====
-- web/app/admin/layout.tsx: the navigation, and the button that signs out.
use wgtemporary_email.Base.{
  ◌≡◌, ◌∙◌, some, arith, if◌then◌else◌, String, Bool, false, List, [], ◌∷◌,
}
use wgtemporary_email.Base.Text.{starts_with}
use wgtemporary_email.Api.{SetupStatus, Exchange}
use wgtemporary_email.Admin.Client.{Stored, clear_admin_token}
use wgtemporary_email.Admin.Login.{Layout, layout_gate, is_unset, redirect, layout_gate_lem}

-- The address of a page of the panel, and the key of its name.
pub record NavItem : Type 0 where
  pub href : String
  pub key : String

abbrev item : String → String → NavItem
item href key = record { href = href; key = key }

-- NAV_ITEMS
abbrev pub nav_items : List NavItem
nav_items =
    item "/admin/dashboard" "admin.dashboard"
    ∷ item "/admin/emails" "admin.emails"
    ∷ item "/admin/addresses" "admin.addresses"
    ∷ item "/admin/mailboxes" "admin.mailboxes"
    ∷ item "/admin/domains" "admin.domains"
    ∷ item "/admin/config" "admin.config"
    ∷ item "/admin/cleanup" "admin.cleanup"
    ∷ []

-- Whether an entry is marked as the page that shows.
unfoldable pub is_active : (pathname : String) → NavItem → Bool
unfolding starts_with
is_active pathname item = starts_with item.href pathname

-- The button that signs out: what it leaves in localStorage, and where it goes.
unfoldable pub sign_out : Stored → Stored × String
sign_out stored = (clear_admin_token stored, "/admin")

-- Once the admin signed out, the effect of each page of the panel redirects, to the set-up page or to the
-- sign-in, whatever the server answers; but it leaves the layout as ready as it was, so that until the
-- redirect a layout that was ready shows the page.
pub layout_gate-sign_out :
    (e : Exchange SetupStatus) (stored : Stored) (s : Layout)
    → let (after, route) = layout_gate false e (sign_out stored).0 s in
      (route ≡ some (if is_unset e then "/setup" else "/admin")) × (after.ready ≡ s.ready)
unfolding sign_out redirect
layout_gate-sign_out e stored s =
    let (there, shown) = layout_gate_lem false e (clear_admin_token stored) s in
    (there ∙ (ground arith), shown ∙ (ground arith))
