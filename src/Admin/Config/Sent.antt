-- ===== src/Admin/Config/Sent.antt =====
-- web/app/admin/config/page.tsx: what handleSave can send.
use mathlib.Core.List.{Mem}
use wgtemporary_email.Base.{String, ◌≡◌, false, List, [], All, ◌⊎◌, ◌≤◌, ◌≢◌}
use wgtemporary_email.Base.Text.{is_empty}
use wgtemporary_email.Admin.Requests.{Value, null, bool, num, str, strs, update_config}
use wgtemporary_email.Admin.Panel.{Panel, PanelAsk, net}
use wgtemporary_email.Admin.Config.Fields.{
  IntField, BoolField, int_fields, bool_fields, min_allowed, Config,
}
use wgtemporary_email.Admin.Config.Patch.{Step, patched}
use wgtemporary_email.Admin.Config.Every.{Every}

abbrev pub IsNamed : String → Type 0
IsNamed s = is_empty s ≡ false

-- A setting that the page may send: a number of INT_FIELDS that is not below its least value, a switch
-- of BOOL_FIELDS, the mail host and the admin token where they are not empty, the panel's host, and
-- origins none of which is empty.
abbrev pub IsAllowed : (section key : String) → Value → Type 0
IsAllowed section key null = ⊥
IsAllowed section key (num n) =
    (f : IntField) × Mem f int_fields × (section ≡ f.section) × (key ≡ f.key) × (min_allowed f ≤ n)
IsAllowed section key (bool b) =
    (f : BoolField) × Mem f bool_fields × (section ≡ f.section) × (key ≡ f.key)
IsAllowed section key (str s) =
    ((section ≡ "web") × (key ≡ "hostname"))
    ⊎ (IsNamed s
        × (((section ≡ "server") × (key ≡ "hostname")) ⊎ ((section ≡ "admin") × (key ≡ "token"))))
IsAllowed section key (strs ss) = (section ≡ "cors") × (key ≡ "allow_origins") × All IsNamed ss

abbrev IsSafe : Step → Type 0
IsSafe (patched p) = Every IsAllowed p
IsSafe _ = Unit

-- What the page asks of the server is a patch of allowed settings that is not empty.
abbrev pub IsAllowedAsk : PanelAsk → Type 0
IsAllowedAsk (net (update_config patch)) = (patch ≢ []) × Every IsAllowed patch
IsAllowedAsk _ = ⊥
