-- ===== src/Admin/Config/Untouched.antt =====
-- web/app/admin/config/page.tsx: a save of the form as fetchConfig filled it in.
mod Loops
use wgtemporary_email.Base.{
  and_left, and_right, any, ◌||◌, str_eq, eq_iff, not-ltb, ℕ, String, ◌≡◌, refl, sym, ap, ◌∙◌, Bool,
  true, false, not, ◌&&◌, Option, none, some, List, [], ◌∷◌, All, Bool-cases, inl, inr, eq_refl,
  if◌then◌else◌, ◌≤◌,
}
use wgtemporary_email.Base.Dict.{Dict, lookup, insert, lookup-insert}
use wgtemporary_email.Base.Text.{is_empty, is_empty-show, trim, join, show}
use wgtemporary_email.Admin.Requests.{Value, null, bool, num, str, strs}
use wgtemporary_email.Admin.Config.Fields.{
  IntField, BoolField, int_fields, bool_fields, min_allowed, Config, get_value, Form, typed,
  int_input, bool_input, text_input, name_of, read_form, allow_origins,
}
use wgtemporary_email.Admin.Config.Patch.{
  put, Step, patched, patch_int, patch_ints, patch_bools, patch_hosts, patch_origins, patch_rest,
  patch_of, origins_of, differs, is_ticked, differs_text,
}
pub use Loops.*

module _ (c : Config) where
  -- A host name that is shown as it is read is not sent.
  same_host :
      (v : Option Value) (patch other : Config)
      → (if not (is_empty (text_input v)) && differs_text v (text_input v) then other else patch)
        ≡ patch
  same_host (some (str s)) patch other = elim (Bool-cases (is_empty s)) [
    | inl blank ↦ rw blank refl
    | inr named ↦ rw (named, eq_refl s) refl
  ]
  same_host none patch other = refl
  same_host (some null) patch other = refl
  same_host (some (bool _)) patch other = refl
  same_host (some (num _)) patch other = refl
  same_host (some (strs _)) patch other = refl

  patch_hosts_same :
      (form : Form) (patch : Config)
      → lookup "server.hostname" form ≡ some (typed (text_input (get_value c "server" "hostname")))
      → lookup "web.hostname" form ≡ some (typed (text_input (get_value c "web" "hostname")))
      → trim (text_input (get_value c "server" "hostname"))
        ≡ text_input (get_value c "server" "hostname")
      → trim (text_input (get_value c "web" "hostname")) ≡ text_input (get_value c "web" "hostname")
      → patch_hosts c form patch ≡ patch
  unfolding patch_hosts
  patch_hosts_same form patch server web trimmed_server trimmed_web =
      rw
        (
          server,
          web,
          trimmed_server,
          trimmed_web,
          eq_refl (text_input (get_value c "web" "hostname")),
        )
        (same_host (get_value c "server" "hostname") patch _)

  -- The form that fetchConfig fills in has each setting under its name.
  ints_filled :
      All
        (λ f.
          lookup (name_of f.section f.key) (read_form c)
          ≡ some (int_input (get_value c f.section f.key)))
        int_fields
  unfolding read_form
  ints_filled = (
    refl,
    (
      refl,
      (
        refl,
        (
          refl,
          (
            refl,
            (refl, (refl, (refl, (refl, (refl, (refl, (refl, (refl, (refl, (refl, tt)))))))))),
          ),
        ),
      ),
    ),
  )

  bools_filled :
      All
        (λ f.
          lookup (name_of f.section f.key) (read_form c)
          ≡ some (bool_input (get_value c f.section f.key)))
        bool_fields
  unfolding read_form
  bools_filled = (refl, (refl, (refl, (refl, (refl, (refl, (refl, (refl, tt))))))))

  -- A save of the form as fetchConfig filled it in, with no new token, makes a patch; and for each setting
  -- of each section, the patch has it off if it is a switch of the page that the server did not list as one,
  -- has it as the server has it if it is a number of the page, and does not have it otherwise. The numbers
  -- of the configuration are ones that the page lets through and reads back as it shows them, its host names
  -- have no space around them, and its origins are read back as they are joined.
  pub patch_of-untouched :
      (integer : String → Option ℕ) (origins : List String) (s k : String)
      → All (λ f. IsReadable integer f (get_value c f.section f.key)) int_fields
      → trim (text_input (get_value c "server" "hostname"))
        ≡ text_input (get_value c "server" "hostname")
      → trim (text_input (get_value c "web" "hostname")) ≡ text_input (get_value c "web" "hostname")
      → allow_origins c ≡ some origins
      → join "\n" (origins_of (join "\n" origins)) ≡ join "\n" origins
      → (p : Config) × (patch_of integer (some c) (read_form c) "" (join "\n" origins) ≡ patched p)
        × (get_value p s k ≡ untouched c s k)
  unfolding patch_of patch_rest patch_origins trim read_form get_value
  patch_of-untouched integer origins s k readable server web listed joined =
      let form = read_form c in
      let (p, patch, sent_ints) =
        patch_ints-get c s k integer form int_fields [] ints_filled readable in
      let sent = patch_bools c form bool_fields p in
      let hosts = patch_hosts_same form sent refl refl server web in
      (
        sent,
        rw (patch, hosts, listed, joined, eq_refl (join "\n" origins)) refl,
        patch_bools-get c s k form bool_fields p bools_filled
            ∙ ap
                (λ o.
                  if any (bool_is c s k) bool_fields && not (is_switch (get_value c s k))
                  then some (bool false)
                  else o)
                sent_ints,
      )
