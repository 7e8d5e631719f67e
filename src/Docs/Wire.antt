-- ===== src/Docs/Wire.antt =====
-- web/app/api/page.tsx against web/lib/admin-api.ts: the endpoints of the admin that the page documents
-- are those that the client of the panel calls.
use Prim.Native.Char.{Char, code}
use Prim.Native.String.{[], ◌∷◌}
use text.Mathlib.TextLemmas.{nil-append, cons-append, append-nil, append_assoc}
use wgtemporary_email.Base.{
  ℕ, zero, suc, ◌+◌, String, ◌≡◌, refl, ap, ◌∙◌, Bool, false, Option, none, some, List, [], ◌∷◌,
  arith, if◌then◌else◌, ◌==◌,
}
use wgtemporary_email.Base.Text.{
  ◌+++◌, is_empty, trim, starts_with, drop_chars, encode_uri_component,
}
use wgtemporary_email.Api.Wire.{get, post, delete}
use wgtemporary_email.Admin.Requests.{
  AdminRequest, Verb, plain, put, admin_wire, permanent, get_stats, list_addresses, get_address,
  delete_address, list_emails, get_email, delete_email, list_domains, check_domain, add_domain,
  remove_domain, get_config, update_config, run_cleanup, get_tls_status, issue_certificate,
  get_permanent_stats, list_permanent_addresses, create_permanent_address, purge_permanent_emails,
  run_permanent_retention, get_api_key_status, regenerate_api_key,
}
use wgtemporary_email.Docs.Endpoints.{Method, Endpoint, path}
use wgtemporary_email.Docs.Endpoints.Admin.{admin_endpoints}
use wgtemporary_email.Docs.Url.{replace_first, fill_path, params_of}
use wgtemporary_email.Docs.Escaping.{tally}

-- `s.replace` passes over a text without the first character of what it looks for.
differs_of : (k n m : ℕ) → (if k == n then 1 else 0) + m ≡ 0 → n == k ≡ false
differs_of k n m h = ground arith

rest_of : (b : Bool) (m : ℕ) → (if b then 1 else 0) + m ≡ 0 → m ≡ 0
rest_of b m h = ground arith

skip :
    (c : Char) (p by a s : String)
    → tally (code c) a ≡ 0
    → replace_first (c ∷ p) by (a +++ s) ≡ a +++ replace_first (c ∷ p) by s
unfolding replace_first starts_with tally
skip c p by [] s h = rw (nil-append s, nil-append (replace_first (c ∷ p) by s)) refl
skip c p by (a ∷ t) s h =
    let other = differs_of (code a) (code c) (tally (code c) t) h in
    rw (cons-append a t s, cons-append a t (replace_first (c ∷ p) by s), other)
      (ap (λ x. a ∷ x) (skip c p by t s (rest_of (code a == code c) (tally (code c) t) h)))

id_last :
    (text id : String)
    → tally 0x7b text ≡ 0
    → replace_first "{id}" id (text +++ "{id}") ≡ text +++ id
unfolding replace_first starts_with drop_chars
id_last text id h = skip "{" "id}" id text "{id}" h ∙ ap (λ x. text +++ x) (append-nil id)

-- The id or the domain in the path of a request, "" where it has none.
abbrev pub arg : AdminRequest → String
arg (get_address id) = id
arg (delete_address id) = id
arg (get_email id) = id
arg (delete_email id) = id
arg (remove_domain domain) = domain
arg (purge_permanent_emails id) = id
arg _ = ""

-- An id that trim and encodeURIComponent leave as it is, and that is not empty.
abbrev pub IsPlain : String → Type 0
IsPlain id = (trim id ≡ id) × (is_empty id ≡ false) × (encode_uri_component id ≡ id)

-- The calls that the page documents, at plain ids and at a domain that trim leaves as it is: all but the
-- check of a domain.
abbrev pub IsDocumented : AdminRequest → Type 0
IsDocumented (check_domain _) = ⊥
IsDocumented (remove_domain domain) = (trim domain ≡ domain) × (is_empty domain ≡ false)
IsDocumented (get_address id) = IsPlain id
IsDocumented (delete_address id) = IsPlain id
IsDocumented (get_email id) = IsPlain id
IsDocumented (delete_email id) = IsPlain id
IsDocumented (purge_permanent_emails id) = IsPlain id
IsDocumented _ = Unit

-- Where a call stands in ADMIN_ENDPOINTS.
abbrev pub position : AdminRequest → ℕ
position get_stats = 0
position (list_addresses _) = 1
position (get_address _) = 2
position (delete_address _) = 3
position (list_emails _) = 4
position (get_email _) = 5
position (delete_email _) = 6
position list_domains = 7
position (add_domain _) = 8
position (remove_domain _) = 9
position get_config = 10
position (update_config _) = 11
position run_cleanup = 12
position get_tls_status = 13
position (issue_certificate _) = 14
position get_api_key_status = 15
position (list_permanent_addresses _ _) = 16
position get_permanent_stats = 17
position (create_permanent_address _ _) = 18
position (purge_permanent_emails _) = 19
position run_permanent_retention = 20
position regenerate_api_key = 21
position (check_domain _) = 22

abbrev pub entry_at : ℕ → List Endpoint → Option Endpoint
entry_at n [] = none
entry_at zero (e ∷ es) = some e
entry_at (suc n) (e ∷ es) = entry_at n es

abbrev pub verb_of : Method → Verb
verb_of Method.get = plain get
verb_of Method.post = plain post
verb_of Method.put = put
verb_of Method.delete = plain delete

-- The endpoint has the method and, filled in, the path of the call.
abbrev pub Agrees : AdminRequest → Option Endpoint → Type 0
Agrees q none = ⊥
Agrees q (some e) =
    (verb_of e.method ≡ (admin_wire q).method)
    × (fill_path (λ _. arg q) (params_of path e) e.path ≡ some (admin_wire q).path)

filled_id :
    (text id : String)
    → IsPlain id
    → tally 0x7b text ≡ 0
    → (if is_empty (trim id)
        then none
        else some (replace_first "{id}" (encode_uri_component (trim id)) (text +++ "{id}")))
      ≡ some (text +++ id)
filled_id text id h none_open =
    rw (h.0, h.1, h.2) (ap (λ (s : String). some s) (id_last text id none_open))

filled_domain :
    (domain : String)
    → (trim domain ≡ domain) × (is_empty domain ≡ false)
    → (if is_empty (trim domain)
        then none
        else some (
            replace_first "{domain}"
              (encode_uri_component (trim domain))
              "/api/v1/admin/domains/{domain}"))
      ≡ some ("/api/v1/admin/domains/" +++ encode_uri_component domain)
unfolding replace_first starts_with drop_chars tally
filled_domain domain h =
    let text : String = "/api/v1/admin/domains/" in
    rw (h.0, h.1)
      (ap (λ (s : String). some s)
        (skip "{" "domain}" (encode_uri_component domain) text "{domain}" refl
          ∙ ap (λ x. text +++ x) (append-nil (encode_uri_component domain))))

filled_purge :
    (id : String)
    → IsPlain id
    → (if is_empty (trim id)
        then none
        else some (
            replace_first "{id}"
              (encode_uri_component (trim id))
              "/api/v1/admin/permanent-addresses/{id}/purge-emails"))
      ≡ some (permanent +++ "/" +++ id +++ "/purge-emails")
unfolding replace_first starts_with drop_chars tally
filled_purge id h =
    rw (h.0, h.1, h.2)
      (ap (λ (s : String). some s)
        (skip "{" "id}" id "/api/v1/admin/permanent-addresses/" "{id}/purge-emails" refl
          ∙ append_assoc permanent "/" (id +++ "/purge-emails")))

-- The page documents what the client does: for each call of the client of the panel but the check of a
-- domain, whose id or domain is plain, the table has an endpoint with the method of the call, whose path
-- filled in is the path of the call.
pub admin_wire-Agrees :
    (q : AdminRequest) → IsDocumented q → Agrees q (entry_at (position q) admin_endpoints)
unfolding admin_wire fill_path tally
admin_wire-Agrees get_stats h = (refl, refl)
admin_wire-Agrees (list_addresses _) h = (refl, refl)
admin_wire-Agrees (get_address id) h = (refl, filled_id "/api/v1/admin/addresses/" id h refl)
admin_wire-Agrees (delete_address id) h = (refl, filled_id "/api/v1/admin/addresses/" id h refl)
admin_wire-Agrees (list_emails _) h = (refl, refl)
admin_wire-Agrees (get_email id) h = (refl, filled_id "/api/v1/admin/emails/" id h refl)
admin_wire-Agrees (delete_email id) h = (refl, filled_id "/api/v1/admin/emails/" id h refl)
admin_wire-Agrees list_domains h = (refl, refl)
admin_wire-Agrees (check_domain _) h = absurd h
admin_wire-Agrees (add_domain _) h = (refl, refl)
admin_wire-Agrees (remove_domain d) h = (refl, filled_domain d h)
admin_wire-Agrees get_config h = (refl, refl)
admin_wire-Agrees (update_config _) h = (refl, refl)
admin_wire-Agrees run_cleanup h = (refl, refl)
admin_wire-Agrees get_tls_status h = (refl, refl)
admin_wire-Agrees (issue_certificate _) h = (refl, refl)
admin_wire-Agrees get_permanent_stats h = (refl, refl)
admin_wire-Agrees (list_permanent_addresses _ _) h = (refl, refl)
admin_wire-Agrees (create_permanent_address _ _) h = (refl, refl)
admin_wire-Agrees (purge_permanent_emails id) h = (refl, filled_purge id h)
admin_wire-Agrees run_permanent_retention h = (refl, refl)
admin_wire-Agrees get_api_key_status h = (refl, refl)
admin_wire-Agrees regenerate_api_key h = (refl, refl)
