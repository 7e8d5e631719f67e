-- ===== src/Docs/Tried.antt =====
-- web/app/api/page.tsx: what a test reads, what it sends, and that it ends.
use wgtemporary_email.Base.{
  String, ◌≡◌, refl, ap, ◌∙◌, Bool, true, false, not, ◌&&◌, Option, none, some, List, All, str_eq,
  eq_iff, if◌then◌else◌,
}
use wgtemporary_email.Base.Dict.{Dict, lookup, insert, lookup-insert}
use wgtemporary_email.Base.Text.{◌+++◌, trim}
use wgtemporary_email.Docs.Endpoints.{ParamDef, Endpoint, ep_key}
use wgtemporary_email.Docs.Url.{
  Values, get_param, set_param, typed_value, entry_of, or_default, or_new, build_url,
}
use wgtemporary_email.Docs.Payload.{Payload}
use wgtemporary_email.Docs.Run.{DocsAsk, fetch, Docs, is_admin, run_test}

entry_of-typed :
    (name other v : String) (o : Option (Dict String))
    → lookup other (insert name v (or_new o))
      ≡ (if str_eq name other then some v else entry_of other o)
entry_of-typed name other v none = refl
entry_of-typed name other v (some d) = lookup-insert name other v d

entry_of-if :
    (b : Bool) (name key other_key other v : String) (values : Values)
    → (b ≡ true → key ≡ other_key)
    → entry_of other
        (if b then some (insert name v (or_new (lookup key values))) else lookup other_key values)
      ≡ (if b && str_eq name other then some v else typed_value other_key other values)
entry_of-if false name key other_key other v values h = refl
entry_of-if true name key other_key other v values h =
    rw (h refl) (entry_of-typed name other v (lookup other_key values))

typed_value-set_param :
    (key name other_key other v : String) (values : Values)
    → typed_value other_key other (insert key (insert name v (or_new (lookup key values))) values)
      ≡ (if str_eq key other_key && str_eq name other
          then some v
          else typed_value other_key other values)
typed_value-set_param key name other_key other v values =
    ap (entry_of other)
      (lookup-insert key other_key (insert name v (or_new (lookup key values))) values)
    ∙ entry_of-if (str_eq key other_key) name key other_key other v values (eq_iff key other_key).0

or_default-if :
    (b : Bool) (saved : Option (Option String)) (ep : Endpoint) (name v : String)
    (o : Option String)
    → or_default saved ep name (if b then some v else o)
      ≡ (if b then v else or_default saved ep name o)
or_default-if true saved ep name v o = refl
or_default-if false saved ep name v o = refl

-- A parameter reads what was typed for it last; what is typed for one leaves every other parameter, of
-- the same endpoint or of another, as it was.
pub get_param-set_param :
    (saved : Option (Option String)) (values : Values) (ep other_ep : Endpoint)
    (name other v : String)
    → get_param saved (set_param ep name v values) other_ep other ≡ (
        if str_eq (ep_key ep) (ep_key other_ep) && str_eq name other
        then v
        else get_param saved values other_ep other)
unfolding get_param set_param
get_param-set_param saved values ep other_ep name other v =
    ap (or_default saved other_ep other)
      (typed_value-set_param (ep_key ep) name (ep_key other_ep) other v values)
    ∙ or_default-if (str_eq (ep_key ep) (ep_key other_ep) && str_eq name other) saved other_ep other
        v (typed_value (ep_key other_ep) other values)

-- No header that a parameter of the endpoint names is the one that carries the admin token.
abbrev pub LeavesAuthorization : List ParamDef → Type 0
LeavesAuthorization ps = All (λ p. str_eq p.name "Authorization" ≡ false) ps

module _ {N : Type 0} (number : String → Option N) (parses : String → Bool)
    (pretty : String → Option String) (api_url : String) where
  -- A request that a test of the endpoint may make: the user agreed where it destroys something, its URL
  -- is the endpoint's with the values filled in, and it carries the admin token exactly where the
  -- endpoint is one of the admin's.
  abbrev pub IsTested : Bool → Endpoint → Docs → DocsAsk N → Type 0
  IsTested confirmed ep env (fetch sent) =
      ((ep.destructive && not confirmed) ≡ false)
      × (build_url api_url (get_param env.saved env.values ep) ep ≡ some sent.url)
      × (sent.method ≡ ep.method)
      × (lookup "Authorization" sent.headers
          ≡ (if is_admin ep then some ("Bearer " +++ trim env.admin_token) else none))
  IsTested confirmed ep env _ = ⊥

  -- With whatever admin token the page holds, the test is the same: the token reaches no part of what it
  -- sends, be it the URL, a header or the body.
  abbrev pub HidesToken : Bool → Endpoint → Docs → Type 0
  HidesToken confirmed ep env =
      (token : String)
      → run_test {N = N} pretty number parses api_url confirmed ep
          (record env { admin_token = token })
        ≡ run_test pretty number parses api_url confirmed ep env
