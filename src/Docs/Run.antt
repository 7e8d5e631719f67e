-- ===== src/Docs/Run.antt =====
-- web/app/api/page.tsx: the state of the page, and its handlers. What the browser gives is a parameter:
-- `number`, `parses` (Payload), and `pretty`, the text of `JSON.stringify(JSON.parse(text), null, 2)`, none
-- where it cannot be read.
use wgtemporary_email.Base.{
  ℕ, String, Bool, false, not, ◌&&◌, ◌||◌, Option, none, some, List, [], ◌∷◌, ◌++◌, if◌then◌else◌,
}
use wgtemporary_email.Base.Dict.{Dict, insert}
use wgtemporary_email.Base.Text.{
  ◌+++◌, is_empty, or_empty, trim, to_lower, includes, starts_with, replace_all, show,
}
use wgtemporary_email.Base.Task.{Task, done, update, call, spawn}
use wgtemporary_email.Api.{is_ok}
use wgtemporary_email.Page.{Phrase, say, plain, verbatim}
use wgtemporary_email.Docs.Endpoints.{Method, post, put, ParamDef, header, Endpoint, ep_key}
use wgtemporary_email.Docs.Url.{Values, get_param, params_of, build_url}
use wgtemporary_email.Docs.Payload.{Payload, absent, Built, refused, built, build_body}

pub record TestResult : Type 0 where
  pub status : ℕ
  pub ok : Bool
  pub body : Phrase

-- What a test hands to `fetch`.
pub record Sent (N : Type 0) : Type 0 where
  pub url : String
  pub method : Method
  pub headers : Dict String
  pub body : Payload N

-- An answer, before its body is read.
pub record Reply : Type 0 where
  pub status : ℕ
  pub content_type : Option String

-- `text` and `blob` read the body of the answer.
pub data DocsAsk (N : Type 0) : Type 0 where
  fetch : Sent N → DocsAsk N
  text blob : DocsAsk N
  sleep : ℕ → DocsAsk N
  copy : String → DocsAsk N

-- A promise that is rejected is none; a blob is read for its size.
abbrev pub DocsAnswer : {N : Type 0} → DocsAsk N → Type 0
DocsAnswer (fetch _) = Option Reply
DocsAnswer text = Option String
DocsAnswer blob = Option ℕ
DocsAnswer (sleep _) = Unit
DocsAnswer (copy _) = Bool

-- The `useState` variables, the alerts that were shown, and the saved address in localStorage: none
-- where there is none or it cannot be read, and else its `token`.
pub record Docs : Type 0 where
  pub admin_token : String
  pub values : Values
  pub results : Dict (Option TestResult)
  pub testing_key : Option String
  pub copied_curl : String
  pub alerts : List Phrase
  pub saved : Option (Option String)

abbrev pub Job : Type 0 → Type 0
Job N = Task Docs (DocsAsk N) DocsAnswer

-- `/json|text|xml|rfc822|html/i.test(contentType)`
unfoldable pub is_textual : String → Bool
unfolding to_lower includes
is_textual content_type =
    let folded = to_lower content_type in
    includes "json" folded
    || includes "text" folded
    || includes "xml" folded
    || includes "rfc822" folded
    || includes "html" folded

-- The headers of a test: none where a parameter of a header is empty.
unfoldable pub param_headers :
    (String → String) → List ParamDef → Dict String → Option (Dict String)
unfolding trim
param_headers value [] d = some d
param_headers value (p ∷ ps) d =
    let v = trim (value p.name) in
    let rest = param_headers value ps (insert p.name v d) in if is_empty v then none else rest

abbrev pub is_admin : Endpoint → Bool
is_admin ep = starts_with "/api/v1/admin" ep.path

unfoldable pub test_headers : String → (String → String) → Endpoint → Option (Dict String)
unfolding param_headers starts_with trim
test_headers admin_token value ep = param_headers value (params_of header ep) (
    ("Content-Type", "application/json")
    ∷ (if is_admin ep then ("Authorization", "Bearer " +++ trim admin_token) ∷ [] else []))

-- `["POST", "PUT"].includes(ep.method) && body ? body : undefined`; a text that parses is not empty.
abbrev pub sent_body : {N : Type 0} → Method → Payload N → Payload N
sent_body post p = p
sent_body put p = p
sent_body _ p = absent

-- The text of JSON, laid out, and any other text as it is.
abbrev pretty_or : String → Option String → Phrase
pretty_or body none = verbatim body
pretty_or body (some shown) = verbatim shown

module _ {N : Type 0} (pretty : String → Option String) where
  -- The `finally`.
  abbrev end_test : Job N
  end_test = update (λ s. record s { testing_key = none }) done

  abbrev set_result : String → TestResult → Job N → Job N
  set_result key r t = update (λ s. record s { results = insert key (some r) s.results }) t

  -- The `catch`.
  abbrev test_failed : String → Job N
  test_failed key =
      set_result key (record { status = 0; ok = false; body = plain "api.testFailed" }) end_test

  abbrev test_shown : String → ℕ → Phrase → Job N
  test_shown key status shown =
      set_result key (record { status = status; ok = is_ok status; body = shown }) end_test

  unfoldable pub text_read : String → ℕ → Option String → Job N
  text_read key status none = test_failed key
  text_read key status (some body) = test_shown key status (pretty_or body (pretty body))

  unfoldable pub blob_read : String → ℕ → Option ℕ → Job N
  unfolding show
  blob_read key status none = test_failed key
  blob_read key status (some size) =
      test_shown key status (say "api.binaryResponse" (("n", show size) ∷ []))

  -- What follows the `fetch` of a test.
  unfoldable pub replied : String → Option Reply → Job N
  unfolding is_textual text_read blob_read
  replied key none = test_failed key
  replied key (some reply) =
      if is_textual (or_empty reply.content_type)
      then call text (text_read key reply.status)
      else call blob (blob_read key reply.status)

  abbrev alerted : Phrase → Job N → Job N
  alerted m t = update (λ s. record s { alerts = s.alerts ++ m ∷ [] }) t

  -- The `try` of a test, over its headers.
  abbrev pub try_test : String → Endpoint → Payload N → Option (Dict String) → Job N
  try_test url ep p none = alerted (plain "api.fillParams") end_test
  try_test url ep p (some headers) =
      call
        (fetch (record {
          url = url;
          method = ep.method;
          headers = headers;
          body = sent_body ep.method p;
        }))
        (replied (ep_key ep))

  -- A test from its body on.
  abbrev pub start_test : String → Option (Dict String) → Endpoint → Built N → Job N
  start_test url headers ep (refused m) = alerted m done
  start_test url headers ep (built p) =
      update (λ s. record s { testing_key = some (ep_key ep) })
        (update (λ s. record s { results = insert (ep_key ep) none s.results })
          (try_test url ep p headers))

  abbrev pub from_url : Option String → Option (Dict String) → Endpoint → Built N → Job N
  from_url none headers ep b = alerted (plain "api.fillParams") done
  from_url (some url) headers ep b = start_test url headers ep b

  -- `runTest`, with the answer to its `confirm`, from the fields of a render
  unfoldable pub run_test :
      (number : String → Option N) (parses : String → Bool) (api_url : String) (confirmed : Bool)
      → Endpoint
      → Docs
      → Job N
  unfolding build_url build_body test_headers replied ep_key get_param
  run_test number parses api_url confirmed ep env =
      let value = get_param env.saved env.values ep in
      if ep.destructive && not confirmed
      then done
      else from_url (build_url api_url value ep) (test_headers env.admin_token value ep) ep
          (build_body number parses value ep)

  -- `copyCurl`: the text of `setTimeout` clears the mark later, on its own.
  unfoldable pub copy_curl : (base_url : String) → Endpoint → Job N
  unfolding replace_all ep_key
  copy_curl base_url ep = call (copy (replace_all "BASE" base_url ep.curl)) (λ ok.
      if ok
      then update (λ s. record s { copied_curl = ep_key ep })
          (spawn (call (sleep 2000) (λ _. update (λ s. record s { copied_curl = "" }) done)) done)
      else done)
