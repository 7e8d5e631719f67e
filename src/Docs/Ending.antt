-- ===== src/Docs/Ending.antt =====
-- web/app/api/page.tsx: a test of an endpoint ends.
use wgtemporary_email.Base.{
  ℕ, String, ◌≡◌, refl, Bool, not, ◌&&◌, Option, none, some, Bool-cases, inl, inr,
}
use wgtemporary_email.Base.Dict.{Dict}
use wgtemporary_email.Base.Text.{or_empty}
use wgtemporary_email.Base.Task.Ends.{Ends}
use wgtemporary_email.Docs.Endpoints.{Endpoint, ep_key}
use wgtemporary_email.Docs.Payload.{Built, refused, built}
use wgtemporary_email.Docs.Run.{
  Reply, Docs, is_textual, replied, text_read, blob_read, from_url, run_test,
}

module _ {N : Type 0} (number : String → Option N) (parses : String → Bool)
    (pretty : String → Option String) (api_url : String) where
  abbrev pub IsIdle : Docs → Type 0
  IsIdle s = s.testing_key ≡ none

  replied-Ends :
      (key : String) (o : Option Reply) (s : Docs) → Ends 1 IsIdle (replied {N = N} pretty key o) s
  unfolding replied text_read blob_read
  replied-Ends key none s = refl
  replied-Ends key (some reply) s = elim (Bool-cases (is_textual (or_empty reply.content_type))) [
    | inl textual ↦ rw textual (λ o s'. text_read-Ends o s')
    | inr binary ↦ rw binary (λ o s'. blob_read-Ends o s')
  ]
    where
      text_read-Ends :
          (o : Option String) (s' : Docs)
          → Ends 0 IsIdle (text_read {N = N} pretty key reply.status o) s'
      text_read-Ends none s' = refl
      text_read-Ends (some _) s' = refl

      blob_read-Ends :
          (o : Option ℕ) (s' : Docs)
          → Ends 0 IsIdle (blob_read {N = N} pretty key reply.status o) s'
      blob_read-Ends none s' = refl
      blob_read-Ends (some _) s' = refl

  from_url-Ends :
      (ep : Endpoint) (u : Option String) (h : Option (Dict String)) (b : Built N) (s : Docs)
      → IsIdle s
      → Ends 2 IsIdle (from_url pretty u h ep b) s
  from_url-Ends ep none h b s idle = idle
  from_url-Ends ep (some url) h (refused m) s idle = idle
  from_url-Ends ep (some url) none (built p) s idle = refl
  from_url-Ends ep (some url) (some h) (built p) s idle = λ o s'. replied-Ends (ep_key ep) o s'

  -- A test that starts while none runs ends, whatever the values are, the server answers and else happens
  -- to the page meanwhile: it waits for at most two answers, and then no test is marked as running.
  pub run_test-Ends :
      (confirmed : Bool) (ep : Endpoint) (env s : Docs)
      → IsIdle s
      → Ends 2 IsIdle (run_test pretty number parses api_url confirmed ep env) s
  unfolding run_test
  run_test-Ends confirmed ep env s idle = elim (Bool-cases (ep.destructive && not confirmed)) [
    | inl declined ↦ rw declined idle
    | inr agreed ↦ rw agreed (from_url-Ends ep _ _ _ s idle)
  ]
