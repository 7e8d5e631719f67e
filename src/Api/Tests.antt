-- ===== src/Api/Tests.antt =====
-- web/lib/api.ts: answers that the client reads.
use wgtemporary_email.Base.{◌≡◌, ◌↔◌, refl, true, none, some, [], ◌∷◌}
use wgtemporary_email.Base.Text.{show}
use wgtemporary_email.Api.{
  get_domains, get_address_info, list_emails, delete_email, get_email, answer, missing, text, ok,
  thrown, error, result,
}
use wgtemporary_email.Api.Wire.{wire, list_query}
use wgtemporary_email.Api.Errors.{IsAccepted, IsThrownWith, result-eq-ok_iff, result-refused}

client : Unit {0}
unfolding result wire show
client = tt

-- A 404 of the list carries its status; a 404 of /info carries none.
refused_tests :
    (result
        (list_emails "t"
          (record { page = none; per_page = some 50; unread_only = none; search = none }))
        (answer 404 none)
      ≡ thrown (error (text "Failed to fetch emails") (some 404) missing))
    × (result (get_address_info "t") (answer 404 none)
        ≡ thrown (error (text "Failed to fetch address info") none missing))
    × (result (delete_email "t" "1") (answer 204 none) ≡ ok tt)
unfolding client
refused_tests = (refl, refl, refl)

list_query_test :
    list_query
      (record { page = some 0; per_page = some 50; unread_only = some true; search = some "" })
    ≡ ("per_page", "50") ∷ ("unread_only", "true") ∷ []
unfolding client list_query
list_query_test = refl

result-eq-ok_iff_example :
    (result get_domains (answer 200 (some ("example.org" ∷ [], missing))) ≡ ok ("example.org" ∷ []))
    ↔ IsAccepted get_domains (answer 200 (some ("example.org" ∷ [], missing))) ("example.org" ∷ [])
result-eq-ok_iff_example =
    result-eq-ok_iff get_domains (answer 200 (some ("example.org" ∷ [], missing)))
      ("example.org" ∷ [])

result-refused_test : IsThrownWith (result (get_email "t" "1" true) (answer 404 none)) (some 404)
result-refused_test = result-refused (get_email "t" "1" true) 404 none refl
