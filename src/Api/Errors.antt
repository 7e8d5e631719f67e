-- ===== src/Api/Errors.antt =====
-- When a method of `api` succeeds, and what it throws.
use wgtemporary_email.Base.{
  ℕ, String, ◌≡◌, ◌↔◌, Bool, true, false, Option, none, some, arith, if◌then◌else◌,
}
use wgtemporary_email.Api.{
  Request, get_setup_status, create_permanent_address, get_address_info, get_domains,
  create_address, list_emails, get_email, delete_email, Success, Detail, Exchange, rejected, answer,
  Thrown, Result, ok, thrown, status_of, is_ok, plain, reporting, detailed, deleted, result,
}

-- A method throws an error of its own with the answer's status, or with none.
abbrev pub reports_status : Request → Bool
reports_status get_setup_status = false
reports_status (get_address_info _) = false
reports_status get_domains = false
reports_status _ = true

abbrev pub IsThrownWith : {B : Type 0} → Result B → Option ℕ → Type 0
IsThrownWith (ok _) s = ⊥
IsThrownWith (thrown t) s = status_of t ≡ s

-- An answer that is not in the 200s makes every method throw; the error carries the answer's status
-- for createPermanentAddress, createAddress, listEmails, getEmail and deleteEmail, and carries none
-- for getSetupStatus, getAddressInfo and getDomains.
pub result-refused :
    (q : Request) (status : ℕ) (body : Option (Success q × Detail))
    → is_ok status ≡ false
    → IsThrownWith (result q (answer status body)) (if reports_status q then some status else none)
unfolding result
result-refused get_setup_status status body h = ground arith
result-refused (create_permanent_address u d) status none h = ground arith
result-refused (create_permanent_address u d) status (some b) h = ground arith
result-refused (get_address_info t) status body h = ground arith
result-refused get_domains status body h = ground arith
result-refused (create_address a) status none h = ground arith
result-refused (create_address a) status (some b) h = ground arith
result-refused (list_emails t p) status none h = ground arith
result-refused (list_emails t p) status (some b) h = ground arith
result-refused (get_email t i m) status none h = ground arith
result-refused (get_email t i m) status (some b) h = ground arith
result-refused (delete_email t i) status none h = ground arith
result-refused (delete_email t i) status (some b) h = ground arith

-- The body is JSON of the value `b`.
abbrev pub Reads : {B : Type 0} → Option (B × Detail) → B → Type 0
Reads none b = ⊥
Reads (some (v, _)) b = v ≡ b

abbrev pub Accepts : {B : Type 0} → Exchange B → B → Type 0
Accepts rejected b = ⊥
Accepts (answer status body) b = (is_ok status ≡ true) × Reads body b

module _ {B : Type 0} (message : String) (b : B) where
  plain-eq-ok_iff : (e : Exchange B) → (plain message e ≡ ok b) ↔ Accepts e b
  unfolding plain
  plain-eq-ok_iff rejected = ((λ h. ground arith), (λ h. absurd h))
  plain-eq-ok_iff (answer status none) = ((λ h. ground arith), (λ h. absurd h.1))
  plain-eq-ok_iff (answer status (some (v, d))) = ((λ h. ground arith), (λ h. ground arith))

  reporting-eq-ok_iff : (e : Exchange B) → (reporting message e ≡ ok b) ↔ Accepts e b
  unfolding reporting
  reporting-eq-ok_iff rejected = ((λ h. ground arith), (λ h. absurd h))
  reporting-eq-ok_iff (answer status none) = ((λ h. ground arith), (λ h. absurd h.1))
  reporting-eq-ok_iff (answer status (some (v, d))) = ((λ h. ground arith), (λ h. ground arith))

  detailed-eq-ok_iff : (e : Exchange B) → (detailed message e ≡ ok b) ↔ Accepts e b
  unfolding detailed
  detailed-eq-ok_iff rejected = ((λ h. ground arith), (λ h. absurd h))
  detailed-eq-ok_iff (answer status none) = ((λ h. ground arith), (λ h. absurd h.1))
  detailed-eq-ok_iff (answer status (some (v, d))) = ((λ h. ground arith), (λ h. ground arith))

-- What a method needs to succeed with `b`. Only deleteEmail does without a body.
abbrev pub IsAccepted : (q : Request) → Exchange (Success q) → Success q → Type 0
IsAccepted (delete_email _ _) rejected b = ⊥
IsAccepted (delete_email _ _) (answer status body) b = is_ok status ≡ true
IsAccepted q e b = Accepts e b

deleted-eq-ok_iff :
    (m : String) (t i : String) (e : Exchange (Unit {0})) (b : Unit {0})
    → (deleted m e ≡ ok b) ↔ IsAccepted (delete_email t i) e b
unfolding deleted
deleted-eq-ok_iff m t i rejected b = ((λ h. ground arith), (λ h. absurd h))
deleted-eq-ok_iff m t i (answer status none) b = ((λ h. ground arith), (λ h. ground arith))
deleted-eq-ok_iff m t i (answer status (some d)) b = ((λ h. ground arith), (λ h. ground arith))

-- A method's promise holds `b` exactly when `fetch` answers with a status in the 200s and the body
-- is JSON of `b`; deleteEmail's holds its unit exactly when the status is in the 200s.
pub result-eq-ok_iff :
    (q : Request) (e : Exchange (Success q)) (b : Success q)
    → (result q e ≡ ok b) ↔ IsAccepted q e b
unfolding result
result-eq-ok_iff get_setup_status e b = plain-eq-ok_iff _ b e
result-eq-ok_iff (create_permanent_address u d) e b = detailed-eq-ok_iff _ b e
result-eq-ok_iff (get_address_info t) e b = plain-eq-ok_iff _ b e
result-eq-ok_iff get_domains e b = plain-eq-ok_iff _ b e
result-eq-ok_iff (create_address a) e b = reporting-eq-ok_iff _ b e
result-eq-ok_iff (list_emails t p) e b = detailed-eq-ok_iff _ b e
result-eq-ok_iff (get_email t i m) e b = detailed-eq-ok_iff _ b e
result-eq-ok_iff (delete_email t i) e b = deleted-eq-ok_iff _ t i e b

-- Whatever the exchange, what getAddressInfo throws has no status.
pub get_address_info-status_of :
    (token : String) (e : Exchange (Success (get_address_info token))) (t : Thrown)
    → result (get_address_info token) e ≡ thrown t
    → status_of t ≡ none
unfolding result
get_address_info-status_of token rejected t h = ground arith
get_address_info-status_of token (answer status none) t h = ground arith
get_address_info-status_of token (answer status (some b)) t h = ground arith
