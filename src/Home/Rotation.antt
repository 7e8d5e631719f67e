-- ===== src/Home/Rotation.antt =====
-- When the page replaces its address: `/info` never confirms a 404, so only the clock does.
use mathlib.Core.Path.{fun_ext}
use wgtemporary_email.Base.{
  ℕ, zero, suc, String, ◌≡◌, refl, sym, ◌∙◌, ap, Bool, true, false, none, arith, if◌then◌else◌,
}
use wgtemporary_email.Base.Task.{update, call}
use wgtemporary_email.Api.{
  Exchange, get_address_info, AddressInfo, Thrown, ok, thrown, result, Result, status_of,
}
use wgtemporary_email.Api.Errors.{get_address_info-status_of}
use wgtemporary_email.Page.{net, has_status}
use wgtemporary_email.Home.State.{View, set_loading}
use wgtemporary_email.Home.Handlers.{
  Job, confirm_address_gone, finish_fetch, fetch_refused, list_inbox, fetch_with, expired_with,
  fetch_emails,
}

not-has_status : (n : ℕ) (e : Thrown) → status_of e ≡ none → has_status n e ≡ false
not-has_status n e h = ground arith

-- Whatever the server answers, confirmAddressGone is false: the error of getAddressInfo, on which
-- it tests the status, has none.
pub confirm_address_gone-false :
    (token : String) (next : Bool → Job)
    → confirm_address_gone token next ≡ call (net (get_address_info token)) (λ _. next false)
unfolding confirm_address_gone
confirm_address_gone-false token next = ap (call (net (get_address_info token))) (fun_ext go)
  where
    go' :
        (r : Result AddressInfo)
        → ((t : Thrown) → r ≡ thrown t → has_status 404 t ≡ false)
        → ◌≡◌ {A = Job}
            (elim r [ ok _ ↦ next false | thrown e ↦ next (has_status 404 e) ])
            (next false)
    go' (ok _) h = refl
    go' (thrown e) h = ap next (h e refl)

    go :
        (e : Exchange AddressInfo)
        → ◌≡◌ {A = Job}
            (elim (result (get_address_info token) e) [
              | ok _ ↦ next false
              | thrown e ↦ next (has_status 404 e)
            ])
            (next false)
    go e =
        go' (result (get_address_info token) e)
          (λ t h. not-has_status 404 t (get_address_info-status_of token e t h))

-- So the `catch` of fetchEmails never runs handleExpiredAddress.
pub fetch_refused-expired :
    (expired : Job → Job) (token : String) (silent : Bool) (e : Thrown)
    → fetch_refused expired token silent e ≡ fetch_refused (λ next. next) token silent e
unfolding fetch_refused
fetch_refused-expired expired token silent e =
    ap (λ (j : Job). if has_status 404 e then j else finish_fetch silent)
      (confirm_address_gone-false token _ ∙ sym (confirm_address_gone-false token _))

fetch_with-expired :
    (expired : Job → Job) (env : View) (token : String) (silent : Bool)
    → fetch_with expired env token silent ≡ fetch_with (λ next. next) env token silent
unfolding fetch_with
fetch_with-expired expired env token silent =
    ap
      (λ (f : Thrown → Job).
        if silent
        then list_inbox f env token silent
        else update (set_loading true) (list_inbox f env token silent))
      (fun_ext (fetch_refused-expired expired token silent))

-- One call of fetchEmails goes through no rotation: the bound on the rounds changes nothing.
pub fetch_emails-rounds :
    (rounds : ℕ) (env : View) (token : String) (silent : Bool)
    → fetch_emails rounds env token silent ≡ fetch_emails 0 env token silent
unfolding fetch_emails
fetch_emails-rounds zero env token silent = refl
fetch_emails-rounds (suc n) env token silent =
    fetch_with-expired (expired_with (λ tok. fetch_emails n env tok false) env) env token silent
