-- ===== src/Admin/Listing.antt =====
-- web/app/admin/addresses/page.tsx and web/app/admin/emails/page.tsx: a list of the server's items, in
-- pages, with a search and a dialog that shows one. The two pages differ in the methods of `adminApi` that
-- they call, which `Resource` holds; a text that shows nothing, "" in the source, is `none`.
pub mod Paged
pub mod Reached
pub mod Tests
use wgtemporary_email.Base.{
  ℕ, String, ◌+◌, ◌-◌, ltb, not, ◌&&◌, Bool, true, false, Option, none, some, List, [], ◌∷◌, ltb,
  leb, not, if◌then◌else◌,
}
use wgtemporary_email.Base.Text.{or_none}
use wgtemporary_email.Base.Task.{done, spawn}
use wgtemporary_email.Page.{Phrase, plain}
use wgtemporary_email.Admin.Types.{
  AdminAddressList, AdminAddressDetail, AdminEmailList, AdminEmailDetail,
}
use wgtemporary_email.Admin.Client.{Outcome, fulfilled, api_error, runtime_error}
use wgtemporary_email.Admin.Requests.{
  AdminRequest, AdminSuccess, Paging, list_addresses, get_address, delete_address, list_emails,
  get_email, delete_email,
}
use wgtemporary_email.Admin.Panel.{Panel, PanelJob, set, alert, ask}

-- The methods that a page calls, and what it reads of a list that came.
pub record Resource (L D : Type 0) : Type 1 where
  pub list : Paging → AdminRequest
  pub detail : String → AdminRequest
  pub delete : String → AdminRequest
  pub read_list : (p : Paging) → Outcome (AdminSuccess (list p)) → Outcome L
  pub read_detail : (id : String) → Outcome (AdminSuccess (detail id)) → Outcome D
  pub has_next : L → Bool
  pub total : L → ℕ
  -- the page marks that a dialog loads
  pub marks_detail : Bool

abbrev pub addresses : Resource AdminAddressList AdminAddressDetail
addresses = record {
  list = list_addresses;
  detail = get_address;
  delete = delete_address;
  read_list = λ _ o. o;
  read_detail = λ _ o. o;
  has_next = λ l. l.has_next;
  total = λ l. l.total;
  marks_detail = false;
}

abbrev pub emails : Resource AdminEmailList AdminEmailDetail
emails = record {
  list = list_emails;
  detail = get_email;
  delete = delete_email;
  read_list = λ _ o. o;
  read_detail = λ _ o. o;
  has_next = λ l. l.has_next;
  total = λ l. l.total;
  marks_detail = true;
}

-- The `useState` variables of a page; the addresses have no `detail_loading`, and leave it false.
pub record View (L D : Type 0) : Type 0 where
  pub data_ : Option L
  pub page : ℕ
  pub search : String
  pub search_input : String
  pub loading : Bool
  pub error : Option Phrase
  pub detail : Option D
  pub detail_loading : Bool

module _ {L D : Type 0} (r : Resource L D) where
  abbrev pub Job : Type 0
  Job = PanelJob (View L D)

  abbrev loaded : Job
  loaded = set (λ v. record v { loading = false }) done

  unfoldable pub list_answered : Outcome L → Job
  list_answered (fulfilled l) = set (λ v. record v { data_ = some l }) loaded
  list_answered (api_error _ m) = set (λ v. record v { error = some m }) loaded
  list_answered runtime_error =
      set (λ v. record v { error = some (plain "admin.loadFailed") }) loaded

  abbrev pub paging : ℕ → String → Paging
  paging p q = record { page = some p; per_page = some 20; search = or_none q }

  -- `fetchAddresses(p, q)`, `fetchEmails(p, q)`
  unfoldable pub fetch_list : ℕ → String → Job
  unfolding list_answered
  fetch_list p q =
      set (λ v. record v { loading = true })
        (set (λ v. record v { error = none })
          (ask (r.list (paging p q)) (λ o. list_answered (r.read_list (paging p q) o))))

  -- `handleSearch`, from the fields of a render
  unfoldable pub handle_search : View L D → Job
  unfolding fetch_list
  handle_search env =
      set (λ v. record v { page = 1 })
        (set (λ v. record v { search = env.search_input }) (fetch_list 1 env.search_input))

  -- `setPage(p)` and the fetch of the buttons under the list
  abbrev turn : ℕ → View L D → Job
  turn p env = set (λ v. record v { page = p }) (fetch_list p env.search)

  -- The buttons show with a list of something.
  abbrev pub has_items : Option L → Bool
  has_items none = false
  has_items (some l) = ltb 0 (r.total l)

  abbrev pub has_following : Option L → Bool
  has_following none = false
  has_following (some l) = r.has_next l

  -- The button to the previous page, which is disabled on the first.
  unfoldable pub prev_page : View L D → Job
  unfolding fetch_list
  prev_page env =
      if has_items env.data_ && not (leb env.page 1) then turn (env.page - 1) env else done

  -- The button to the next page, which is disabled on the last.
  unfoldable pub next_page : View L D → Job
  unfolding fetch_list
  next_page env =
      if has_items env.data_ && has_following env.data_ then turn (env.page + 1) env else done

  -- The button that fetches again, which is disabled while a list loads.
  unfoldable pub refresh : View L D → Job
  unfolding fetch_list
  refresh env = if env.loading then done else fetch_list env.page env.search

  abbrev mark_detail : Bool → Job → Job
  mark_detail b t = if r.marks_detail then set (λ v. record v { detail_loading = b }) t else t

  unfoldable pub detail_answered : Outcome D → Job
  detail_answered (fulfilled d) = set (λ v. record v { detail = some d }) (mark_detail false done)
  detail_answered (api_error _ m) = alert m (mark_detail false done)
  detail_answered runtime_error = mark_detail false done

  -- `handleView`
  unfoldable pub handle_view : String → Job
  unfolding detail_answered
  handle_view id = mark_detail true (ask (r.detail id) (λ o. detail_answered (r.read_detail id o)))

  unfoldable pub delete_answered : {B : Type 0} → View L D → Outcome B → Job
  unfolding fetch_list
  delete_answered env (fulfilled _) =
      set (λ v. record v { detail = none }) (spawn (fetch_list env.page env.search) done)
  delete_answered env (api_error _ m) = alert m done
  delete_answered env runtime_error = done

  -- `handleDelete`, with the answer to its `confirm`, from the fields of a render
  unfoldable pub handle_delete : Bool → String → View L D → Job
  unfolding delete_answered
  handle_delete false id env = done
  handle_delete true id env = ask (r.delete id) (delete_answered env)
