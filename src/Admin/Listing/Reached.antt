-- ===== src/Admin/Listing/Reached.antt =====
-- web/app/admin/addresses/page.tsx and web/app/admin/emails/page.tsx: whatever the user does and however
-- the answers come, what a list keeps.
use wgtemporary_email.Base.{
  ℕ, String, ◌≡◌, refl, ◌+◌, ◌-◌, ◌≤◌, Bool, true, false, none, List, [], leb, if◌then◌else◌, inl,
  arith, not, ◌&&◌,
}
use wgtemporary_email.Base.Task.{done, run, Waiting}
use wgtemporary_email.Base.Task.Schedule.{Keeps, Reach, Reach-Keeps, run-Keeps}
use wgtemporary_email.Admin.Client.{Stored, Outcome, fulfilled, api_error, runtime_error}
use wgtemporary_email.Admin.Panel.{Panel, PanelAsk, PanelAnswer, set, on_view}
use wgtemporary_email.Admin.Panel.Session.{StaysOr, IsKept, ask-Keeps}
use wgtemporary_email.Admin.Listing.{
  Resource, View, Job, paging, fetch_list, list_answered, handle_search, prev_page, next_page,
  has_items, has_following, refresh, handle_view, handle_delete, delete_answered, detail_answered,
}
use wgtemporary_email.Admin.Listing.Paged.{Event, searched, previous, following, refreshed, handler}

le_of_later : (b : Bool) (p : ℕ) → (b && not (leb p 1)) ≡ true → 1 ≤ p - 1
le_of_later b p h = ground arith

module _ {L D : Type 0} (r : Resource L D) where
  -- What can start in a render.
  pub data Starts (s : Panel (View L D)) : Job r → Type 0 where
    acted : (e : Event) → Starts s (handler r e s.view)
    viewed : (id : String) → Starts s (handle_view r id)
    deleted : (confirmed : Bool) (id : String) → Starts s (handle_delete r confirmed id s.view)
    typed : (text : String) → Starts s (set (λ v. record v { search_input = text }) done)
    closed : Starts s (set (λ v. record v { detail = none }) done)

  abbrev first_view : View L D
  first_view = record {
    data_ = none;
    page = 1;
    search = "";
    search_input = "";
    loading = false;
    error = none;
    detail = none;
    detail_loading = false;
  }

  abbrev before : Stored → Panel (View L D)
  before stored = record { view = first_view; stored = stored; alerts = []; route = none }

  -- The page once its first effect ran, in a browser with this token.
  abbrev pub opened_page :
      Stored → Panel (View L D) × List (Waiting (Panel (View L D)) PanelAsk PanelAnswer)
  opened_page stored = run (fetch_list r 1 "") (before stored)

  abbrev pub IsPaged : View L D → Type 0
  IsPaged v = 1 ≤ v.page

  module _ (first : Stored) where
    abbrev IsGood : Panel (View L D) → Type 0
    IsGood = IsKept IsPaged first

    list_answered-Keeps :
        (o : Outcome L) (s : Panel (View L D)) → IsGood s → Keeps IsGood (list_answered r o) s
    unfolding list_answered
    list_answered-Keeps (fulfilled l) s h = h
    list_answered-Keeps (api_error _ m) s h = h
    list_answered-Keeps runtime_error s h = h

    fetch_list-Keeps :
        (p : ℕ) (q : String) (s : Panel (View L D)) → IsGood s → Keeps IsGood (fetch_list r p q) s
    unfolding fetch_list
    fetch_list-Keeps p q s h =
        ask-Keeps IsPaged first (r.list (paging r p q))
          (λ o. list_answered r (r.read_list (paging r p q) o))
          (on_view (λ v. record v { loading = true; error = none }) s) h
          (λ o s' h'. list_answered-Keeps (r.read_list (paging r p q) o) s' h')

    turn-Keeps :
        (p : ℕ) (q : String) (s : Panel (View L D))
        → 1 ≤ p
        → IsGood s
        → Keeps IsGood (set (λ v. record v { page = p }) (fetch_list r p q)) s
    turn-Keeps p q s le h = fetch_list-Keeps p q (on_view (λ v. record v { page = p }) s) (le, h.1)

    if-Keeps :
        (b : Bool) (t u : Job r) (s : Panel (View L D))
        → (b ≡ true → Keeps IsGood t s)
        → (b ≡ false → Keeps IsGood u s)
        → Keeps IsGood (if b then t else u) s
    if-Keeps true t u s h k = h refl
    if-Keeps false t u s h k = k refl

    handler-Keeps :
        (e : Event) (s : Panel (View L D)) → IsGood s → Keeps IsGood (handler r e s.view) s
    unfolding handle_search prev_page next_page refresh
    handler-Keeps searched s h =
        fetch_list-Keeps 1 s.view.search_input
          (on_view (λ v. record v { page = 1; search = s.view.search_input }) s)
          ((omega arith), h.1)
    handler-Keeps previous s h =
        let shows = has_items r s.view.data_ in
        if-Keeps (shows && not (leb s.view.page 1)) _ done s
          (λ later.
            turn-Keeps (s.view.page - 1) s.view.search s (le_of_later shows s.view.page later) h)
          (λ _. h)
    handler-Keeps following s h =
        if-Keeps (has_items r s.view.data_ && has_following r s.view.data_) _ done s
          (λ _. turn-Keeps (s.view.page + 1) s.view.search s (omega arith) h) (λ _. h)
    handler-Keeps refreshed s h =
        if-Keeps s.view.loading done _ s (λ _. h)
          (λ _. fetch_list-Keeps s.view.page s.view.search s h)

    detail_answered-Keeps :
        (o : Outcome D) (s : Panel (View L D)) → IsGood s → Keeps IsGood (detail_answered r o) s
    unfolding detail_answered
    detail_answered-Keeps (fulfilled d) s h = if-Keeps r.marks_detail _ done _ (λ _. h) (λ _. h)
    detail_answered-Keeps (api_error _ m) s h = if-Keeps r.marks_detail _ done _ (λ _. h) (λ _. h)
    detail_answered-Keeps runtime_error s h = if-Keeps r.marks_detail _ done s (λ _. h) (λ _. h)

    handle_view-Keeps :
        (id : String) (s : Panel (View L D)) → IsGood s → Keeps IsGood (handle_view r id) s
    unfolding handle_view
    handle_view-Keeps id s h =
        let asked = λ (s : Panel (View L D)) (h : IsGood s).
          ask-Keeps IsPaged first (r.detail id) (λ o. detail_answered r (r.read_detail id o)) s h
            (λ o s' h'. detail_answered-Keeps (r.read_detail id o) s' h') in
        if-Keeps r.marks_detail _ _ s
          (λ _. asked (on_view (λ v. record v { detail_loading = true }) s) h) (λ _. asked s h)

    delete_answered-Keeps :
        {B : Type 0} (o : Outcome B) (env : View L D) (s : Panel (View L D))
        → IsGood s
        → Keeps IsGood (delete_answered r env o) s
    unfolding delete_answered
    delete_answered-Keeps (fulfilled _) env s h =
        let closed_page = on_view (λ v. record v { detail = none }) s in
        let kept = fetch_list-Keeps env.page env.search closed_page h in
        (kept, (run-Keeps IsGood (fetch_list r env.page env.search) closed_page kept).0)
    delete_answered-Keeps (api_error _ m) env s h = h
    delete_answered-Keeps runtime_error env s h = h

    started-Keeps : (s : Panel (View L D)) (t : Job r) → IsGood s → Starts s t → Keeps IsGood t s
    unfolding handle_delete
    started-Keeps s _ h (acted e) = handler-Keeps e s h
    started-Keeps s _ h (viewed id) = handle_view-Keeps id s h
    started-Keeps s _ h (deleted false id) = h
    started-Keeps s _ h (deleted true id) =
        ask-Keeps IsPaged first (r.delete id) (delete_answered r s.view) s h
          (λ o s' h'. delete_answered-Keeps o s.view s' h')
    started-Keeps s _ h (typed text) = h
    started-Keeps s _ h closed = h

    -- Whatever the user does and in whichever order the answers come: the list never stands before its
    -- first page, and the token in localStorage is the one that was there or none.
    pub reached-IsKept :
        {s : Panel (View L D)} {ws : List (Waiting (Panel (View L D)) PanelAsk PanelAnswer)}
        → Reach Starts (λ s. s) (opened_page first).0 (opened_page first).1 s ws
        → (1 ≤ s.view.page) × StaysOr first s.stored
    reached-IsKept reached =
        let (at_first, pending) =
          run-Keeps IsGood (fetch_list r 1 "") (before first)
            (fetch_list-Keeps 1 "" (before first) ((omega arith), inl refl)) in
        (Reach-Keeps IsGood (λ _ h. h) started-Keeps at_first pending reached).0
