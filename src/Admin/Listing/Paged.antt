-- ===== src/Admin/Listing/Paged.antt =====
-- web/app/admin/addresses/page.tsx and web/app/admin/emails/page.tsx: the page and the search that the
-- lists stand at, against an abstract cursor.
use wgtemporary_email.Base.{
  false_of, and_left, and_right, sym, ◌∙◌, suc, false, ◌≤◌, ◌<◌, ◌⊎◌, ltb→lt, arith, ℕ, String, ◌≡◌,
  refl, ◌+◌, ◌-◌, true, Option, none, some, [], ◌∷◌, leb, if◌then◌else◌, Bool-cases, inl, inr, not,
  ◌&&◌,
}
use wgtemporary_email.Base.Text.{is_empty}
use wgtemporary_email.Base.Task.{run, asks}
use wgtemporary_email.Admin.Panel.{Panel, net}
use wgtemporary_email.Admin.Listing.{
  Resource, View, Job, fetch_list, handle_search, prev_page, next_page, has_items, has_following,
  refresh,
}

-- What a list shows is told by a page of the results of a search.
pub record Cursor : Type 0 where
  pub page : ℕ
  pub search : String

-- What the user does with the controls around a list.
pub data Event : Type 0 where
  searched previous following refreshed : Event

module _ {L D : Type 0} (r : Resource L D) where
  abbrev pub cursor : View L D → Cursor
  cursor v = record { page = v.page; search = v.search }

  -- What a control calls, in a render of `env`.
  abbrev pub handler : Event → View L D → Job r
  handler searched env = handle_search r env
  handler previous env = prev_page r env
  handler following env = next_page r env
  handler refreshed env = refresh r env

  -- The specification: where a control leads to. A search leads to its first page; the buttons to the page
  -- before and after, beside a list of something, where there is such a page; and the button that fetches
  -- again to where the list stands, while none loads.
  pub data Leads (v : View L D) : Event → Cursor → Type 0 where
    search : Leads v searched (record { page = 1; search = v.search_input })
    back :
        (l : L) (p : ℕ)
        → v.data_ ≡ some l
        → 0 < r.total l
        → 1 ≤ p
        → v.page ≡ suc p
        → Leads v previous (record { page = p; search = v.search })
    onward :
        (l : L)
        → v.data_ ≡ some l
        → 0 < r.total l
        → r.has_next l ≡ true
        → Leads v following (record { page = v.page + 1; search = v.search })
    again : v.loading ≡ false → Leads v refreshed (record { page = v.page; search = v.search })

  -- The list comes to stand at the cursor and asks for that page of that search alone, twenty items at
  -- most, with the loading marked and no error.
  abbrev pub Moves : Cursor → Job r → Panel (View L D) → Type 0
  Moves c t s =
      let after = run t s in
      (cursor after.0.view ≡ c)
      × (asks after.1
          ≡ net (
              r.list (record {
                page = some c.page;
                per_page = some 20;
                search = if is_empty c.search then none else some c.search;
              }))
            ∷ [])
      × (after.0.view.loading ≡ true)
      × (after.0.view.error ≡ none)

  -- A control leads to a cursor and moves there, or it leads nowhere and leaves all as it is.
  abbrev pub Refines : Event → Job r → Panel (View L D) → Type 0
  Refines e t s =
      ((c : Cursor) × Leads s.view e c × Moves c t s)
      ⊎ (((c : Cursor) → ¬ Leads s.view e c) × (run t s ≡ (s, [])))

  shown_items : (o : Option L) → has_items r o ≡ true → (l : L) × (o ≡ some l) × (0 < r.total l)
  shown_items none h = absurd (false_of h)
  shown_items (some l) h = (l, refl, ltb→lt 0 (r.total l) h)

  shown_following : (o : Option L) (l : L) → o ≡ some l → has_following r o ≡ r.has_next l
  shown_following o l e = rw e refl

  previous_lem :
      (v : View L D) (c : Cursor)
      → Leads v previous c
      → (has_items r v.data_ && not (leb v.page 1)) ≡ true
  previous_lem v c (Leads.back l p here some_items later at) = rw (here, at) (ground arith)

  following_lem :
      (v : View L D) (c : Cursor)
      → Leads v following c
      → (has_items r v.data_ && has_following r v.data_) ≡ true
  following_lem v c (Leads.onward l here some_items more) = rw (here, more) (ground arith)

  refreshed_lem : (v : View L D) (c : Cursor) → Leads v refreshed c → v.loading ≡ false
  refreshed_lem v c (Leads.again free) = free

  back_to :
      (v : View L D)
      → (has_items r v.data_ && not (leb v.page 1)) ≡ true
      → Leads v previous (record { page = v.page - 1; search = v.search })
  back_to v h =
      let (l, here, items) = shown_items v.data_ (and_left (has_items r v.data_) _ h) in
      let later = and_right (has_items r v.data_) _ h in
      Leads.back l (v.page - 1) here items (ground arith) (ground arith)

  onward_to :
      (v : View L D)
      → (has_items r v.data_ && has_following r v.data_) ≡ true
      → Leads v following (record { page = v.page + 1; search = v.search })
  onward_to v h =
      let (l, here, items) = shown_items v.data_ (and_left (has_items r v.data_) _ h) in
      Leads.onward l here items
        (sym (shown_following v.data_ l here) ∙ and_right (has_items r v.data_) _ h)

  -- The controls of a list refine the abstract cursor: whatever the page holds, each leads where the
  -- specification says, with one request, for just the page and the search that the list stands at
  -- afterwards; and where the specification leads nowhere, it does nothing.
  pub handler-Refines : (e : Event) (s : Panel (View L D)) → Refines e (handler e s.view) s
  unfolding handle_search prev_page next_page refresh fetch_list
  handler-Refines searched s = inl (_, Leads.search, (refl, refl, refl, refl))
  handler-Refines previous s =
      elim (Bool-cases (has_items r s.view.data_ && not (leb s.view.page 1))) [
        | inl later ↦ inl (_, back_to s.view later, rw later (refl, refl, refl, refl))
        | inr at_first ↦
            inr ((λ c led. false_of (sym at_first ∙ previous_lem s.view c led)), rw at_first refl)
      ]
  handler-Refines following s =
      elim (Bool-cases (has_items r s.view.data_ && has_following r s.view.data_)) [
        | inl more ↦ inl (_, onward_to s.view more, rw more (refl, refl, refl, refl))
        | inr last ↦ inr ((λ c led. false_of (sym last ∙ following_lem s.view c led)), rw last refl)
      ]
  handler-Refines refreshed s = elim (Bool-cases s.view.loading) [
    | inl busy ↦ inr ((λ c led. false_of (sym (refreshed_lem s.view c led) ∙ busy)), rw busy refl)
    | inr free ↦ inl (_, Leads.again free, rw free (refl, refl, refl, refl))
  ]
