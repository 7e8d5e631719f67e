-- ===== src/Admin/Listing/Tests.antt =====
-- web/app/admin/addresses/page.tsx and web/app/admin/emails/page.tsx: runs at concrete inputs.
use wgtemporary_email.Base.{◌≤◌, true, false, none, some, []}
use wgtemporary_email.Base.Task.{run}
use wgtemporary_email.Base.Task.Schedule.{opened, start}
use wgtemporary_email.Admin.Types.{
  AdminEmailList, AdminEmailDetail, AdminAddressList, AdminAddressDetail,
}
use wgtemporary_email.Admin.Panel.{Panel}
use wgtemporary_email.Admin.Panel.Session.{StaysOr}
use wgtemporary_email.Admin.Listing.{
  View, emails, addresses, fetch_list, list_answered, handle_search, prev_page, next_page, refresh,
  handle_view, handle_delete,
}
use wgtemporary_email.Admin.Listing.Paged.{Refines, handler, searched, following, handler-Refines}
use wgtemporary_email.Admin.Listing.Reached.{opened_page, reached-IsKept, acted}

listed : Unit {0}
unfolding fetch_list list_answered handle_search prev_page next_page refresh handle_view
    handle_delete
listed = tt

abbrev second_page : Panel (View AdminEmailList AdminEmailDetail)
second_page = record {
  view = record {
    data_ = some (record { items = []; total = 50; page = 2; per_page = 20; has_next = true });
    page = 2;
    search = "invoice";
    search_input = "invoice";
    loading = false;
    error = none;
    detail = none;
    detail_loading = false;
  };
  stored = some "secret";
  alerts = [];
  route = none;
}

-- The next page of the same search.
handler-Refines_example : Refines emails following (next_page emails second_page.view) second_page
handler-Refines_example = handler-Refines emails following second_page

-- A search from the first render of the addresses.
abbrev first_page : Panel (View AdminAddressList AdminAddressDetail)
first_page = (opened_page addresses (some "secret")).0

reached-IsKept_example :
    let after = (run (handler addresses searched first_page.view) first_page).0 in
    (1 ≤ after.view.page) × StaysOr (some "secret") after.stored
unfolding listed
reached-IsKept_example = reached-IsKept addresses (some "secret") (start _ opened (acted searched))
