-- ===== src/Admin/PageTests.antt =====
-- web/app/admin: runs of the panel's smaller pages at concrete inputs.
use wgtemporary_email.Base.{◌≡◌, refl, true, false, none, some, [], ◌∷◌}
use wgtemporary_email.Base.Task.{run, asks}
use wgtemporary_email.Base.Task.Ends.{Ends}
use wgtemporary_email.Api.{answer}
use wgtemporary_email.Page.{plain}
use wgtemporary_email.Admin.Types.{
  AdminPermanentCreated, AdminStats, AdminEmailList, AdminAddressList,
}
use wgtemporary_email.Admin.Client.{runtime_error, fulfilled}
use wgtemporary_email.Admin.Panel.{Panel, net}
use wgtemporary_email.Admin.Requests.{get_permanent_stats, list_permanent_addresses}
use wgtemporary_email.Admin.Layout.{sign_out, layout_gate-sign_out}
use wgtemporary_email.Admin.Login.{Layout, layout_gate}
use wgtemporary_email.Admin.Domains as Domains
use wgtemporary_email.Admin.Domains.Checked.{handle_add-Ends}
use wgtemporary_email.Admin.Mailboxes as Mailboxes
use wgtemporary_email.Admin.Mailboxes.Kept.{create_answered-page}
use wgtemporary_email.Admin.Dashboard.{came}
use wgtemporary_email.Admin.Dashboard.Joined.{
  fresh, arrive_all, ShowsAll, ShowsError, bca, of_stats, of_emails, of_addresses, arrive,
  arrive_all-ShowsAll, arrive_all-ShowsError,
}

-- A layout that was ready still shows the page after signing out, until the redirect.
layout_gate-sign_out_example :
    let shown : Layout = record { ready = true; web_hostname = "" } in
    let (after, route) = layout_gate false (answer 503 none) (sign_out (some "secret")).0 shown in
    (route ≡ some "/admin") × (after.ready ≡ true)
layout_gate-sign_out_example =
    layout_gate-sign_out (answer 503 none) (some "secret")
      (record { ready = true; web_hostname = "" })

abbrev domains_page : Panel Domains.View
domains_page = record {
  view = record {
    domains = [];
    new_domain = " Example.org";
    loading = false;
    error = none;
    notice = none;
    checks = [];
    checking = "";
  };
  stored = some "secret";
  alerts = [];
  route = none;
}

handle_add-Ends_test :
    Ends 2 (λ s. s.view.loading ≡ false) (Domains.handle_add domains_page.view) domains_page
handle_add-Ends_test = handle_add-Ends domains_page.view domains_page refl

-- The third page of the mailboxes.
abbrev mailboxes_page : Panel Mailboxes.View
mailboxes_page = record {
  view = record {
    stats = none;
    data_ = none;
    page = 3;
    search_input = "";
    search = "";
    loading = false;
    error = none;
    notice = none;
    busy = false;
    username = "ann";
    domain = "";
    domains = [];
    created = none;
    copied = false;
  };
  stored = some "secret";
  alerts = [];
  route = none;
}

abbrev ann : AdminPermanentCreated
ann = record { id = "i1"; email = "ann@example.org"; token = "t1"; created_at = none }

create_answered-page_example :
    let after =
      run (Mailboxes.create_answered mailboxes_page.view (fulfilled ann)) mailboxes_page in
    (asks after.1
      ≡ net get_permanent_stats
        ∷ net (
            list_permanent_addresses
              (record { page = some 1; per_page = some 20; search = none })
              none)
        ∷ [])
    × (after.0.view.page ≡ 3)
    × (after.0.view.created ≡ some ann)
create_answered-page_example = create_answered-page mailboxes_page.view ann mailboxes_page

abbrev stats : AdminStats
stats = record {
  domains = [];
  total_addresses = 1;
  active_addresses = 1;
  total_emails = 0;
  unread_emails = 0;
  emails_24h = 0;
  total_attachments = 0;
  email_size_bytes = 0;
  attachment_size_bytes = 0;
  max_storage_mb = 0;
  db_ok = true;
  uptime_seconds = 60;
  address_lifetime_hours = 24;
  cleanup_interval_hours = 1;
  permanent_email_retention_days = 30;
}

abbrev no_emails : AdminEmailList
no_emails = record { items = []; total = 0; page = 1; per_page = 5; has_next = false }

abbrev no_addresses : AdminAddressList
no_addresses = record { items = []; total = 0; page = 1; per_page = 5; has_next = false }

arrive_all-ShowsAll_example : ShowsAll stats no_emails no_addresses (
    arrive_all
      (of_emails (fulfilled no_emails)
        ∷ of_addresses (fulfilled no_addresses)
        ∷ of_stats (fulfilled stats)
        ∷ [])
      fresh)
arrive_all-ShowsAll_example = arrive_all-ShowsAll bca stats no_emails no_addresses

-- After a failure of the network, the other two values come to nothing.
arrive_all-ShowsError_test : ShowsError (plain "admin.loadFailed") (
    arrive_all
      (of_addresses (fulfilled no_addresses) ∷ of_stats (fulfilled stats) ∷ [])
      (arrive (of_emails runtime_error) fresh))
unfolding came
arrive_all-ShowsError_test =
    arrive_all-ShowsError (plain "admin.loadFailed")
      (of_addresses (fulfilled no_addresses) ∷ of_stats (fulfilled stats) ∷ [])
      (arrive (of_emails runtime_error) fresh) ((refl, refl, refl, refl), refl)
