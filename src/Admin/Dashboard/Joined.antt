-- ===== src/Admin/Dashboard/Joined.antt =====
-- web/app/admin/dashboard/page.tsx: the order in which the three answers come.
use wgtemporary_email.Base.{◌≡◌, refl, false, true, none, some, List, [], ◌∷◌}
use wgtemporary_email.Page.{Phrase}
use wgtemporary_email.Admin.Types.{AdminStats, AdminEmailList, AdminAddressList}
use wgtemporary_email.Admin.Client.{Outcome, fulfilled, api_error, runtime_error}
use wgtemporary_email.Admin.Dashboard.{View, came, join, keep_stats, keep_emails, keep_addresses}

-- The end of one of the three requests.
pub data Arrival : Type 0 where
  of_stats : Outcome AdminStats → Arrival
  of_emails : Outcome AdminEmailList → Arrival
  of_addresses : Outcome AdminAddressList → Arrival

abbrev pub arrive : Arrival → View → View
arrive (of_stats o) v = came keep_stats o v
arrive (of_emails o) v = came keep_emails o v
arrive (of_addresses o) v = came keep_addresses o v

abbrev pub arrive_all : List Arrival → View → View
arrive_all [] v = v
arrive_all (a ∷ rest) v = arrive_all rest (arrive a v)

-- The orders of three.
pub data Order : Type 0 where
  abc acb bac bca cab cba : Order

abbrev pub in_order : Order → Arrival → Arrival → Arrival → List Arrival
in_order abc a b c = a ∷ b ∷ c ∷ []
in_order acb a b c = a ∷ c ∷ b ∷ []
in_order bac a b c = b ∷ a ∷ c ∷ []
in_order bca a b c = b ∷ c ∷ a ∷ []
in_order cab a b c = c ∷ a ∷ b ∷ []
in_order cba a b c = c ∷ b ∷ a ∷ []

abbrev pub fresh : View
fresh = record {
  stats = none;
  recent_emails = [];
  recent_addresses = [];
  error = none;
  got_stats = none;
  got_emails = none;
  got_addresses = none;
  settled = false;
}

-- What a user sees: the three values, or an error and none of them.
abbrev pub ShowsAll : AdminStats → AdminEmailList → AdminAddressList → View → Type 0
ShowsAll s es addresses v =
    (v.stats ≡ some s)
    × (v.recent_emails ≡ es.items)
    × (v.recent_addresses ≡ addresses.items)
    × (v.error ≡ none)

abbrev pub ShowsError : Phrase → View → Type 0
ShowsError m v =
    (v.stats ≡ none) × (v.recent_emails ≡ []) × (v.recent_addresses ≡ []) × (v.error ≡ some m)

-- Whatever the order in which the three answers come, the dashboard that all of them fulfil shows all
-- three values and no error.
pub arrive_all-ShowsAll :
    (order : Order) (s : AdminStats) (es : AdminEmailList) (addresses : AdminAddressList)
    → ShowsAll s es addresses (
        arrive_all
          (in_order order
            (of_stats (fulfilled s))
            (of_emails (fulfilled es))
            (of_addresses (fulfilled addresses)))
          fresh)
unfolding came join
arrive_all-ShowsAll abc s es addresses = (refl, refl, refl, refl)
arrive_all-ShowsAll acb s es addresses = (refl, refl, refl, refl)
arrive_all-ShowsAll bac s es addresses = (refl, refl, refl, refl)
arrive_all-ShowsAll bca s es addresses = (refl, refl, refl, refl)
arrive_all-ShowsAll cab s es addresses = (refl, refl, refl, refl)
arrive_all-ShowsAll cba s es addresses = (refl, refl, refl, refl)

came-settled :
    {B : Type 0} (keep : B → View → View) (m : Phrase) (o : Outcome B) (v : View)
    → ((b : B) (v : View)
        → ShowsError m v × (v.settled ≡ true)
        → ShowsError m (keep b v) × ((keep b v).settled ≡ true))
    → ShowsError m v × (v.settled ≡ true)
    → ShowsError m (came keep o v) × ((came keep o v).settled ≡ true)
unfolding came join
came-settled keep m (fulfilled b) v kept h = let after = kept b v h in rw after.1 (after.0, refl)
came-settled keep m (api_error _ n) v kept h = rw h.1 (h.0, refl)
came-settled keep m runtime_error v kept h = rw h.1 (h.0, refl)

arrive-settled :
    (m : Phrase) (a : Arrival) (v : View)
    → ShowsError m v × (v.settled ≡ true)
    → ShowsError m (arrive a v) × ((arrive a v).settled ≡ true)
arrive-settled m (of_stats o) v h = came-settled keep_stats m o v (λ b v h. h) h
arrive-settled m (of_emails o) v h = came-settled keep_emails m o v (λ b v h. h) h
arrive-settled m (of_addresses o) v h = came-settled keep_addresses m o v (λ b v h. h) h

-- Once one of the requests failed before all were fulfilled, whatever comes later changes nothing of what
-- is shown: the first error, and none of the values.
pub arrive_all-ShowsError :
    (m : Phrase) (later : List Arrival) (v : View)
    → ShowsError m v × (v.settled ≡ true)
    → ShowsError m (arrive_all later v)
arrive_all-ShowsError m [] v h = h.0
arrive_all-ShowsError m (a ∷ later) v h =
    arrive_all-ShowsError m later (arrive a v) (arrive-settled m a v h)
