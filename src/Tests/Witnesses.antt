-- ===== src/Tests/Witnesses.antt =====
-- The theorems on runs, claims, slots and requests at concrete inputs.
use insider_one.Prelude.{
  none, map, ◌*◌, ℕ, ◌≤◌, ◌≡◌, ◌≢◌, refl, String, Bool, true, false, some, List, [], ◌∷◌, arith,
  All, Pairs, find, str_eq, eq_iff, ◌&&◌, length,
}
use insider_one.Httpx.Context.{tenant_id_of, with_tenant_id}
use insider_one.Prelude.Text.{trim_space}
use insider_one.Prelude.Int.{pos}
use insider_one.Domain.{Time, second, Notification, pending}
use insider_one.Repository.Machine.{stay}
use insider_one.Repository.Sort.{sort_by, insert_by}
use insider_one.Repository.Read.Listing.{IsPage, list_notifications-IsPage}
use insider_one.Repository.Read.{newest_first, list_filter, list_notifications, in_tenant}
use insider_one.Repository.Schema.{
  Row, Database, empty, tenant_id, null_string, notification_row, scan_notification, key_is,
}
use insider_one.Repository.Write.{insert_notifications}
use insider_one.Repository.Write.Atomic.{AllOrNothing, insert_notifications-AllOrNothing}
use insider_one.Repository.Claim.{claimable, candidates, is_among, claim_rows}
use insider_one.Repository.Claim.Meaning.{IsClaimable, NeedNotWait}
use insider_one.Repository.Claim.Order.{candidates-first}
use insider_one.Repository.Claim.Exclusive.{claim_rows-exclusive}
use insider_one.Repository.Lifecycle.{IdsApart, WellFormed, Evolves}
use insider_one.Repository.Lifecycle.Claims.{claimed-IsClaimable}
use insider_one.Repository.RateLimit.{acquire_rate_limit_slots}
use insider_one.Repository.RateLimit.Quota.{IsWithinQuota, Granted, acquire_rate_limit_slots-within}
use insider_one.Repository.RateLimit.Seconds.{OnSeconds, StoresSeconds, used_in_second}
use insider_one.Service.Operations.Refines.{Refines, run-Refines}
use insider_one.Runtime.{Error, query, exec, under_fault, World, ok, err}
use insider_one.Service.{cancel}
use insider_one.Service.Cancelling.{CancelsOnly, cancel-CancelsOnly}
use insider_one.Service.Create.{create_notification, build_notification, initial_status}
use insider_one.Service.Create.Idempotent.{
  create_notification-invalid, create_notification-known_key,
}
use insider_one.Service.Operations.{run}
use insider_one.Service.Operations.Theorems.{run-WellFormed, run-Evolves, run-IsWithinQuota}
use insider_one.Service.Rules.Checks.{IsValid, validate_request_iff}
use insider_one.Service.Rules.{validate_request}
use insider_one.Runtime.Ends.{Ends, IsCalm}
use insider_one.Service.Process.{process_channel}
use insider_one.Service.Process.Settled.{KeepsSettled}
use insider_one.Service.Process.Calm.{process_channel-KeepsSettled}
use insider_one.Tests.{abroad, calm, fresh, service, caller, sms_request, day}

pub fresh-WellFormed : WellFormed fresh.db
fresh-WellFormed = record {
  ids = tt;
  keys = tt;
  within = tt;
  born = tt;
  owned = tt;
  numbered = tt;
  below_next = tt;
  requests = tt;
}

pub fresh-IsWithinQuota : (limit : ℕ) → IsWithinQuota limit fresh.db.windows
fresh-IsWithinQuota limit = record { apart = tt; used = tt }

pub calm-StoresSeconds : StoresSeconds calm
calm-StoresSeconds t h = refl

-- Two rows that wait, the urgent one behind the other.
abbrev pub two_rows : List Row
two_rows =
    notification_row (λ t. t)
      (build_notification "a" "acme" "" "" "" 5 (record sms_request { priority = "low" }))
    ∷ notification_row (λ t. t) (build_notification "b" "acme" "" "" "" 6 sms_request)
    ∷ []

abbrev no_lock : String → Bool
no_lock id = false

abbrev pub two_db : Database
two_db = record empty { notifications = two_rows }

abbrev pub two_world : World
two_world = record fresh { db = two_db }

pub not_same : (s t : String) → str_eq s t ≡ false → s ≢ t
not_same s t h = ground (arith, eq_iff s t)

two_rows-apart : Pairs IdsApart two_rows
unfolding notification_row build_notification
two_rows-apart = ((not_same "a" "b" refl, tt), (tt, tt))

pub two_db-WellFormed : WellFormed two_db
unfolding notification_row build_notification null_string initial_status
two_db-WellFormed = record {
  ids = two_rows-apart;
  keys = ((λ k _ p q. cc, tt), (tt, tt));
  within = (ground arith, (ground arith, tt));
  born = ((pending, refl, stay pending 0), ((pending, refl, stay pending 0), tt));
  owned = tt;
  numbered = tt;
  below_next = tt;
  requests = tt;
}

run-WellFormed_example : WellFormed (run calm service day fresh).db
run-WellFormed_example = run-WellFormed calm service day fresh fresh-WellFormed

run-Evolves_example :
    Evolves two_world.db.notifications (run calm service day two_world).db.notifications
run-Evolves_example = run-Evolves calm service day two_world two_db-WellFormed

-- Some slots of a second are in use already.
abbrev pub spent : World
spent = record two_world {
  db = record two_db {
    windows =
        record { key = "delivery:sms"; window_start = 2 * second; limit_count = 5; used_count = 1 }
        ∷ [];
  };
}

pub spent-IsWithinQuota : IsWithinQuota 100 spent.db.windows
spent-IsWithinQuota = record { apart = (tt, tt); used = (omega arith, tt) }

pub spent-OnSeconds : OnSeconds spent.db.windows
spent-OnSeconds = (refl, tt)

run-IsWithinQuota_example :
    let ws = (run calm service day spent).db.windows in
    IsWithinQuota service.rate_limit ws
    × OnSeconds ws
    × ((key : String) (from : Time) → used_in_second key from ws ≤ service.rate_limit)
unfolding insider_one.Service.new
run-IsWithinQuota_example =
    run-IsWithinQuota calm service day spent calm-StoresSeconds spent-IsWithinQuota spent-OnSeconds

run-Refines_example :
    Refines two_world.db.notifications (run calm service day two_world).db.notifications
run-Refines_example = run-Refines calm service day two_world two_db-WellFormed

acquire-within_example :
    let (r, w') = acquire_rate_limit_slots calm "delivery:sms" 5 3 fresh in
    IsWithinQuota 5 w'.db.windows × ((n : ℕ) → r ≡ ok n → Granted "delivery:sms" 3 fresh.db n w'.db)
acquire-within_example =
    acquire_rate_limit_slots-within calm "delivery:sms" 5 3 fresh (fresh-IsWithinQuota 5)

candidates-first_example :
    (length (candidates no_lock "sms" 9 1 two_rows) ≤ 1)
    × All
        (λ r.
          IsClaimable no_lock "sms" 9 r
          → is_among (candidates no_lock "sms" 9 1 two_rows) r ≡ false
          → All (λ c. NeedNotWait c r) (candidates no_lock "sms" 9 1 two_rows))
        two_rows
candidates-first_example = candidates-first no_lock "sms" 9 1 two_rows

claimed-IsClaimable_example :
    All
      (λ r.
        is_among (candidates no_lock "sms" 9 1 two_rows) r ≡ true → IsClaimable no_lock "sms" 9 r)
      two_rows
claimed-IsClaimable_example = claimed-IsClaimable no_lock "sms" 9 9 1 two_rows two_rows-apart

claim_rows-exclusive_example :
    All
      (λ r.
        is_among (candidates no_lock "sms" 9 1 two_rows) r ≡ true
        → claimable no_lock "sms" 10 r ≡ false)
      (claim_rows no_lock "sms" 9 9 1 two_db).1.notifications
claim_rows-exclusive_example = claim_rows-exclusive no_lock no_lock "sms" "sms" 9 9 10 1 two_db

insert-AllOrNothing_example :
    AllOrNothing calm
      (build_notification "a" "acme" "" "" "" 5 sms_request ∷ [])
      fresh.db
      (insert_notifications calm (build_notification "a" "acme" "" "" "" 5 sms_request ∷ []) fresh)
insert-AllOrNothing_example =
    insert_notifications-AllOrNothing calm
      (build_notification "a" "acme" "" "" "" 5 sms_request ∷ []) fresh

cancel-CancelsOnly_example :
    CancelsOnly
      ("a" ∷ [])
      (tenant_id (tenant_id_of caller))
      two_world.db
      (cancel calm caller ("a" ∷ []) two_world).1.db
cancel-CancelsOnly_example = cancel-CancelsOnly calm caller ("a" ∷ []) two_world

fax-refused :
    validate_request (record sms_request { channel = "fax" })
    ≡ err "channel must be sms, email, or push"
unfolding validate_request trim_space
fax-refused = refl

fax-invalid : IsValid (record sms_request { channel = "fax" }) → ⊥
fax-invalid valid =
    let fine = (validate_request_iff (record sms_request { channel = "fax" })).1 valid in
    let refused = fax-refused in cc

created-invalid_example :
    let req = record sms_request { channel = "fax" } in
    let (r, w') = create_notification calm caller req "" "corr" "k" two_world in
    ((e : Error) × (r ≡ err e)) × (w'.db ≡ two_world.db)
created-invalid_example =
    create_notification-invalid calm caller (record sms_request { channel = "fax" }) "" "corr" "k"
      two_world fax-invalid

abbrev keyed_row : Row
keyed_row = notification_row (λ t. t) (build_notification "a" "acme" "" "" "k" 5 sms_request)

abbrev keyed_world : World
keyed_world = record fresh { db = record empty { notifications = keyed_row ∷ [] } }

sms-accepted : validate_request sms_request ≡ ok tt
unfolding validate_request trim_space
sms-accepted = refl

keyed_row-found :
    find
      (λ r. key_is r.idempotency_key "k" && in_tenant (tenant_id (tenant_id_of caller)) r)
      keyed_world.db.notifications
    ≡ some keyed_row
unfolding notification_row build_notification null_string tenant_id tenant_id_of trim_space
    with_tenant_id
keyed_row-found = refl

known_key_example :
    let (r, w') = create_notification calm caller sms_request "" "corr" "k" keyed_world in
    (r ≡ ok (scan_notification keyed_row)) × (w'.db ≡ keyed_world.db)
known_key_example =
    create_notification-known_key calm caller sms_request "" "corr" "k" keyed_world keyed_row refl
      refl sms-accepted (not_same "k" "" refl) keyed_row-found

-- What the listing of two rows returns.
abbrev listed : List Notification
listed = map scan_notification (sort_by newest_first two_rows)

two_rows-listed :
    (list_notifications calm "pending" "" none none 5 (pos 0) "acme" two_world).0 ≡ ok listed
unfolding list_notifications list_filter query exec under_fault sort_by insert_by tenant_id
    trim_space notification_row build_notification null_string initial_status
two_rows-listed = refl

listing_example : IsPage (tenant_id "acme") "pending" "" none none 5 listed
listing_example =
    list_notifications-IsPage calm "pending" "" none none 5 (pos 0) "acme" two_world listed
      two_rows-listed

calm-IsCalm : IsCalm calm
calm-IsCalm = record { works = λ t. refl; live = λ t. refl }

process_channel_example :
    Ends (λ _ w'. KeepsSettled two_world.db w'.db) (process_channel calm abroad "sms" two_world)
unfolding insider_one.Service.new
process_channel_example =
    process_channel-KeepsSettled calm abroad "sms" two_world calm-IsCalm (omega arith)
