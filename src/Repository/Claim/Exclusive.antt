-- ===== src/Repository/Claim/Exclusive.antt =====
-- internal/repository/postgres.go: `ClaimDue`, one claim after another.
use insider_one.Prelude.{ℕ, ◌≡◌, Bool, true, false, String, arith, All, All-imp}
use insider_one.Domain.{Time, Channel, processing}
use insider_one.Repository.Schema.{Row, Database}
use insider_one.Repository.Claim.{claimable, candidates, is_among, claim_rows}
use insider_one.Repository.Lifecycle.InFlight.{updated-processing}

not-claimable-processing :
    (locked : String → Bool) (channel : Channel) (now : Time) (r : Row)
    → r.status ≡ processing
    → claimable locked channel now r ≡ false
unfolding claimable
not-claimable-processing locked channel now r h = grind arith

-- After a claim no row that it has taken can be taken by another claim, for any channel, at any
-- time and with any rows locked, until its status changes.
pub claim_rows-exclusive :
    (locked locked' : String → Bool) (channel channel' : Channel) (now updated now' : Time)
    (limit : ℕ) (db : Database)
    → let taken = candidates locked channel now limit db.notifications in
      All
        (λ r. is_among taken r ≡ true → claimable locked' channel' now' r ≡ false)
        (claim_rows locked channel now updated limit db).1.notifications
unfolding claim_rows
claim_rows-exclusive locked locked' channel channel' now updated now' limit db =
    All-imp _ _ _ (λ r h e. not-claimable-processing locked' channel' now' r (h e))
      (updated-processing (candidates locked channel now limit db.notifications) db.notifications
        updated)
