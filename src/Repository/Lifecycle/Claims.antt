-- ===== src/Repository/Lifecycle/Claims.antt =====
-- internal/repository/postgres.go: the UPDATE statements of `CancelPending` and `ClaimDue`.
use insider_one.Prelude.{
  ℕ, ◌≡◌, refl, Bool, true, false, String, List, [], ◌∷◌, arith, All, Pairs, All-imp, keep_if, sym,
  ◌∙◌, if◌then◌else◌, str_eq, eq_iff,
}
use insider_one.Domain.{Time, Channel, Status, pending, scheduled, processing}
use insider_one.Repository.Machine.{Move, take, take_scheduled, cancel, Moves-one}
use insider_one.Repository.Schema.{Row, Database}
use insider_one.Repository.Write.{cancellable, set_cancelled, cancel_rows}
use insider_one.Repository.Claim.Meaning.{IsClaimable, claimable_iff}
use insider_one.Repository.Claim.{
  is_waiting, claims_before, claimable, candidates, is_among, set_processing, claim_rows,
}
use insider_one.Repository.Lifecycle.{SameIdentity, IdsApart, Lives}
use insider_one.Repository.Lifecycle.Updates.{IsLawful, update_rows-Lives}
use insider_one.Repository.Sort.{sort_by}
use insider_one.Repository.Sort.Laws.{exists-sort_by, exists_of_take}
use insider_one.Runtime.{Env}

set_cancelled-same : (now : Time) (r : Row) → SameIdentity r (set_cancelled now r)
unfolding set_cancelled
set_cancelled-same now r = ground arith

cancel-IsLawful :
    (ids : List String) (tenant : String) (now : Time) (rows : List Row)
    → All (IsLawful (cancellable ids tenant) (set_cancelled now)) rows
unfolding set_cancelled cancellable
cancel-IsLawful ids tenant now [] = tt
cancel-IsLawful ids tenant now (r ∷ rows) = (
  record {
    attempts = omega arith;
    moves = λ p. Moves-one r.max_attempts _ _ _ _ (cancel r.status r.attempts (ground arith));
    settled = λ p closed. ground arith;
    within = λ p h. ground arith;
  },
  cancel-IsLawful ids tenant now rows,
)

pub cancel_rows-Lives :
    (env : Env) (ids : List String) (tenant : String) (now : Time) (db : Database)
    → Lives db (cancel_rows env ids tenant now db).1
unfolding cancel_rows
cancel_rows-Lives env ids tenant now db =
    update_rows-Lives _ _ (set_cancelled-same (env.stored now)) db
      (λ h. cancel-IsLawful ids tenant (env.stored now) db.notifications)

-- What `p` keeps of rows with distinct ids is known by its ids alone.
kept_by_id-cons :
    (p : Row → Bool) (r : Row) (kept rows : List Row)
    → All (IdsApart r) rows
    → All (λ s. is_among kept s ≡ true → p s ≡ true) rows
    → All (λ s. is_among (r ∷ kept) s ≡ true → p s ≡ true) rows
kept_by_id-cons p r kept [] h k = tt
kept_by_id-cons p r kept (s ∷ rows) h k =
    (λ e. ground (arith, eq_iff r.id s.id), kept_by_id-cons p r kept rows h.1 k.1)

not-kept :
    (p : Row → Bool) (r : Row) (rows : List Row)
    → All (IdsApart r) rows
    → is_among (keep_if p rows) r ≡ false
not-kept p r [] h = refl
not-kept p r (s ∷ rows) h = ground (arith, eq_iff s.id r.id, not-kept p r rows h.1)

kept_by_id-step :
    (p : Row → Bool) (r : Row) (rows : List Row) (b : Bool)
    → p r ≡ b
    → All (IdsApart r) rows
    → All (λ s. is_among (keep_if p rows) s ≡ true → p s ≡ true) rows
    → All
        (λ s. is_among (if b then r ∷ keep_if p rows else keep_if p rows) s ≡ true → p s ≡ true)
        (r ∷ rows)
kept_by_id-step p r rows true e h k = ((λ _. e), kept_by_id-cons p r (keep_if p rows) rows h k)
kept_by_id-step p r rows false e h k = ((λ a. cc (not-kept p r rows h)), k)

kept_by_id :
    (p : Row → Bool) (rows : List Row)
    → Pairs IdsApart rows
    → All (λ s. is_among (keep_if p rows) s ≡ true → p s ≡ true) rows
kept_by_id p [] h = tt
kept_by_id p (r ∷ rows) h = kept_by_id-step p r rows (p r) refl h.0 (kept_by_id p rows h.1)

set_processing-same : (now : Time) (r : Row) → SameIdentity r (set_processing now r)
unfolding set_processing
set_processing-same now r = ground arith

taken :
    (max_attempts : ℕ) (x : Status) (n : ℕ)
    → is_waiting x ≡ true
    → Move max_attempts x n processing n
taken max_attempts pending n h = take n
taken max_attempts scheduled n h = take_scheduled n
taken max_attempts _ n h = absurd (ground arith)

waiting-IsLawful :
    (p : Row → Bool) (now : Time) (r : Row)
    → (p r ≡ true → is_waiting r.status ≡ true)
    → IsLawful p (set_processing now) r
unfolding set_processing
waiting-IsLawful p now r h = record {
  attempts = omega arith;
  moves = λ e. Moves-one r.max_attempts _ _ _ _ (taken r.max_attempts r.status r.attempts (h e));
  settled = λ e closed. ground (arith, h e);
  within = λ e k. ground (arith, h e);
}

module _ (locked : String → Bool) (channel : Channel) (now updated : Time) (limit : ℕ) where
  chosen_by_id :
      (rows : List Row) (r : Row)
      → (is_among (keep_if (claimable locked channel now) rows) r ≡ true
          → claimable locked channel now r ≡ true)
      → is_among (candidates locked channel now limit rows) r ≡ true
      → claimable locked channel now r ≡ true
  unfolding candidates
  chosen_by_id rows r h e =
      let kept = keep_if (claimable locked channel now) rows in
      h (
        sym (exists-sort_by claims_before (λ c. str_eq c.id r.id) kept)
        ∙ exists_of_take (λ c. str_eq c.id r.id) limit (sort_by claims_before kept) e)

  claimed_pass :
      (rows : List Row)
      → Pairs IdsApart rows
      → All
          (λ r.
            is_among (candidates locked channel now limit rows) r ≡ true
            → claimable locked channel now r ≡ true)
          rows
  claimed_pass rows h =
      All-imp _ _ rows (chosen_by_id rows) (kept_by_id (claimable locked channel now) rows h)

  -- Of rows with distinct ids, each one that a claim takes is of the channel asked for, pending or
  -- scheduled, has no time that is still to come, and is held by no other transaction.
  pub claimed-IsClaimable :
      (rows : List Row)
      → Pairs IdsApart rows
      → All
          (λ r.
            is_among (candidates locked channel now limit rows) r ≡ true
            → IsClaimable locked channel now r)
          rows
  claimed-IsClaimable rows h =
      All-imp _ _ rows (λ r pass e. (claimable_iff locked channel now r).0 (pass e))
        (claimed_pass rows h)

  claimable-waiting : (r : Row) → claimable locked channel now r ≡ true → is_waiting r.status ≡ true
  unfolding claimable
  claimable-waiting r h = ground arith

  pub claim_rows-Lives :
      (db : Database) → Lives db (claim_rows locked channel now updated limit db).1
  unfolding claim_rows
  claim_rows-Lives db = update_rows-Lives _ _ (set_processing-same updated) db (λ h.
      All-imp _
        (IsLawful (is_among (candidates locked channel now limit db.notifications))
          (set_processing updated))
        db.notifications (λ r c. waiting-IsLawful _ updated r (λ e. claimable-waiting r (c e)))
        (claimed_pass db.notifications h.ids))
