-- ===== src/Repository/Lifecycle/InFlight.antt =====
-- The rows that a worker has claimed and not yet marked: `ClaimDue` makes them, and each Mark
-- method takes one of them out.
use insider_one.Prelude.{
  ◌≡◌, refl, ◌≢◌, Bool, true, List, [], ◌∷◌, arith, All, Pairs, All-imp, map, keep_if, sym, ◌∙◌, ap,
  Bool-cases, inl, inr, eq_iff,
}
use insider_one.Domain.{Time, processing, Notification}
use insider_one.Repository.Schema.{Row, scan_notification}
use insider_one.Repository.Write.{has_id, update_rows}
use insider_one.Repository.Claim.{is_among, set_processing}
use insider_one.Repository.Sort.Laws.{All-keep_if}
use insider_one.Repository.Lifecycle.{SameIdentity, IdsApart}

-- The row of `n`, wherever it stands, is as it was when `n` was claimed.
abbrev pub IsClaimed : Notification → Row → Type 0
IsClaimed n r =
    r.id ≡ n.id
    → (r.status ≡ processing) × (r.attempts ≡ n.attempts) × (r.max_attempts ≡ n.max_attempts)

abbrev pub InFlight : List Notification → List Row → Type 0
InFlight ns rows = All (λ n. All (IsClaimed n) rows) ns

abbrev pub DistinctIds : List Notification → Type 0
DistinctIds = Pairs (λ n m. n.id ≢ m.id)

-- An update of the row of `n` leaves the claims of the others alone.
module _ (n : Notification) (f : Row → Row) (same : (r : Row) → SameIdentity r (f r)) where
  mark-IsClaimed :
      (m : Notification) (rows : List Row)
      → n.id ≢ m.id
      → All (IsClaimed m) rows
      → All (IsClaimed m) (update_rows (has_id n.id) f rows)
  mark-IsClaimed m [] apart h = tt
  mark-IsClaimed m (r ∷ rows) apart h = (
    elim (Bool-cases (has_id n.id r)) [
      | inl e ↦ rw e (λ p. absurd (apart (sym ((eq_iff r.id n.id).0 e) ∙ sym (same r).id ∙ p)))
      | inr e ↦ rw e h.0
    ],
    mark-IsClaimed m rows apart h.1,
  )

  pub mark-InFlight :
      (ns : List Notification) (rows : List Row)
      → All (λ m. n.id ≢ m.id) ns
      → InFlight ns rows
      → InFlight ns (update_rows (has_id n.id) f rows)
  mark-InFlight [] rows apart h = tt
  mark-InFlight (m ∷ ns) rows apart h =
      (mark-IsClaimed m rows apart.0 h.0, mark-InFlight ns rows apart.1 h.1)

-- Rows with the id of `k` are `k`.
abbrev IsTheRow : Row → Row → Type 0
IsTheRow k r = r.id ≡ k.id → r ≡ k

apart-IsTheRow : (k : Row) (rows : List Row) → All (IdsApart k) rows → All (IsTheRow k) rows
apart-IsTheRow k rows h = All-imp (IdsApart k) (IsTheRow k) rows (λ r a e. absurd (a (sym e))) h

rows-IsTheRow-cons :
    (r : Row) (rows ks : List Row)
    → All (λ k. IdsApart r k) ks
    → All (λ k. All (IsTheRow k) rows) ks
    → All (λ k. All (IsTheRow k) (r ∷ rows)) ks
rows-IsTheRow-cons r rows [] a h = tt
rows-IsTheRow-cons r rows (k ∷ ks) a h =
    (((λ e. absurd (a.0 e)), h.0), rows-IsTheRow-cons r rows ks a.1 h.1)

rows-IsTheRow : (rows : List Row) → Pairs IdsApart rows → All (λ k. All (IsTheRow k) rows) rows
rows-IsTheRow [] h = tt
rows-IsTheRow (r ∷ rows) h = (
  ((λ _. refl), apart-IsTheRow r rows h.0),
  rows-IsTheRow-cons r rows rows h.0 (rows-IsTheRow rows h.1),
)

kept-InFlight :
    (rows ks : List Row)
    → All (λ k. (k.status ≡ processing) × All (IsTheRow k) rows) ks
    → InFlight (map scan_notification ks) rows
unfolding scan_notification
kept-InFlight rows [] h = tt
kept-InFlight rows (k ∷ ks) h = (
  All-imp (IsTheRow k) (IsClaimed (scan_notification k)) rows
      (λ r only e.
        let q = only e in
        (
          ap (λ (x : Row). x.status) q ∙ h.0.0,
          ap (λ (x : Row). x.attempts) q,
          ap (λ (x : Row). x.max_attempts) q,
        ))
      h.0.1,
  kept-InFlight rows ks h.1,
)

scan-apart :
    (r : Row) (ks : List Row)
    → All (IdsApart r) ks
    → All (λ m. r.id ≢ m.id) (map scan_notification ks)
unfolding scan_notification
scan-apart r [] h = tt
scan-apart r (k ∷ ks) h = (h.0, scan-apart r ks h.1)

kept-apart :
    (p : Row → Bool) (r : Row) (rows : List Row)
    → All (IdsApart r) rows
    → All (IdsApart r) (keep_if p rows)
kept-apart p r rows h =
    All-imp (λ s. (p s ≡ true) × IdsApart r s) (IdsApart r) (keep_if p rows) (λ s k. k.1)
      (All-keep_if (IdsApart r) p rows h)

pub scanned-DistinctIds :
    (p : Row → Bool) (rows : List Row)
    → Pairs IdsApart rows
    → DistinctIds (map scan_notification (keep_if p rows))
unfolding scan_notification
scanned-DistinctIds p [] h = tt
scanned-DistinctIds p (r ∷ rows) h = elim (Bool-cases (p r)) [
  | inl e ↦
      rw e (scan-apart r (keep_if p rows) (kept-apart p r rows h.0), scanned-DistinctIds p rows h.1)
  | inr e ↦ rw e (scanned-DistinctIds p rows h.1)
]

-- After the update of the claimed rows, those among them are processing.
pub updated-processing :
    (chosen rows : List Row) (at : Time)
    → All
        (λ r. is_among chosen r ≡ true → r.status ≡ processing)
        (update_rows (is_among chosen) (set_processing at) rows)
unfolding set_processing
updated-processing chosen [] at = tt
updated-processing chosen (r ∷ rows) at = (ground arith, updated-processing chosen rows at)

both :
    (rows ks : List Row)
    → All (λ k. k.status ≡ processing) ks
    → All (λ k. All (IsTheRow k) rows) ks
    → All (λ k. (k.status ≡ processing) × All (IsTheRow k) rows) ks
both rows [] h g = tt
both rows (k ∷ ks) h g = ((h.0, g.0), both rows ks h.1 g.1)

-- What the claiming statement returns is in flight.
pub claimed-InFlight :
    (chosen rows : List Row) (at : Time)
    → let later = update_rows (is_among chosen) (set_processing at) rows in
      Pairs IdsApart later
      → InFlight (map scan_notification (keep_if (is_among chosen) later)) later
claimed-InFlight chosen rows at h =
    let later = update_rows (is_among chosen) (set_processing at) rows in
    kept-InFlight later (keep_if (is_among chosen) later) (
      both later (keep_if (is_among chosen) later)
        (All-imp _ (λ k. k.status ≡ processing) (keep_if (is_among chosen) later) (λ k q. q.1 q.0)
          (All-keep_if (λ r. is_among chosen r ≡ true → r.status ≡ processing) (is_among chosen)
            later (updated-processing chosen rows at)))
        (All-imp _ (λ k. All (IsTheRow k) later) (keep_if (is_among chosen) later) (λ k q. q.1)
          (All-keep_if (λ k. All (IsTheRow k) later) (is_among chosen) later
            (rows-IsTheRow later h))))
