-- ===== src/Repository/RateLimit/Quota.antt =====
-- internal/repository/postgres.go: `AcquireRateLimitSlots`, its counters and its limit.
mod Slots
pub use insider_one.Repository.RateLimit.Quota.Slots.{IsWithinQuota, WindowsApart}
use insider_one.Repository.RateLimit.Quota.Slots.{
  used_under, upsert_window-IsWithinQuota, used_under-upsert_window, charged-IsWithinQuota,
}
use insider_one.Prelude.{
  ℕ, ◌+◌, ◌-◌, ◌≤◌, ◌≡◌, refl, String, true, false, ◌||◌, Option, none, some, List, [], ◌∷◌, ◌++◌,
  map, arith, find, exists, All, Pairs, All-append, All-map, All-of-exists, Pairs-snoc, Pairs-map,
  leb, ltb, ◌==◌, str_eq, eq_iff, if◌then◌else◌, Bool-cases, inl, inr,
}
use insider_one.Domain.{Time}
use insider_one.Repository.Schema.{WindowRow, Database}
use insider_one.Repository.RateLimit.{
  max_integer, upsert_statement, is_window, upsert_window, use_slots, used_of, truncate_second,
  take_slots, no_slots, acquire_tx, acquire_rate_limit_slots,
}
use insider_one.Runtime.{Env, World, ok, Fallible}
use insider_one.Runtime.Transaction.{
  IsGood, InTx, InTx-begin_tx, InTx-clock, InTx-tx_exec, InTx-commit,
}

-- What a granted request has done to the tables.
abbrev pub Granted : String → (requested : ℕ) → Database → ℕ → Database → Type 0
Granted key requested before n after =
    (n ≤ requested)
    × (used_under key after.windows ≡ used_under key before.windows + n)
    × (after.notifications ≡ before.notifications)

module _ (env : Env) (key : String) (limit requested : ℕ) (w : World)
    (within : IsWithinQuota limit w.db.windows) where
  abbrev Good : Database → Type 0
  Good db = IsWithinQuota limit db.windows

  abbrev Post : ℕ → Database → Type 0
  Post = Granted key requested w.db

  -- The view before the slots are taken.
  abbrev Ready : Database → Type 0
  Ready tx = Good tx × Post 0 tx

  -- The view with the row that was read.
  abbrev Read : Time → ℕ → Database → Type 0
  Read start used tx =
      Ready tx
      × (r : WindowRow) × (find (is_window key start) tx.windows ≡ some r)
      × (r.used_count ≡ used)

  abbrev Rest : (Database → Type 0) → (Database → Fallible ℕ) → Type 0
  Rest P k = InTx w.db Good within env P Post k

  Read-Ready :
      (start : Time) (used : ℕ) (tx : Database)
      → Ready tx
      → used_of (find (is_window key start) tx.windows) env.no_rows ≡ ok used
      → Read start used tx
  Read-Ready start used tx h e = go (find (is_window key start) tx.windows) refl e
    where
      go :
          (o : Option WindowRow)
          → find (is_window key start) tx.windows ≡ o
          → used_of o env.no_rows ≡ ok used
          → Read start used tx
      go none p q = cc
      go (some r) p q = (h, r, p, cc)

  take-Rest :
      (start : Time) (used n : ℕ)
      → used + n ≤ limit
      → n ≤ requested
      → Rest (Read start used) (take_slots env key start n)
  unfolding take_slots
  take-Rest start used n fits few =
      InTx-tx_exec w.db Good within env Post (Read start used) (λ _ tx. Good tx × Post n tx) _ _
        (λ tx b h e.
          let (ready, r, at, was) = h in
          let (good, total) =
            charged-IsWithinQuota key start n limit tx.windows r ready.0 at (omega arith) in
          (good, (few, omega arith, ready.1.2)))
        (λ _. InTx-commit w.db Good within env Post _ n (λ tx h. h))

  none-Rest : (start : Time) (used : ℕ) → Rest (Read start used) (no_slots env)
  unfolding no_slots
  none-Rest start used = InTx-commit w.db Good within env Post _ 0 (λ tx h. h.0)

  branch-Rest :
      (start : Time) (used : ℕ)
      → Rest (Read start used) (λ tx.
        if leb limit used
        then no_slots env tx
        else take_slots env key start
            (if ltb (limit - used) requested then limit - used else requested)
            tx)
  branch-Rest start used = elim (Bool-cases (leb limit used)) [
    | inl e ↦ rw e (none-Rest start used)
    | inr e ↦ rw e (take-Rest start used _ (ground arith) (ground arith))
  ]

  upserted-Ready : (start : Time) → Ready (upsert_statement env key start limit w.db).1
  unfolding upsert_statement
  upserted-Ready start = elim (Bool-cases (leb limit max_integer)) [
    | inl e ↦ rw e (
      upsert_window-IsWithinQuota key start limit limit w.db.windows within,
      (omega arith, omega (arith, used_under-upsert_window key start limit key w.db.windows), refl),
    )
    | inr e ↦ rw e (within, (omega arith, omega arith, refl))
  ]

  -- A transaction that returns keeps every window within the limit, hands out no more than was
  -- asked for, and counts exactly what it hands out.
  acquire_tx-IsGood : IsGood Good Post (acquire_tx env key limit requested w)
  unfolding acquire_tx
  acquire_tx-IsGood =
      InTx-begin_tx w.db Good within env Post _
        (InTx-clock w.db Good within env Post (λ tx. tx ≡ w.db) _
          (λ now.
            let start = env.stored (truncate_second now) in
            InTx-tx_exec w.db Good within env Post (λ tx. tx ≡ w.db) (λ _ tx. Ready tx) _ _
              (λ tx b e _. rw e (upserted-Ready start))
              (λ _.
                InTx-tx_exec w.db Good within env Post Ready (Read start) _ _
                  (λ tx used. Read-Ready start used tx) (branch-Rest start))))
        w refl

-- Where every window is within `limit`, a request for slots under that limit leaves every window
-- within it, whatever faults the connection has; and if it returns `n`, then `n` is at most what
-- was asked for, the slots counted under the key have grown by exactly `n`, and the notifications
-- are untouched.
pub acquire_rate_limit_slots-within :
    (env : Env) (key : String) (limit requested : ℕ) (w : World)
    → IsWithinQuota limit w.db.windows
    → let (r, w') = acquire_rate_limit_slots env key limit requested w in
      IsWithinQuota limit w'.db.windows × ((n : ℕ) → r ≡ ok n → Granted key requested w.db n w'.db)
unfolding acquire_rate_limit_slots
acquire_rate_limit_slots-within env key limit requested w h =
    elim (Bool-cases (limit == 0 || requested == 0)) [
      | inl e ↦ rw e (h, λ n p. ground arith)
      | inr e ↦ rw e (acquire_tx-IsGood env key limit requested w h)
    ]
