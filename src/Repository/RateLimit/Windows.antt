-- ===== src/Repository/RateLimit/Windows.antt =====
-- internal/repository/postgres.go: `AcquireRateLimitSlots` and the tables beside its windows.
use insider_one.Prelude.{ℕ, ◌-◌, ◌==◌, ◌||◌, String, Bool-cases, inl, inr, leb, ltb, if◌then◌else◌}
use insider_one.Repository.RateLimit.{
  truncate_second, max_integer, upsert_statement, upsert_window, use_slots, take_slots, no_slots,
  acquire_tx, acquire_rate_limit_slots,
}
use insider_one.Domain.{Time}
use insider_one.Repository.Schema.{Database}
use insider_one.Repository.Lifecycle.{Lives}
use insider_one.Repository.Lifecycle.Statements.{lives, windows-Lives}
use insider_one.Runtime.{Env, pure, ◌>>=◌, commit}
use insider_one.Runtime.Keeps.{
  IsPreorder, Keeps, KeepsTx, Keeps-pure, Keeps-if, Keeps-begin_tx, KeepsTx-commit, KeepsTx-tx_exec,
  KeepsTx-then, KeepsTx-clock, KeepsTx-if,
}

-- What upserting a window of a whole second and using slots respect, the method respects.
module _ (R : Database → Database → Type 0) (preorder : IsPreorder R) (env : Env)
    (upserts : (key : String) (now : Time) (limit : ℕ) (db : Database)
      → R db (record db {
        windows = upsert_window key (env.stored (truncate_second now)) limit db.windows;
      }))
    (uses : (key : String) (start : Time) (n : ℕ) (db : Database)
      → R db (record db { windows = use_slots key start n db.windows })) where
  no_slots-respects : KeepsTx R (no_slots env)
  unfolding no_slots
  no_slots-respects =
      KeepsTx-then R preorder (KeepsTx-commit R preorder env) (λ _. Keeps-pure R preorder 0)

  take_slots-respects : (key : String) (start n : ℕ) → KeepsTx R (take_slots env key start n)
  unfolding take_slots
  take_slots-respects key start n =
      KeepsTx-tx_exec R preorder env _ (λ _ tx. commit env tx >>= λ _. pure n) (uses key start n)
        (λ _.
          KeepsTx-then R preorder (KeepsTx-commit R preorder env) (λ _. Keeps-pure R preorder n))

  upsert_statement-respects :
      (key : String) (now : Time) (limit : ℕ) (db : Database)
      → R db (upsert_statement env key (env.stored (truncate_second now)) limit db).1
  unfolding upsert_statement
  upsert_statement-respects key now limit db = elim (Bool-cases (leb limit max_integer)) [
    | inl e ↦ rw e (upserts key now limit db)
    | inr e ↦ rw e (preorder.refl_at db)
  ]

  acquire_tx-respects :
      (key : String) (limit requested : ℕ) → Keeps R (acquire_tx env key limit requested)
  unfolding acquire_tx
  acquire_tx-respects key limit requested = Keeps-begin_tx R preorder env _ (
      KeepsTx-clock R preorder env _ (λ now.
        let start = env.stored (truncate_second now) in
        KeepsTx-tx_exec R preorder env _ _ (upsert_statement-respects key now limit) (λ _.
          KeepsTx-tx_exec R preorder env _ _ (λ db. preorder.refl_at db)
            (λ used.
              KeepsTx-if R preorder env (leb limit used) (no_slots env)
                (take_slots env key start
                  (if ltb (limit - used) requested then limit - used else requested))
                (no_slots-respects) (take_slots-respects key start _)))))

  pub acquire_rate_limit_slots-respects :
      (key : String) (limit requested : ℕ)
      → Keeps R (acquire_rate_limit_slots env key limit requested)
  unfolding acquire_rate_limit_slots
  acquire_rate_limit_slots-respects key limit requested =
      Keeps-if R preorder (limit == 0 || requested == 0) (Keeps-pure R preorder 0)
        (acquire_tx-respects key limit requested)

pub acquire_rate_limit_slots-Lives :
    (env : Env) (key : String) (limit requested : ℕ)
    → Keeps Lives (acquire_rate_limit_slots env key limit requested)
acquire_rate_limit_slots-Lives env =
    acquire_rate_limit_slots-respects Lives lives env (λ key now limit db. windows-Lives db _)
      (λ key start n db. windows-Lives db _)
