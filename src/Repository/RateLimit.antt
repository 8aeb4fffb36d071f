-- ===== src/Repository/RateLimit.antt =====
-- internal/repository/postgres.go: `AcquireRateLimitSlots`, a counter for each key and second.
-- `limit` and `requested` are `int`s that the service keeps positive, so they are natural numbers
-- here and `limit - used <= 0` is `limit ≤ used`.
pub mod Quota
pub mod Windows
pub mod Kept
pub mod Answers
pub mod Seconds
use insider_one.Prelude.{
  ℕ, ◌+◌, ◌-◌, ◌%◌, String, Bool, ◌&&◌, ◌||◌, Option, none, some, List, [], ◌∷◌, ◌++◌, map, find,
  exists, ltb, leb, ◌==◌, str_eq, if◌then◌else◌,
}
use insider_one.Domain.{Time, second}
use insider_one.Repository.Schema.{WindowRow, Database}
use insider_one.Runtime.{
  Result, ok, err, Env, Fallible, pure, ◌>>=◌, clock, tx_exec, begin_tx, commit,
}

-- `t.Truncate(time.Second)`
unfoldable pub truncate_second : Time → Time
truncate_second t = t - t % second

-- The primary key of a window.
abbrev pub is_window : String → Time → WindowRow → Bool
is_window key start r = str_eq r.key key && r.window_start == start

-- `INSERT … ON CONFLICT (key, window_start) DO UPDATE SET limit_count = EXCLUDED.limit_count`
unfoldable pub upsert_window : String → Time → ℕ → List WindowRow → List WindowRow
upsert_window key start limit ws =
    if exists (is_window key start) ws
    then map (λ r. if is_window key start r then record r { limit_count = limit } else r) ws
    else ws ++ record { key = key; window_start = start; limit_count = limit; used_count = 0 } ∷ []

-- The largest value of an INTEGER, which `limit_count` and `used_count` are.
abbrev pub max_integer : ℕ
max_integer = 2_147_483_647

-- `UPDATE … SET used_count = used_count + $1`, whose sum is at most the limit, so in range.
unfoldable pub use_slots : String → Time → ℕ → List WindowRow → List WindowRow
use_slots key start n ws =
    map (λ r. if is_window key start r then record r { used_count = r.used_count + n } else r) ws

abbrev used_of : Option WindowRow → (no_rows : String) → Result ℕ
used_of none no_rows = err no_rows
used_of (some r) no_rows = ok r.used_count

module _ (env : Env) where
  -- The upsert as a statement, which PostgreSQL refuses for a limit that is no INTEGER.
  unfoldable pub upsert_statement : String → Time → ℕ → Database → Result (Unit {0}) × Database
  upsert_statement key start limit db =
      if leb limit max_integer
      then (ok tt, record db { windows = upsert_window key start limit db.windows })
      else (err env.out_of_range, db)

  -- The branch with slots left.
  take_slots : String → Time → ℕ → Database → Fallible ℕ
  take_slots key start acquired tx = do
    (done, tx') ←
        tx_exec env (λ db. (ok tt, record db { windows = use_slots key start acquired db.windows }))
          tx
    committed ← commit env tx'
    pure acquired

  no_slots : Database → Fallible ℕ
  no_slots tx = do committed ← commit env tx; pure 0

  acquire_tx : String → ℕ → ℕ → Fallible ℕ
  unfolding take_slots no_slots
  acquire_tx key limit requested = do
    tx ← begin_tx env
    now ← clock env
    let start = env.stored (truncate_second now)
    (done, tx₁) ← tx_exec env (upsert_statement key start limit) tx
    (used, tx₂) ←
        tx_exec env (λ db. (used_of (find (is_window key start) db.windows) env.no_rows, db)) tx₁
    if leb limit used
        then no_slots tx₂
        else take_slots key start (if ltb (limit - used) requested then limit - used else requested)
            tx₂

  unfoldable pub acquire_rate_limit_slots : String → ℕ → ℕ → Fallible ℕ
  unfolding acquire_tx
  acquire_rate_limit_slots key limit requested =
      if limit == 0 || requested == 0 then pure 0 else acquire_tx key limit requested
