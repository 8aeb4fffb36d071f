-- ===== src/Repository/RateLimit/Seconds.antt =====
-- internal/repository/postgres.go: `AcquireRateLimitSlots`, whose windows are the seconds.
use insider_one.Prelude.{
  ℕ, ◌+◌, ◌%◌, ◌≤◌, ◌≡◌, refl, String, Bool, true, ◌&&◌, List, [], ◌∷◌, arith, exists, All,
  All-append, All-map, Bool-cases, inl, inr, ltb, leb, str_eq, eq_iff, if◌then◌else◌,
}
use insider_one.Domain.{Time, second}
use insider_one.Repository.Schema.{WindowRow}
use insider_one.Repository.RateLimit.{
  is_window, upsert_window, use_slots, truncate_second, acquire_rate_limit_slots,
}
use insider_one.Repository.RateLimit.Kept.{KeepsWindows, kept}
use insider_one.Repository.RateLimit.Quota.{IsWithinQuota, WindowsApart}
use insider_one.Repository.RateLimit.Windows.{acquire_rate_limit_slots-respects}
use insider_one.Runtime.{Env}
use insider_one.Runtime.Keeps.{Keeps}

-- Every window starts with a whole second.
abbrev pub OnSeconds : List WindowRow → Type 0
OnSeconds ws = All (λ (r : WindowRow). r.window_start % second ≡ 0) ws

-- A TIMESTAMPTZ has microseconds, so it keeps a whole second.
abbrev pub StoresSeconds : Env → Type 0
StoresSeconds env = (t : Time) → t % second ≡ 0 → env.stored t ≡ t

-- Whether a window is of the key and starts in the second from `from` on.
abbrev is_within : String → Time → WindowRow → Bool
is_within key from r =
    str_eq r.key key && (leb from r.window_start && ltb r.window_start (from + second))

-- The slots in use under a key in the windows that start within one second from a time on.
abbrev pub used_in_second : String → Time → List WindowRow → ℕ
used_in_second key from [] = 0
used_in_second key from (r ∷ ws) =
    (if is_within key from r then r.used_count else 0) + used_in_second key from ws

truncated : (t : Time) → truncate_second t % second ≡ 0
unfolding truncate_second
truncated t = omega arith

module _ (key : String) (start : Time) (limit : ℕ) (aligned : start % second ≡ 0) where
  upsert_window-OnSeconds :
      (ws : List WindowRow) → OnSeconds ws → OnSeconds (upsert_window key start limit ws)
  unfolding upsert_window
  upsert_window-OnSeconds ws h = elim (Bool-cases (exists (is_window key start) ws)) [
    | inl e ↦ rw e (
        All-map (λ (r : WindowRow). r.window_start % second ≡ 0)
          (λ (r : WindowRow). r.window_start % second ≡ 0) _ ws (λ r p. ground arith) h)
    | inr e ↦
        rw e (All-append (λ (r : WindowRow). r.window_start % second ≡ 0) ws _ h (aligned, tt))
  ]

use_slots-OnSeconds :
    (key : String) (start : Time) (n : ℕ) (ws : List WindowRow)
    → OnSeconds ws
    → OnSeconds (use_slots key start n ws)
unfolding use_slots
use_slots-OnSeconds key start n ws h =
    All-map (λ (r : WindowRow). r.window_start % second ≡ 0)
      (λ (r : WindowRow). r.window_start % second ≡ 0) _ ws (λ r p. ground arith) h

pub acquire-OnSeconds :
    (env : Env)
    → StoresSeconds env
    → (key : String) (limit requested : ℕ)
    → Keeps (KeepsWindows OnSeconds) (acquire_rate_limit_slots env key limit requested)
acquire-OnSeconds env stores =
    acquire_rate_limit_slots-respects (KeepsWindows OnSeconds) (kept OnSeconds) env
      (λ key now limit db.
        upsert_window-OnSeconds key (env.stored (truncate_second now)) limit
          (rw (stores (truncate_second now) (truncated now)) (truncated now)) db.windows)
      (λ key start n db. use_slots-OnSeconds key start n db.windows)

-- Beside one window of the key in a second there is no other.
alone :
    (key : String) (from : Time) (r : WindowRow) (ws : List WindowRow)
    → is_within key from r ≡ true
    → r.window_start % second ≡ 0
    → All (WindowsApart r) ws
    → OnSeconds ws
    → used_in_second key from ws ≡ 0
alone key from r [] e a h o = refl
alone key from r (s ∷ ws) e a h o =
    let rest = alone key from r ws e a h.1 o.1 in ground (arith, eq_iff r.key key, eq_iff s.key key)

-- Whole-second windows that are apart and each within a limit have no second beyond it.
pub used_in_second-le :
    (key : String) (from : Time) (limit : ℕ) (ws : List WindowRow)
    → IsWithinQuota limit ws
    → OnSeconds ws
    → used_in_second key from ws ≤ limit
used_in_second-le key from limit [] h o = ground arith
used_in_second-le key from limit (r ∷ ws) h o = elim (Bool-cases (is_within key from r)) [
  | inl e ↦
      let none_else = alone key from r ws e o.0 h.apart.0 o.1 in
      let small = h.used.0 in rw e (omega arith)
  | inr e ↦
      let rest =
        used_in_second-le key from limit ws (record { apart = h.apart.1; used = h.used.1 }) o.1 in
      rw e (omega arith)
]
