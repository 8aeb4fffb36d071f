-- ===== src/Service/Rules/Delays.antt =====
-- internal/service/service.go: the delays before a retry.
use Prim.Native.Nat.{◌^◌}
use insider_one.Prelude.{
  ℕ, zero, suc, ◌*◌, ◌≤◌, ◌<◌, ◌≡◌, refl, Option, none, some, List, [], ◌∷◌, arith, ltb,
  if◌then◌else◌,
}
use insider_one.Domain.{second}
use insider_one.Service.Rules.{backoff_delay, jittered}

-- The byte that was read, if any, is a byte.
abbrev pub IsByte : Option (List ℕ) → Type 0
IsByte none = Unit
IsByte (some []) = Unit
IsByte (some (byte ∷ rest)) = byte < 256

-- The delays, one by one.
backoff_table :
    (n : ℕ)
    → (backoff_delay 0 ≡ 2 * second)
      × (backoff_delay 1 ≡ 4 * second)
      × (backoff_delay 2 ≡ 8 * second)
      × (backoff_delay 3 ≡ 16 * second)
      × (backoff_delay 4 ≡ 32 * second)
      × (backoff_delay (suc (suc (suc (suc (suc n))))) ≡ 64 * second)
unfolding backoff_delay
backoff_table n = (refl, refl, refl, refl, refl, capped n)
  where
    capped :
        (n : ℕ)
        → 2
            * second
            * 2
              ^ (if ltb 5 (suc (suc (suc (suc (suc n))))) then 5 else suc (suc (suc (suc (suc n)))))
          ≡ 64 * second
    capped zero = refl
    capped (suc m) = ground arith

-- The delay doubles with each attempt up to the fifth, and stays at 64 s from then on.
pub backoff_delay_lem :
    (n : ℕ)
    → (n < 5 → backoff_delay (suc n) ≡ 2 * backoff_delay n)
      × (5 ≤ n → backoff_delay n ≡ 64 * second)
backoff_delay_lem zero = (λ h. omega (arith, backoff_table 0), λ h. absurd (omega arith))
backoff_delay_lem (suc zero) = (λ h. omega (arith, backoff_table 0), λ h. absurd (omega arith))
backoff_delay_lem (suc (suc zero)) =
    (λ h. omega (arith, backoff_table 0), λ h. absurd (omega arith))
backoff_delay_lem (suc (suc (suc zero))) =
    (λ h. omega (arith, backoff_table 0), λ h. absurd (omega arith))
backoff_delay_lem (suc (suc (suc (suc zero)))) =
    (λ h. omega (arith, backoff_table 0), λ h. absurd (omega arith))
backoff_delay_lem (suc (suc (suc (suc (suc n))))) =
    (λ h. absurd (omega arith), λ h. omega (arith, backoff_table n))

backoff_delay_range : (n : ℕ) → (2 * second ≤ backoff_delay n) × (backoff_delay n ≤ 64 * second)
backoff_delay_range zero = omega (arith, backoff_table 0)
backoff_delay_range (suc zero) = omega (arith, backoff_table 0)
backoff_delay_range (suc (suc zero)) = omega (arith, backoff_table 0)
backoff_delay_range (suc (suc (suc zero))) = omega (arith, backoff_table 0)
backoff_delay_range (suc (suc (suc (suc zero)))) = omega (arith, backoff_table 0)
backoff_delay_range (suc (suc (suc (suc (suc n))))) = omega (arith, backoff_table n)

-- The product that the jitter is computed from.
jitter_product : (byte delay : ℕ) → byte < 256 → byte * delay ≤ 255 * delay
jitter_product byte delay h = grind arith

-- With any byte or none, the delay before a retry is at least the plain delay and less than a
-- quarter above it, it lies between 2 s and 80 s, and the product that the jitter divides stays
-- below 2 ^ 63, so that no `time.Duration` wraps.
pub jittered_bounds :
    (attempts : ℕ) (bytes : Option (List ℕ))
    → IsByte bytes
    → let plain = backoff_delay attempts in
      let delay = jittered plain bytes in
      (plain ≤ delay)
      × (4 * delay < 5 * plain)
      × (2 * second ≤ delay)
      × (delay < 80 * second)
      × (255 * plain < 9_223_372_036_854_775_808)
unfolding jittered
jittered_bounds attempts none h = omega (arith, backoff_delay_range attempts)
jittered_bounds attempts (some []) h = omega (arith, backoff_delay_range attempts)
jittered_bounds attempts (some (byte ∷ rest)) h =
    omega (arith, backoff_delay_range attempts, jitter_product byte (backoff_delay attempts) h)
