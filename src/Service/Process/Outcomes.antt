-- ===== src/Service/Process/Outcomes.antt =====
-- internal/service/service.go: the tests of `ProcessChannel` on an answer and on the attempts made.
use insider_one.Prelude.{ℕ, ◌+◌, ◌≤◌, ◌<◌, ◌≡◌, ◌≢◌, ◌↔◌, ◌⊎◌, none, arith}
use insider_one.Provider.{SendResult}
use insider_one.Service.Rules.{should_retry_delivery}
use insider_one.Service.Process.{accepted, retry, exhausted, rejected, outcome}

-- An answer that may be better next time: none came, or its code is 408, 429 or from 500 on.
abbrev pub IsTransient : SendResult → Type 0
IsTransient r =
    (r.error ≢ none)
    ⊎ ((r.error ≡ none) × ((r.status_code ≡ 408) ⊎ (r.status_code ≡ 429) ⊎ (500 ≤ r.status_code)))

-- With an answer and the attempts before it, the attempt is accepted exactly where there is no
-- error and the code is from 200 to 299; it is tried again exactly where the answer is transient
-- and this attempt was not the last allowed, and dead-lettered exactly where it is transient and
-- this attempt was the last; and every other answer, one without an error and with another code,
-- fails the notification for good.
pub outcome_iff :
    (r : SendResult) (attempts max_attempts : ℕ)
    → let o = outcome r attempts max_attempts in
      ((o ≡ accepted) ↔ ((r.error ≡ none) × (200 ≤ r.status_code) × (r.status_code < 300)))
      × ((o ≡ retry) ↔ (IsTransient r × (attempts + 1 < max_attempts)))
      × ((o ≡ exhausted) ↔ (IsTransient r × (max_attempts ≤ attempts + 1)))
      × ((o ≡ rejected) ↔ (
          (r.error ≡ none)
          × ((r.status_code < 200) ⊎ (300 ≤ r.status_code))
          × (r.status_code ≢ 408)
          × (r.status_code ≢ 429)
          × (r.status_code < 500)))
unfolding outcome should_retry_delivery
outcome_iff r attempts max_attempts = ground arith
