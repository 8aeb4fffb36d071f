-- ===== src/Worker.antt =====
-- internal/worker/manager.go: the manager and its workers. Each worker is a goroutine that waits
-- for its ticker or for the end of the context.
pub mod Loop
pub mod Started
use insider_one.Prelude.{ℕ, zero, suc, ◌*◌, String, List, [], ◌∷◌, ◌++◌, if◌then◌else◌}
use insider_one.Prelude.Int.{ℤ, pos, ltb_ℤ, pos_part}
use insider_one.Domain.{Channel, Duration, second, millisecond}

pub record Manager : Type 0 where
  pub channels : List Channel
  pub concurrency : ℕ
  pub tick_interval : Duration
  pub job_timeout : Duration

-- `WithConcurrency`, the only option.
unfoldable pub with_concurrency : ℤ → Manager → Manager
with_concurrency concurrency m =
    if ltb_ℤ (pos 0) concurrency then record m { concurrency = pos_part concurrency } else m

abbrev with_all : List ℤ → Manager → Manager
with_all [] m = m
with_all (o ∷ os) m = with_all os (with_concurrency o m)

-- `New`, with the concurrencies of its options.
unfoldable pub new : List ℤ → Manager
unfolding with_concurrency
new opts = with_all opts (record {
  channels = "sms" ∷ "email" ∷ "push" ∷ [];
  concurrency = 1;
  tick_interval = 10 * millisecond;
  job_timeout = 5 * second;
})

-- The arguments of `runChannel`.
pub record Worker : Type 0 where
  pub channel : Channel
  pub worker_id : ℕ

-- The inner loop of `Start`, which runs from `id` on for the rounds left.
unfoldable pub workers_from : Channel → ℕ → ℕ → List Worker
workers_from channel id zero = []
workers_from channel id (suc rounds) =
    record { channel = channel; worker_id = id } ∷ workers_from channel (suc id) rounds

unfoldable pub workers_of : ℕ → List Channel → List Worker
unfolding workers_from
workers_of concurrency [] = []
workers_of concurrency (channel ∷ channels) =
    workers_from channel 0 concurrency ++ workers_of concurrency channels

-- `Start`: the goroutines that it makes.
unfoldable pub start : Manager → List Worker
unfolding workers_of
start m = workers_of m.concurrency m.channels
