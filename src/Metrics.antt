-- ===== src/Metrics.antt =====
-- internal/observability/metrics.go. A Go map from channels to numbers is a function, 0 at a key
-- that is missing. An OpenTelemetry instrument is an `Option`, `none` where the Go pointer is nil,
-- of what has been recorded through it: the sum for a counter, the samples for the histogram. The
-- mutex makes each operation one step.
pub mod Counters
use insider_one.Prelude.{
  ℕ, ◌+◌, ◌/◌, String, Option, none, some, List, [], ◌∷◌, ltb, ◌==◌, str_eq, if◌then◌else◌,
}
use insider_one.Prelude.Int.{ℤ, pos, sub_ℕ, ◌+ℤ◌}
use insider_one.Domain.{Channel, Duration, millisecond}

-- `m[key] = value`.
abbrev pub update {ℓ} : {V : Type ℓ} → (Channel → V) → Channel → V → Channel → V
update m key value other = if str_eq key other then value else m other

pub record Sample : Type 0 where
  pub channel : Channel
  pub status : String
  pub latency_ms : ℕ

pub record Metrics : Type 0 where
  pub queue_depth : Channel → ℕ
  pub success_count : Channel → ℕ
  pub failure_count : Channel → ℕ
  pub latency_sum : Channel → Duration
  pub latency_count : Channel → ℕ
  pub queue_depth_ctr : Option (Channel → ℤ)
  pub success_ctr : Option (Channel → ℕ)
  pub failure_ctr : Option (Channel → ℕ)
  pub latency_hist : Option (List Sample)

-- `NewMetrics`, where every instrument could be made.
abbrev pub new : Metrics
new = record {
  queue_depth = λ _. 0;
  success_count = λ _. 0;
  failure_count = λ _. 0;
  latency_sum = λ _. 0;
  latency_count = λ _. 0;
  queue_depth_ctr = some (λ _. pos 0);
  success_ctr = some (λ _. 0);
  failure_ctr = some (λ _. 0);
  latency_hist = some [];
}

-- `ctr.Add(…)` behind its nil test.
abbrev add_ℤ : Option (Channel → ℤ) → Channel → ℤ → Option (Channel → ℤ)
add_ℤ none channel delta = none
add_ℤ (some total) channel delta = some (update total channel (total channel +ℤ delta))

abbrev add_one : Option (Channel → ℕ) → Channel → Option (Channel → ℕ)
add_one none channel = none
add_one (some total) channel = some (update total channel (total channel + 1))

abbrev record_sample : Option (List Sample) → Sample → Option (List Sample)
record_sample none s = none
record_sample (some samples) s = some (s ∷ samples)

unfoldable pub set_queue_depth : Channel → ℕ → Metrics → Metrics
set_queue_depth channel depth m =
    let previous = m.queue_depth channel in
    record m {
      queue_depth = update m.queue_depth channel depth;
      queue_depth_ctr =
          if depth == previous
          then m.queue_depth_ctr
          else add_ℤ m.queue_depth_ctr channel (sub_ℕ depth previous);
    }

unfoldable pub inc_success : Channel → Duration → Metrics → Metrics
inc_success channel latency m = record m {
  success_count = update m.success_count channel (m.success_count channel + 1);
  latency_sum = update m.latency_sum channel (m.latency_sum channel + latency);
  latency_count = update m.latency_count channel (m.latency_count channel + 1);
  success_ctr = add_one m.success_ctr channel;
  latency_hist =
      record_sample m.latency_hist
        (record { channel = channel; status = "success"; latency_ms = latency / millisecond });
}

unfoldable pub inc_failure : Channel → Duration → Metrics → Metrics
inc_failure channel latency m = record m {
  failure_count = update m.failure_count channel (m.failure_count channel + 1);
  latency_sum = update m.latency_sum channel (m.latency_sum channel + latency);
  latency_count = update m.latency_count channel (m.latency_count channel + 1);
  failure_ctr = add_one m.failure_ctr channel;
  latency_hist =
      record_sample m.latency_hist
        (record { channel = channel; status = "failure"; latency_ms = latency / millisecond });
}

pub record ChannelSnapshot : Type 0 where
  pub channel : Channel
  pub queue_depth : ℕ
  pub success_count : ℕ
  pub failure_count : ℕ
  pub average_latency_ms : ℕ

-- One round of the loop in `Snapshot`.
channel_snapshot : Metrics → Channel → ChannelSnapshot
channel_snapshot m channel =
    let count = m.latency_count channel in
    let avg : ℕ = if ltb 0 count then m.latency_sum channel / count else 0 in
    record {
      channel = channel;
      queue_depth = m.queue_depth channel;
      success_count = m.success_count channel;
      failure_count = m.failure_count channel;
      average_latency_ms = avg / millisecond;
    }

unfoldable pub snapshot : Metrics → List ChannelSnapshot
unfolding channel_snapshot
snapshot m = channel_snapshot m "sms" ∷ channel_snapshot m "email" ∷ channel_snapshot m "push" ∷ []
