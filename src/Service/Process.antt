-- ===== src/Service/Process.antt =====
-- internal/service/service.go: `ProcessChannel`, one cycle of a worker.
pub mod Flight
pub mod Cycle
pub mod Respects
pub mod Outcomes
pub mod Settled
pub mod Deliveries
pub mod Unclaimed
pub mod Calm
use insider_one.Prelude.{
  ℕ, ◌+◌, ◌-◌, String, Bool, true, false, ◌||◌, Option, none, some, List, [], ◌∷◌, ltb, leb, ◌==◌,
  if◌then◌else◌,
}
use insider_one.Prelude.Text.{decimal, ◌<>◌}
use insider_one.Domain.{Time, Channel, delivered, failed, scheduled, dead_letter, Notification}
use insider_one.Metrics.{inc_success, inc_failure}
use insider_one.Provider.{SendResult, send}
use insider_one.Repository.Claim.{claim_due, queue_depth_by_channel}
use insider_one.Repository.RateLimit.{acquire_rate_limit_slots}
use insider_one.Repository.Write.{mark_delivered, mark_failed, mark_dead_letter, schedule_retry}
use insider_one.Runtime.{
  Env, Error, Fallible, pure, ◌>>=◌, attempt, ignore, clock, check_ctx, modify_metrics,
}
use insider_one.Service.{Service, note_depth}
use insider_one.Service.Create.{note_event}
use insider_one.Service.Rules.{should_retry_delivery, backoff}

-- `%v` of an error.
abbrev error_text : Option Error → String
error_text none = "<nil>"
error_text (some e) = e

-- `fmt.Sprintf("provider status=%d err=%v", statusCode, err)`
unfoldable pub failure_message : SendResult → String
failure_message r = "provider status=" <> decimal r.status_code <> " err=" <> error_text r.error

abbrev is_error : Option Error → Bool
is_error none = false
is_error (some e) = true

-- The outcomes of one attempt: the four ways through the loop body.
pub data Outcome : Type 0 where
  accepted retry exhausted rejected : Outcome

-- Which way the tests of the loop body lead, for the attempts made before this one.
unfoldable pub outcome : SendResult → ℕ → ℕ → Outcome
outcome r attempts max_attempts =
    if is_error r.error || (ltb r.status_code 200 || leb 300 r.status_code)
    then (if should_retry_delivery r.status_code r.error
        then (if ltb (attempts + 1) max_attempts then retry else exhausted)
        else rejected)
    else accepted

module _ (env : Env) where
  -- The branch of each outcome, up to the metrics.
  unfoldable pub settle : Outcome → Notification → SendResult → Time → Fallible (Unit {0})
  settle accepted n r start = do
    now ← clock env
    marked ← ignore (mark_delivered env n.id r.response.message_id)
    note_event env n delivered "provider accepted" (n.attempts + 1) none r.status_code
        r.response.message_id
  settle retry n r start = do
    now ← clock env
    delay ← backoff env n.attempts
    let next_attempt_at = now + delay
    marked ← ignore (schedule_retry env n.id (failure_message r) next_attempt_at)
    note_event env n scheduled (failure_message r) (n.attempts + 1) (some next_attempt_at)
        r.status_code ""
  settle exhausted n r start = do
    marked ← ignore (mark_dead_letter env n.id (failure_message r))
    note_event env n dead_letter (failure_message r) (n.attempts + 1) none r.status_code ""
  settle rejected n r start = do
    marked ← ignore (mark_failed env n.id (failure_message r))
    note_event env n failed (failure_message r) (n.attempts + 1) none r.status_code ""

  unfoldable pub count_outcome : Channel → Time → Outcome → Fallible (Unit {0})
  count_outcome channel start accepted = do
    now ← clock env
    modify_metrics (inc_success channel (now - start))
  count_outcome channel start other = do
    now ← clock env
    modify_metrics (inc_failure channel (now - start))

  -- The body of the loop over the claimed notifications.
  unfoldable pub deliver : Service → Channel → Notification → Fallible (Unit {0})
  deliver s channel n = do
    checked ← check_ctx env
    start ← clock env
    r ← send env s.provider (record { to = n.recipient; channel = n.channel; content = n.content })
    settled ← settle (outcome r n.attempts n.max_attempts) n r start
    count_outcome channel start (outcome r n.attempts n.max_attempts)

  unfoldable pub deliver_all : Service → Channel → List Notification → Fallible (Unit {0})
  deliver_all s channel [] = pure tt
  deliver_all s channel (n ∷ ns) = do delivered_one ← deliver s channel n; deliver_all s channel ns

  -- From the slots on: `if allowed == 0 { return nil }`.
  unfoldable pub claim_and_deliver : Service → Channel → ℕ → Fallible (Unit {0})
  claim_and_deliver s channel allowed =
      if allowed == 0 then pure tt else claim_due env channel allowed >>= deliver_all s channel

  unfoldable pub process_channel : Service → Channel → Fallible (Unit {0})
  process_channel s channel = do
    checked ← check_ctx env
    depth ← attempt (queue_depth_by_channel env channel)
    noted ← note_depth channel depth
    allowed ← acquire_rate_limit_slots env ("delivery:" <> channel) s.rate_limit s.claim_limit
    claim_and_deliver s channel allowed
