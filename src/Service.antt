-- ===== src/Service.antt =====
-- internal/service/service.go: the `Service`, its options, and the operations that read or cancel.
-- Spans and log lines are left out. The repository and the metrics are the world's.
pub mod Rules
pub mod Create
pub mod Process
pub mod Reads
pub mod Options
pub mod Cancelling
pub mod Operations
pub mod Interleaved
use insider_one.Prelude.{ℕ, String, Option, none, some, List, [], ◌∷◌, ltb, if◌then◌else◌}
use insider_one.Prelude.Int.{ℤ, pos, ltb_ℤ, pos_part}
use insider_one.Domain.{Time, Channel, Notification, DeliveryEvent}
use insider_one.Httpx.Context.{Context, tenant_id_of}
use insider_one.Metrics.{set_queue_depth, snapshot, ChannelSnapshot}
use insider_one.Provider.{Client}
use insider_one.Repository.Claim.{queue_depth_by_channel}
use insider_one.Repository.Read.{
  get_notification, get_by_batch, list_notifications, list_dead_letters, list_events,
}
use insider_one.Repository.Write.{cancel_pending}
use insider_one.Runtime.{
  Result, ok, err, Env, Error, Fallible, pure, ◌>>=◌, attempt, check_ctx, modify_metrics,
  get_metrics,
}

pub record Service : Type 0 where
  pub provider : Client
  pub claim_limit : ℕ
  pub rate_limit : ℕ

-- The options: a limit that is not positive is dropped, so both fields stay positive.
pub data ServiceOption : Type 0 where
  claim_limit rate_limit : ℤ → ServiceOption

unfoldable pub with_option : ServiceOption → Service → Service
with_option (claim_limit limit) s =
    if ltb_ℤ (pos 0) limit then record s { claim_limit = pos_part limit } else s
with_option (rate_limit limit) s =
    if ltb_ℤ (pos 0) limit then record s { rate_limit = pos_part limit } else s

abbrev with_options : List ServiceOption → Service → Service
with_options [] s = s
with_options (o ∷ os) s = with_options os (with_option o s)

unfoldable pub new : Client → List ServiceOption → Service
unfolding with_option
new provider opts =
    with_options opts (record { provider = provider; claim_limit = 10; rate_limit = 100 })

module _ (env : Env) (ctx : Context) where
  -- `GetNotification`
  unfoldable pub get : String → Fallible Notification
  get id = do checked ← check_ctx env; get_notification env id (tenant_id_of ctx)

  -- `GetBatch`
  unfoldable pub get_batch : String → Fallible (List Notification)
  get_batch batch_id = do checked ← check_ctx env; get_by_batch env batch_id (tenant_id_of ctx)

  -- `List`
  unfoldable pub list :
      String → String → Option Time → Option Time → ℕ → ℤ → Fallible (List Notification)
  list status channel from to limit offset = do
    checked ← check_ctx env
    list_notifications env status channel from to limit offset (tenant_id_of ctx)

  -- `ListDeadLetters`
  unfoldable pub dead_letters : String → ℕ → ℤ → Fallible (List Notification)
  dead_letters channel limit offset = do
    checked ← check_ctx env
    list_dead_letters env channel limit offset (tenant_id_of ctx)

  -- `ListEvents`
  unfoldable pub events : String → ℕ → ℤ → Fallible (List DeliveryEvent)
  events notification_id limit offset = do
    checked ← check_ctx env
    list_events env notification_id limit offset (tenant_id_of ctx)

  -- `Cancel`
  unfoldable pub cancel : List String → Fallible ℕ
  cancel ids = do checked ← check_ctx env; cancel_pending env ids (tenant_id_of ctx)

-- `if depth, err := …; err == nil { SetQueueDepth(channel, depth) }`
unfoldable pub note_depth : Channel → Result ℕ → Fallible (Unit {0})
note_depth channel (ok depth) = modify_metrics (set_queue_depth channel depth)
note_depth channel (err e) = pure tt

module _ (env : Env) where
  refresh_depth : Channel → Fallible (Unit {0})
  refresh_depth channel = do
    depth ← attempt (queue_depth_by_channel env channel)
    note_depth channel depth

  -- `MetricsSnapshot`, which answers a cancelled context with its error.
  unfoldable pub metrics_snapshot : Fallible (List ChannelSnapshot)
  unfolding refresh_depth
  metrics_snapshot = do
    checked ← check_ctx env
    sms ← refresh_depth "sms"
    email ← refresh_depth "email"
    push ← refresh_depth "push"
    m ← get_metrics
    pure (snapshot m)
