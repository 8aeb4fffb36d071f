-- ===== src/Service/Operations.antt =====
-- The operations that reach the service, from internal/app/app.go's handlers and from the workers
-- of internal/worker/manager.go, as one type, and a run of any number of them in any order. Each
-- operation is one step of a run; what it does on the way is in its definition.
pub mod Invariants
pub mod Theorems
pub mod Refines
pub mod Idempotent
use insider_one.Prelude.{ℕ, String, Option, List, [], ◌∷◌}
use insider_one.Prelude.Int.{ℤ}
use insider_one.Domain.{Time, Channel, NotificationRequest, NotificationBatchRequest}
use insider_one.Httpx.Context.{Context}
use insider_one.Service
use insider_one.Service.{Service, metrics_snapshot}
use insider_one.Service.Create.{create_notification, create_batch}
use insider_one.Service.Process.{process_channel}
use insider_one.Runtime.{Env, World}

pub data Operation : Type 0 where
  create : Context → NotificationRequest → (batch_id correlation_id key : String) → Operation
  create_many : Context → NotificationBatchRequest → (correlation_id : String) → Operation
  cancel : Context → List String → Operation
  get : Context → (id : String) → Operation
  get_batch : Context → (batch_id : String) → Operation
  list :
      Context
      → (status channel : String) → (from to : Option Time) → (limit : ℕ) → (offset : ℤ) → Operation
  dead_letters : Context → (channel : String) → (limit : ℕ) → (offset : ℤ) → Operation
  events : Context → (notification_id : String) → (limit : ℕ) → (offset : ℤ) → Operation
  metrics : Operation
  work : Channel → Operation

module _ (env : Env) (s : Service) where
  -- The world after an operation; its result goes to the caller.
  unfoldable pub perform : Operation → World → World
  perform (create ctx req batch_id correlation_id key) w =
      (create_notification env ctx req batch_id correlation_id key w).1
  perform (create_many ctx req correlation_id) w = (create_batch env ctx req correlation_id w).1
  perform (cancel ctx ids) w = (Service.cancel env ctx ids w).1
  perform (get ctx id) w = (Service.get env ctx id w).1
  perform (get_batch ctx batch_id) w = (Service.get_batch env ctx batch_id w).1
  perform (list ctx status channel from to limit offset) w =
      (Service.list env ctx status channel from to limit offset w).1
  perform (dead_letters ctx channel limit offset) w =
      (Service.dead_letters env ctx channel limit offset w).1
  perform (events ctx id limit offset) w = (Service.events env ctx id limit offset w).1
  perform metrics w = (metrics_snapshot env w).1
  perform (work channel) w = (process_channel env s channel w).1

  unfoldable pub run : List Operation → World → World
  unfolding perform
  run [] w = w
  run (op ∷ ops) w = run ops (perform op w)
