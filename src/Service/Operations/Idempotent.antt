-- ===== src/Service/Operations/Idempotent.antt =====
-- internal/service/service.go, `CreateNotification`: two calls under one key, in a run.
use insider_one.Prelude.{suc, ◌≡◌, ◌≢◌, String, none, List, [], ◌∷◌}
use insider_one.Domain.{Notification, NotificationRequest}
use insider_one.Httpx.Context.{Context}
use insider_one.Repository.Lifecycle.{WellFormed}
use insider_one.Repository.Schema.{scan_notification}
use insider_one.Runtime.{Env, World, ok, taken}
use insider_one.Service.{Service}
use insider_one.Service.Create.{create_notification}
use insider_one.Service.Create.Idempotent.{create_notification-known_key}
use insider_one.Service.Create.Idempotent.Twice.{Found-Evolves, create_notification-Found}
use insider_one.Service.Operations.{Operation, create, perform, run}
use insider_one.Service.Operations.Theorems.{run-WellFormed, run-Evolves}
use insider_one.Service.Rules.{validate_request}

-- Let a create under a key that is not empty return a notification, from well-formed tables and
-- whatever the surroundings do, and let any operations follow, of any tenants and of the workers.
-- Then a further create by the same tenant under the key, with any valid request, where the context
-- is live and the database takes its SELECT, returns the notification with the same id and changes no table.
pub run-idempotent :
    (env : Env) (s : Service) (ctx : Context) (key : String) (req again : NotificationRequest)
    (batch_id correlation_id batch_again correlation_again : String) (ops : List Operation)
    (w : World) (n : Notification)
    → let later = run env s (create ctx req batch_id correlation_id key ∷ ops) w in
      WellFormed w.db
      → key ≢ ""
      → (create_notification env ctx req batch_id correlation_id key w).0 ≡ ok n
      → env.ctx_err later.tick ≡ none
      → env.fault (suc later.tick) ≡ taken
      → validate_request again ≡ ok tt
      → (m : Notification) × ((create_notification env ctx again batch_again correlation_again key
            later).0
          ≡ ok m)
        × (m.id ≡ n.id)
        × ((create_notification env ctx again batch_again correlation_again key later).1.db
            ≡ later.db)
unfolding run perform scan_notification
run-idempotent env s ctx key req again batch_id correlation_id batch_again correlation_again ops w n
      h k first live works valid =
    let w₁ = (create_notification env ctx req batch_id correlation_id key w).1 in
    let later = run env s ops w₁ in
    let formed : WellFormed w₁.db =
      run-WellFormed env s (create ctx req batch_id correlation_id key ∷ []) w h in
    let (row, found, same) =
      Found-Evolves env ctx key k n w₁ later (run-Evolves env s ops w₁ formed)
        (create_notification-Found env ctx key k req batch_id correlation_id w n first) in
    let (answer, kept) =
      create_notification-known_key env ctx again batch_again correlation_again key later row live
        works valid k found in
    (scan_notification row, answer, same, kept)
