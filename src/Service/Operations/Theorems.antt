-- ===== src/Service/Operations/Theorems.antt =====
-- Runs of the service: the invariants of the tables.
use insider_one.Prelude.{◌≤◌, String, List}
use insider_one.Prelude.Text.{◌<>◌}
use insider_one.Repository.Lifecycle.{Evolves, WellFormed, Lives}
use insider_one.Repository.Lifecycle.Statements.{Lives-statements}
use insider_one.Repository.Laws.Methods.{repository_laws, delivery_laws}
use insider_one.Repository.RateLimit.Quota.{IsWithinQuota}
use insider_one.Repository.RateLimit.Kept.{
  KeepsWindows, kept, kept_statements, kept_updates, acquire-KeepsQuota,
}
use insider_one.Domain.{Time}
use insider_one.Repository.Schema.{WindowRow}
use insider_one.Repository.RateLimit.{acquire_rate_limit_slots}
use insider_one.Repository.RateLimit.Seconds.{
  OnSeconds, StoresSeconds, used_in_second, used_in_second-le, acquire-OnSeconds,
}
use insider_one.Runtime.Keeps.{Keeps}
use insider_one.Service.Process.Respects.{process_channel-Keeps}
use insider_one.Runtime.{Env, World}
use insider_one.Service.{Service}
use insider_one.Repository.Laws.{RepositoryLaws}
use insider_one.Service.Process.Cycle.{process_channel-Lives}
use insider_one.Service.Operations.{Operation, run}
use insider_one.Service.Operations.Invariants.{run-related}

Lives-laws : (env : Env) → RepositoryLaws Lives env
Lives-laws env = repository_laws Lives env (Lives-statements env)

-- What acquiring slots keeps of the windows, a run keeps.
run-KeepsWindows :
    (P : List WindowRow → Type 0) (env : Env) (s : Service)
    → ((key : String)
        → Keeps (KeepsWindows P) (acquire_rate_limit_slots env key s.rate_limit s.claim_limit))
    → (ops : List Operation) (w : World) → P w.db.windows
    → P (run env s ops w).db.windows
run-KeepsWindows P env s acquire ops w =
    let R = KeepsWindows P in
    run-related R env s (repository_laws R env (kept_statements P env))
      (λ channel.
        process_channel-Keeps R env (repository_laws R env (kept_statements P env))
          (delivery_laws R (kept P) env (kept_updates P)) s channel
          (acquire ("delivery:" <> channel)))
      ops w

-- From well-formed tables, after any operations one after another, in any order, whatever the connection, the
-- provider, the clock and the contexts do: the ids of the notifications are distinct, no tenant
-- has an idempotency key twice, attempts are within their maximum and below it while a
-- notification is open, every event belongs to a notification, event ids increase, no tenant
-- has a request key twice, and each notification has come to its status and attempts by moves of the
-- abstract machine from pending or scheduled and no attempts.
pub run-WellFormed :
    (env : Env) (s : Service) (ops : List Operation) (w : World)
    → WellFormed w.db
    → WellFormed (run env s ops w).db
run-WellFormed env s ops w h =
    (run-related Lives env s (Lives-laws env) (process_channel-Lives env s) ops w h).0

-- From well-formed tables, any operations one after another, in any order, keep each notification in its place, with
-- the same id, tenant, batch, recipient, channel, content, priority, maximum of attempts, creation
-- time, correlation id and key; attempts never fall, and go with the status by moves of the abstract machine; and a notification that is delivered, failed,
-- dead-lettered or cancelled never changes again.
pub run-Evolves :
    (env : Env) (s : Service) (ops : List Operation) (w : World)
    → WellFormed w.db
    → Evolves w.db.notifications (run env s ops w).db.notifications
run-Evolves env s ops w h =
    (run-related Lives env s (Lives-laws env) (process_channel-Lives env s) ops w h).1

-- Let the timestamps' column keep whole seconds, and let the tables' windows start with whole seconds
-- and be within the service's rate limit. After any operations one after another, whatever else the
-- surroundings do, they still are so; and under any key, whatever the time `from`, the windows that
-- start within one second from it have together no more slots in use than the rate limit.
pub run-IsWithinQuota :
    (env : Env) (s : Service) (ops : List Operation) (w : World)
    → StoresSeconds env
    → IsWithinQuota s.rate_limit w.db.windows
    → OnSeconds w.db.windows
    → let ws = (run env s ops w).db.windows in
      IsWithinQuota s.rate_limit ws
      × OnSeconds ws
      × ((key : String) (from : Time) → used_in_second key from ws ≤ s.rate_limit)
run-IsWithinQuota env s ops w stores h o =
    let within =
      run-KeepsWindows (IsWithinQuota s.rate_limit) env s
        (λ key. acquire-KeepsQuota s.rate_limit env key s.claim_limit) ops w h in
    let aligned =
      run-KeepsWindows OnSeconds env s
        (λ key. acquire-OnSeconds env stores key s.rate_limit s.claim_limit) ops w o in
    (within, aligned, λ key from. used_in_second-le key from s.rate_limit _ within aligned)
