-- ===== src/Service/Interleaved/Rate.antt =====
-- internal/service/service.go and internal/repository/postgres.go: the rate limit, with many goroutines.
use insider_one.Prelude.{◌≤◌, String, List, [], ◌∷◌, All}
use insider_one.Prelude.Text.{◌<>◌}
use insider_one.Domain.{Time}
use insider_one.Repository.Laws.{RepositoryLaws, DeliveryLaws}
use insider_one.Repository.Laws.Methods.{repository_laws, delivery_laws}
use insider_one.Repository.Lifecycle.Inserts.{IsFresh}
use insider_one.Repository.RateLimit.{acquire_rate_limit_slots}
use insider_one.Repository.RateLimit.Kept.{
  KeepsWindows, kept, kept_statements, kept_updates, acquire-KeepsQuota,
}
use insider_one.Repository.RateLimit.Quota.{IsWithinQuota}
use insider_one.Repository.RateLimit.Seconds.{
  OnSeconds, StoresSeconds, used_in_second, used_in_second-le, acquire-OnSeconds,
}
use insider_one.Repository.Schema.{WindowRow, Database}
use insider_one.Runtime.{Env, World}
use insider_one.Runtime.Keeps.{Keeps}
use insider_one.Service.{Service}
use insider_one.Service.Interleaved.{
  RepositoryCall, insert, add_event, map_request, cancel, acquire, claim, deliver, fail, give_up,
  postpone, issue, interleave,
}

-- What is inserted is new, as the service makes it: waiting and not tried yet.
abbrev pub InsertsFresh : RepositoryCall → Type 0
InsertsFresh (insert ns) = All IsFresh ns
InsertsFresh _ = Unit

module _ (R : Database → Database → Type 0) (env : Env) (s : Service) (laws : RepositoryLaws R env)
    (marks : DeliveryLaws R env)
    (acquires : (key : String)
      → Keeps R (acquire_rate_limit_slots env key s.rate_limit s.claim_limit)) where
  issue-related :
      (call : RepositoryCall) (w : World) → InsertsFresh call → R w.db (issue env s call w).db
  unfolding issue
  issue-related (insert ns) w h = (laws.insert_all ns h).at w
  issue-related (add_event event) w h = (laws.add_event event).at w
  issue-related (map_request key batch_id tenant) w h = (laws.map_request key batch_id tenant).at w
  issue-related (cancel ids tenant) w h = (laws.cancel ids tenant).at w
  issue-related (acquire channel) w h = (acquires ("delivery:" <> channel)).at w
  issue-related (claim channel limit) w h = (marks.claim channel limit).at w
  issue-related (deliver id message_id) w h = (marks.deliver id message_id).at w
  issue-related (fail id message) w h = (marks.fail id message).at w
  issue-related (give_up id message) w h = (marks.give_up id message).at w
  issue-related (postpone id message next) w h = (marks.postpone id message next).at w

  interleave-related :
      (calls : List RepositoryCall) (w : World)
      → All InsertsFresh calls
      → R w.db (interleave env s calls w).db
  unfolding interleave
  interleave-related [] w h = laws.preorder.refl_at w.db
  interleave-related (call ∷ calls) w h =
      laws.preorder.trans_at _ _ _ (issue-related call w h.0)
        (interleave-related calls (issue env s call w) h.1)

interleave-KeepsWindows :
    (P : List WindowRow → Type 0) (env : Env) (s : Service)
    → ((key : String)
        → Keeps (KeepsWindows P) (acquire_rate_limit_slots env key s.rate_limit s.claim_limit))
    → (calls : List RepositoryCall) (w : World) → All InsertsFresh calls
    → P w.db.windows
    → P (interleave env s calls w).db.windows
interleave-KeepsWindows P env s =
    interleave-related (KeepsWindows P) env s
      (repository_laws (KeepsWindows P) env (kept_statements P env))
      (delivery_laws (KeepsWindows P) (kept P) env (kept_updates P))

-- Let the timestamps' column keep whole seconds, and let the tables' windows start with whole seconds
-- and be within the service's rate limit. However the calls of many goroutines come between one
-- another, where what they insert is new, and whatever the surroundings do: under any key, the windows that
-- start within one second from any time have together at most the rate limit of slots in use.
pub interleave-within :
    (env : Env) (s : Service) (calls : List RepositoryCall) (w : World) (key : String) (from : Time)
    → StoresSeconds env
    → All InsertsFresh calls
    → IsWithinQuota s.rate_limit w.db.windows
    → OnSeconds w.db.windows
    → used_in_second key from (interleave env s calls w).db.windows ≤ s.rate_limit
interleave-within env s calls w key from stores fresh h o =
    used_in_second-le key from s.rate_limit _
      (interleave-KeepsWindows (IsWithinQuota s.rate_limit) env s
        (λ k. acquire-KeepsQuota s.rate_limit env k s.claim_limit) calls w fresh h)
      (interleave-KeepsWindows OnSeconds env s
        (λ k. acquire-OnSeconds env stores k s.rate_limit s.claim_limit) calls w fresh o)
