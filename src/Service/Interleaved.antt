-- ===== src/Service/Interleaved.antt =====
-- internal/service/service.go: the calls of the repository that change tables, as goroutines make them.
-- The handlers and the workers run at the same time, so their calls come in any order; the database
-- serialises the calls on one window, which the transaction of AcquireRateLimitSlots locks from
-- its upsert to its end.
pub mod Rate
use insider_one.Prelude.{ℕ, String, List, [], ◌∷◌}
use insider_one.Prelude.Text.{◌<>◌}
use insider_one.Domain.{Time, Channel, Notification, DeliveryEvent}
use insider_one.Repository.Write.{
  insert_notifications, record_event, upsert_request_mapping, cancel_pending, mark_delivered,
  mark_failed, mark_dead_letter, schedule_retry,
}
use insider_one.Repository.Claim.{claim_due}
use insider_one.Repository.RateLimit.{acquire_rate_limit_slots}
use insider_one.Runtime.{Env, World}
use insider_one.Service.{Service}

pub data RepositoryCall : Type 0 where
  insert : List Notification → RepositoryCall
  add_event : DeliveryEvent → RepositoryCall
  map_request : (key batch_id tenant : String) → RepositoryCall
  cancel : (ids : List String) → (tenant : String) → RepositoryCall
  acquire : Channel → RepositoryCall
  claim : Channel → (limit : ℕ) → RepositoryCall
  deliver : (id message_id : String) → RepositoryCall
  fail : (id message : String) → RepositoryCall
  give_up : (id message : String) → RepositoryCall
  postpone : (id message : String) → Time → RepositoryCall

module _ (env : Env) (s : Service) where
  unfoldable pub issue : RepositoryCall → World → World
  issue (insert ns) w = (insert_notifications env ns w).1
  issue (add_event event) w = (record_event env event w).1
  issue (map_request key batch_id tenant) w = (upsert_request_mapping env key batch_id tenant w).1
  issue (cancel ids tenant) w = (cancel_pending env ids tenant w).1
  issue (acquire channel) w =
      (acquire_rate_limit_slots env ("delivery:" <> channel) s.rate_limit s.claim_limit w).1
  issue (claim channel limit) w = (claim_due env channel limit w).1
  issue (deliver id message_id) w = (mark_delivered env id message_id w).1
  issue (fail id message) w = (mark_failed env id message w).1
  issue (give_up id message) w = (mark_dead_letter env id message w).1
  issue (postpone id message next) w = (schedule_retry env id message next w).1

  -- The calls of all goroutines in the order in which the database takes them.
  unfoldable pub interleave : List RepositoryCall → World → World
  unfolding issue
  interleave [] w = w
  interleave (call ∷ calls) w = interleave calls (issue call w)
