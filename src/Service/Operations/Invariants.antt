-- ===== src/Service/Operations/Invariants.antt =====
-- Runs of the service: a relation that every operation respects, over a whole run.
use insider_one.Prelude.{List, [], ◌∷◌}
use insider_one.Domain.{Channel}
use insider_one.Httpx.Context.{tenant_id_of}
use insider_one.Repository.Schema.{Database}
use insider_one.Runtime.{Env, World}
use insider_one.Runtime.Keeps.{Keeps}
use insider_one.Service.{Service}
use insider_one.Service.Create.Respects.{create_notification-Keeps, create_batch-Keeps}
use insider_one.Repository.Laws.{RepositoryLaws}
use insider_one.Service.Process.{process_channel}
use insider_one.Service.Reads.{
  metrics_snapshot-Keeps, cancel-Keeps, get-Keeps, get_batch-Keeps, list-Keeps, dead_letters-Keeps,
  events-Keeps,
}
use insider_one.Service.Operations.{
  Operation, create, create_many, cancel, get, get_batch, list, dead_letters, events, metrics, work,
  perform, run,
}

module _ (R : Database → Database → Type 0) (env : Env) (s : Service) (laws : RepositoryLaws R env)
    (works : (channel : Channel) → Keeps R (process_channel env s channel)) where
  perform-related : (op : Operation) (w : World) → R w.db (perform env s op w).db
  unfolding perform
  perform-related (create ctx req batch_id correlation_id key) w =
      (create_notification-Keeps R env laws ctx req batch_id correlation_id key).at w
  perform-related (create_many ctx req correlation_id) w =
      (create_batch-Keeps R env laws ctx req correlation_id).at w
  perform-related (cancel ctx ids) w =
      (cancel-Keeps R laws.preorder env ctx ids (laws.cancel ids (tenant_id_of ctx))).at w
  perform-related (get ctx id) w = (get-Keeps R laws.preorder env ctx id).at w
  perform-related (get_batch ctx id) w = (get_batch-Keeps R laws.preorder env ctx id).at w
  perform-related (list ctx status channel from to limit offset) w =
      (list-Keeps R laws.preorder env ctx status channel from to limit offset).at w
  perform-related (dead_letters ctx channel limit offset) w =
      (dead_letters-Keeps R laws.preorder env ctx channel limit offset).at w
  perform-related (events ctx id limit offset) w =
      (events-Keeps R laws.preorder env ctx id limit offset).at w
  perform-related metrics w = (metrics_snapshot-Keeps R laws.preorder env).at w
  perform-related (work channel) w = (works channel).at w

  pub run-related : (ops : List Operation) (w : World) → R w.db (run env s ops w).db
  unfolding run
  run-related [] w = laws.preorder.refl_at w.db
  run-related (op ∷ ops) w =
      laws.preorder.trans_at _ _ _ (perform-related op w) (run-related ops (perform env s op w))
