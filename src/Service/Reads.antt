-- ===== src/Service/Reads.antt =====
-- internal/service/service.go: reading, cancelling and the metrics, for a relation of the repository.
use insider_one.Prelude.{ℕ, String, Option, List}
use insider_one.Prelude.Int.{ℤ}
use insider_one.Domain.{Time, Channel}
use insider_one.Httpx.Context.{Context, tenant_id_of}
use insider_one.Repository.Claim.{queue_depth_by_channel}
use insider_one.Repository.Read.{
  get_notification, get_by_batch, list_notifications, list_dead_letters, list_events,
}
use insider_one.Repository.Schema.{Database}
use insider_one.Runtime.{Env, Result, ok, err}
use insider_one.Runtime.Keeps.{
  IsPreorder, Keeps, Keeps-pure, Keeps->>=, Keeps-attempt, Keeps-check_ctx, Keeps-query,
  Keeps-modify_metrics, Keeps-get_metrics,
}
use insider_one.Service.{
  get, get_batch, list, dead_letters, events, cancel, note_depth, refresh_depth, metrics_snapshot,
}
use insider_one.Repository.Write.{cancel_pending}

module _ (R : Database → Database → Type 0) (pre : IsPreorder R) (env : Env) where
  note_depth-Keeps : (channel : Channel) (depth : Result ℕ) → Keeps R (note_depth channel depth)
  unfolding note_depth
  note_depth-Keeps channel (ok depth) = Keeps-modify_metrics R pre _
  note_depth-Keeps channel (err e) = Keeps-pure R pre tt

  refresh_depth-Keeps : (channel : Channel) → Keeps R (refresh_depth env channel)
  unfolding refresh_depth queue_depth_by_channel
  refresh_depth-Keeps channel =
      Keeps->>= R pre (Keeps-attempt R pre (Keeps-query R pre env _))
        (λ depth. note_depth-Keeps channel depth)

  pub metrics_snapshot-Keeps : Keeps R (metrics_snapshot env)
  unfolding metrics_snapshot
  metrics_snapshot-Keeps = Keeps->>= R pre (Keeps-check_ctx R pre env) (λ _.
      Keeps->>= R pre (refresh_depth-Keeps "sms") (λ _.
        Keeps->>= R pre (refresh_depth-Keeps "email") (λ _.
          Keeps->>= R pre (refresh_depth-Keeps "push")
            (λ _. Keeps->>= R pre (Keeps-get_metrics R pre) (λ m. Keeps-pure R pre _)))))

  module _ (ctx : Context) where
    pub cancel-Keeps :
        (ids : List String)
        → Keeps R (cancel_pending env ids (tenant_id_of ctx))
        → Keeps R (cancel env ctx ids)
    unfolding cancel
    cancel-Keeps ids h = Keeps->>= R pre (Keeps-check_ctx R pre env) (λ _. h)

    pub get-Keeps : (id : String) → Keeps R (get env ctx id)
    unfolding get get_notification
    get-Keeps id = Keeps->>= R pre (Keeps-check_ctx R pre env) (λ _. Keeps-query R pre env _)

    pub get_batch-Keeps : (batch_id : String) → Keeps R (get_batch env ctx batch_id)
    unfolding get_batch get_by_batch
    get_batch-Keeps batch_id =
        Keeps->>= R pre (Keeps-check_ctx R pre env) (λ _. Keeps-query R pre env _)

    pub list-Keeps :
        (status channel : String) (from to : Option Time) (limit : ℕ) (offset : ℤ)
        → Keeps R (list env ctx status channel from to limit offset)
    unfolding list list_notifications
    list-Keeps status channel from to limit offset =
        Keeps->>= R pre (Keeps-check_ctx R pre env) (λ _. Keeps-query R pre env _)

    pub dead_letters-Keeps :
        (channel : String) (limit : ℕ) (offset : ℤ)
        → Keeps R (dead_letters env ctx channel limit offset)
    unfolding dead_letters list_dead_letters list_notifications
    dead_letters-Keeps channel limit offset =
        Keeps->>= R pre (Keeps-check_ctx R pre env) (λ _. Keeps-query R pre env _)

    pub events-Keeps :
        (id : String) (limit : ℕ) (offset : ℤ) → Keeps R (events env ctx id limit offset)
    unfolding events list_events
    events-Keeps id limit offset =
        Keeps->>= R pre (Keeps-check_ctx R pre env) (λ _. Keeps-query R pre env _)
