-- ===== src/Repository/Laws/Methods.antt =====
-- internal/repository/postgres.go: from relations that the statements respect to the methods.
use insider_one.Prelude.{ℕ, ◌==◌, String, List, [], ◌∷◌, All}
use insider_one.Domain.{Time, Channel, Notification, DeliveryEvent, failed, dead_letter}
use insider_one.Repository.Schema.{Row, Database, tenant_id, notification_row}
use insider_one.Repository.Write.{
  insert_row, insert_loop, insert_notifications, record_event, upsert_request_mapping,
  cancel_pending, mark_delivered, mark_failed, mark_dead_letter, schedule_retry, has_id,
  update_where, set_delivered, set_failed, set_retry,
}
use insider_one.Repository.Lifecycle.Inserts.{IsFresh}
use insider_one.Repository.Laws.{StatementLaws, UpdateLaws, RepositoryLaws, DeliveryLaws}
use insider_one.Repository.Claim.{claim_due}
use insider_one.Runtime.{Env, ◌>>=◌, clock, exec, tx_exec, commit}
use insider_one.Runtime.Keeps.{
  IsPreorder, Keeps, KeepsTx, Keeps-pure, Keeps->>=, Keeps-clock, Keeps-ask, Keeps-exec,
  Keeps-begin_tx, KeepsTx-commit, KeepsTx-tx_exec, KeepsTx->>=_assoc, Keeps-if,
}

module _ (R : Database → Database → Type 0) (env : Env) (laws : StatementLaws R env) where
  insert_loop-Keeps :
      (ns : List Notification)
      → All IsFresh ns
      → KeepsTx R (λ tx. insert_loop env ns tx >>= commit env)
  unfolding insert_loop
  insert_loop-Keeps [] h = unfold ◌>>=◌ in record { at = (KeepsTx-commit R laws.preorder env).at }
  insert_loop-Keeps (n ∷ ns) h =
      KeepsTx->>=_assoc R laws.preorder
        (tx_exec env (insert_row env (notification_row env.stored n)))
        (λ (done, tx'). insert_loop env ns tx') (commit env)
        (KeepsTx-tx_exec R laws.preorder env (insert_row env (notification_row env.stored n))
          (λ _ tx'. insert_loop env ns tx' >>= commit env) (λ db. laws.row n db h.0)
          (λ _. insert_loop-Keeps ns h.1))

  -- The INSERT of a batch: all of the rows or none.
  insert_notifications-Keeps :
      (ns : List Notification) → All IsFresh ns → Keeps R (insert_notifications env ns)
  unfolding insert_notifications
  insert_notifications-Keeps ns h =
      Keeps-begin_tx R laws.preorder env (λ tx. insert_loop env ns tx >>= commit env)
        (insert_loop-Keeps ns h)

  record_event-Keeps : (event : DeliveryEvent) → Keeps R (record_event env event)
  unfolding record_event
  record_event-Keeps event =
      Keeps->>= R laws.preorder
        (Keeps-if R laws.preorder (event.created_at == 0) (Keeps-clock R laws.preorder env)
          (Keeps-pure R laws.preorder event.created_at))
        (λ t. Keeps-exec R laws.preorder env _ (laws.event (record event { created_at = t })))

  upsert_request_mapping-Keeps :
      (key batch_id tenant : String) → Keeps R (upsert_request_mapping env key batch_id tenant)
  unfolding upsert_request_mapping
  upsert_request_mapping-Keeps key batch_id tenant =
      Keeps->>= R laws.preorder (Keeps-clock R laws.preorder env)
        (λ now. Keeps-exec R laws.preorder env _ (laws.request key batch_id (tenant_id tenant) now))

  cancel_pending-Keeps :
      (ids : List String) (tenant : String) → Keeps R (cancel_pending env ids tenant)
  unfolding cancel_pending
  cancel_pending-Keeps [] tenant = Keeps-pure R laws.preorder 0
  cancel_pending-Keeps (id ∷ ids) tenant =
      Keeps->>= R laws.preorder (Keeps-clock R laws.preorder env)
        (λ now. Keeps-exec R laws.preorder env _ (laws.cancel (id ∷ ids) (tenant_id tenant) now))

  -- The methods respect what their statements respect.
  pub repository_laws : RepositoryLaws R env
  repository_laws = record {
    preorder = laws.preorder;
    insert_all = insert_notifications-Keeps;
    add_event = record_event-Keeps;
    map_request = upsert_request_mapping-Keeps;
    cancel = cancel_pending-Keeps;
  }

module _ (R : Database → Database → Type 0) (pre : IsPreorder R) (env : Env)
    (laws : UpdateLaws R) where
  claim_due-Keeps : (channel : Channel) (limit : ℕ) → Keeps R (claim_due env channel limit)
  unfolding claim_due
  claim_due-Keeps channel limit = Keeps->>= R pre (Keeps-clock R pre env) (λ now.
      Keeps->>= R pre (Keeps-clock R pre env) (λ updated.
        Keeps->>= R pre (Keeps-ask R pre env.locked) (λ locked.
          Keeps-exec R pre env _
            (laws.claim locked channel (env.stored now) (env.stored updated) limit))))

  mark-Keeps :
      (id : String) (f : Time → Row → Row)
      → Keeps R (clock env >>= λ now. exec env (update_where (has_id id) (f (env.stored now))))
  mark-Keeps id f =
      Keeps->>= R pre (Keeps-clock R pre env)
        (λ now. Keeps-exec R pre env _ (laws.update (has_id id) (f (env.stored now))))

  -- The Mark methods respect what every UPDATE of notifications respects.
  pub delivery_laws : DeliveryLaws R env
  unfolding mark_delivered mark_failed mark_dead_letter schedule_retry
  delivery_laws = record {
    claim = claim_due-Keeps;
    deliver = λ id m. mark-Keeps id (λ t. set_delivered m t);
    fail = λ id m. mark-Keeps id (λ t. set_failed failed m t);
    give_up = λ id m. mark-Keeps id (λ t. set_failed dead_letter m t);
    postpone = λ id m next. mark-Keeps id (λ t. set_retry m (env.stored next) t);
  }
