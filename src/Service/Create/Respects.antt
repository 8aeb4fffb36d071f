-- ===== src/Service/Create/Respects.antt =====
-- internal/service/service.go, `CreateNotification` and `CreateBatch`: every branch, for a relation of
-- the repository.
use insider_one.Prelude.{
  ℕ, refl, String, ◌&&◌, not, List, [], ◌∷◌, arith, All, Option, none, str_eq, length, ltb, ◌==◌,
}
use insider_one.Domain.{Time, Status, Notification, NotificationRequest, NotificationBatchRequest}
use insider_one.Httpx.Context.{Context, tenant_id_of}
use insider_one.Repository.Read.{get_by_idempotency_key, get_batch_id_by_key, get_by_batch}
use insider_one.Repository.Lifecycle.Inserts.{IsFresh}
use insider_one.Repository.Schema.{Database}
use insider_one.Repository.Laws.{RepositoryLaws}
use insider_one.Runtime.{Env, Error, Result, ok, err, attempt, lift, check_ctx}
use insider_one.Runtime.Keeps.{
  Keeps, Gives, Keeps-pure, Keeps-raise, Keeps-lift, Keeps->>=, Keeps->>=_post, Keeps-if,
  Keeps-attempt, Keeps-ignore, Keeps-clock, Keeps-check_ctx, Keeps-query,
}
use insider_one.Runtime.Gives.{Gives->>=, Gives->>=_post, Gives-pure}
use insider_one.Service.Rules.{validate_request, new_id}
use insider_one.Service.Rules.Effects.{Keeps-new_id}
use insider_one.Service.Create.{
  initial_status, build_notification, says_unique_failed, note_event, note_accepted,
  after_insert_error, after_insert, create_new, existing_or_new, create_notification, build_items,
  note_all, create_items, batch_or_new, create_batch,
}

build_notification-IsFresh :
    (id tenant batch_id correlation_id key : String) (now : Time) (req : NotificationRequest)
    → IsFresh (build_notification id tenant batch_id correlation_id key now req)
unfolding build_notification initial_status
build_notification-IsFresh id tenant batch_id correlation_id key now req = record {
  untried = refl;
  triable = omega arith;
  waiting = ground arith;
}

module _ (env : Env) (ctx : Context) where
  build_items-IsFresh :
      (batch_id correlation_id : String) (now : Time) (items : List NotificationRequest)
      → Gives (All IsFresh) (build_items env ctx batch_id correlation_id now items)
  unfolding build_items
  build_items-IsFresh batch_id correlation_id now [] = Gives-pure (All IsFresh) [] tt
  build_items-IsFresh batch_id correlation_id now (item ∷ items) =
      Gives->>= (All IsFresh) (check_ctx env) _ (λ _.
        Gives->>= (All IsFresh) (lift (validate_request item)) _ (λ _.
          Gives->>= (All IsFresh) (new_id env) _ (λ id.
            Gives->>=_post (All IsFresh) (All IsFresh)
              (build_items env ctx batch_id correlation_id now items) _
              (build_items-IsFresh batch_id correlation_id now items)
              (λ rest fresh. Gives-pure (All IsFresh) _ (
                build_notification-IsFresh id (tenant_id_of ctx) batch_id correlation_id
                    item.idempotency_key now item,
                fresh,
              )))))

module _ (R : Database → Database → Type 0) (env : Env) (laws : RepositoryLaws R env) where
  pub note_event-Keeps :
      (m : Notification) (status : Status) (reason : String) (attempt : ℕ) (next : Option Time)
      (provider_status : ℕ) (message_id : String)
      → Keeps R (note_event env m status reason attempt next provider_status message_id)
  unfolding note_event
  note_event-Keeps m status reason attempt next provider_status message_id =
      Keeps->>= R laws.preorder (Keeps-clock R laws.preorder env)
        (λ now. Keeps-ignore R laws.preorder (laws.add_event _))

  note_accepted-Keeps : (n : Notification) → Keeps R (note_accepted env n)
  unfolding note_accepted
  note_accepted-Keeps n = note_event-Keeps n n.status "accepted" 0 none 0 ""

module _ (R : Database → Database → Type 0) (env : Env) (laws : RepositoryLaws R env)
    (ctx : Context) where
  after_insert_error-Keeps :
      (key : String) (e : Error) (r : Result Notification)
      → Keeps R (after_insert_error env ctx key e r)
  unfolding after_insert_error
  after_insert_error-Keeps key e (ok existing) = Keeps-pure R laws.preorder existing
  after_insert_error-Keeps key e (err x) = Keeps-raise R laws.preorder e

  after_insert-Keeps :
      (key batch_id : String) (n : Notification) (r : Result (Unit {0}))
      → Keeps R (after_insert env ctx key batch_id n r)
  unfolding after_insert get_by_idempotency_key
  after_insert-Keeps key batch_id n (err e) =
      Keeps-if R laws.preorder (not (str_eq key "") && says_unique_failed e)
        (Keeps->>= R laws.preorder
          (Keeps-attempt R laws.preorder (Keeps-query R laws.preorder env _))
          (λ existing. after_insert_error-Keeps key e existing))
        (Keeps-raise R laws.preorder e)
  after_insert-Keeps key batch_id n (ok _) =
      Keeps->>= R laws.preorder
        (Keeps-if R laws.preorder (str_eq key "") (Keeps-pure R laws.preorder tt)
          (Keeps-ignore R laws.preorder (laws.map_request key batch_id (tenant_id_of ctx))))
        (λ _.
          Keeps->>= R laws.preorder (note_accepted-Keeps R env laws n)
            (λ _. Keeps-pure R laws.preorder n))

  create_new-Keeps :
      (req : NotificationRequest) (batch_id correlation_id key : String)
      → Keeps R (create_new env ctx req batch_id correlation_id key)
  unfolding create_new
  create_new-Keeps req batch_id correlation_id key =
      Keeps->>= R laws.preorder (Keeps-clock R laws.preorder env) (λ now.
        Keeps->>= R laws.preorder (Keeps-new_id R laws.preorder env) (λ id.
          Keeps->>= R laws.preorder
            (Keeps-attempt R laws.preorder (
              laws.insert_all
                (build_notification id (tenant_id_of ctx) batch_id correlation_id key now req ∷ [])
                (
                  build_notification-IsFresh id (tenant_id_of ctx) batch_id correlation_id key now
                      req,
                  tt,
                )))
            (λ inserted. after_insert-Keeps key batch_id _ inserted)))

  existing_or_new-Keeps :
      (req : NotificationRequest) (batch_id correlation_id key : String) (r : Result Notification)
      → Keeps R (existing_or_new env ctx req batch_id correlation_id key r)
  unfolding existing_or_new
  existing_or_new-Keeps req batch_id correlation_id key (ok existing) =
      Keeps-pure R laws.preorder existing
  existing_or_new-Keeps req batch_id correlation_id key (err e) =
      create_new-Keeps req batch_id correlation_id key

  -- `CreateNotification` respects the relation.
  pub create_notification-Keeps :
      (req : NotificationRequest) (batch_id correlation_id key : String)
      → Keeps R (create_notification env ctx req batch_id correlation_id key)
  unfolding create_notification get_by_idempotency_key
  create_notification-Keeps req batch_id correlation_id key =
      Keeps->>= R laws.preorder (Keeps-check_ctx R laws.preorder env) (λ _.
        Keeps->>= R laws.preorder (Keeps-lift R laws.preorder (validate_request req)) (λ _.
          Keeps-if R laws.preorder (str_eq key "")
            (create_new-Keeps req batch_id correlation_id key)
            (Keeps->>= R laws.preorder
              (Keeps-attempt R laws.preorder (Keeps-query R laws.preorder env _))
              (λ existing. existing_or_new-Keeps req batch_id correlation_id key existing))))

  build_items-Keeps :
      (batch_id correlation_id : String) (now : Time) (items : List NotificationRequest)
      → Keeps R (build_items env ctx batch_id correlation_id now items)
  unfolding build_items
  build_items-Keeps batch_id correlation_id now [] = Keeps-pure R laws.preorder []
  build_items-Keeps batch_id correlation_id now (item ∷ items) =
      Keeps->>= R laws.preorder (Keeps-check_ctx R laws.preorder env) (λ _.
        Keeps->>= R laws.preorder (Keeps-lift R laws.preorder (validate_request item)) (λ _.
          Keeps->>= R laws.preorder (Keeps-new_id R laws.preorder env) (λ id.
            Keeps->>= R laws.preorder (build_items-Keeps batch_id correlation_id now items)
              (λ rest. Keeps-pure R laws.preorder _))))

  note_all-Keeps : (ns : List Notification) → Keeps R (note_all env ctx ns)
  unfolding note_all
  note_all-Keeps [] = Keeps-pure R laws.preorder tt
  note_all-Keeps (n ∷ ns) =
      Keeps->>= R laws.preorder (note_accepted-Keeps R env laws n) (λ _. note_all-Keeps ns)

  create_items-Keeps :
      (req : NotificationBatchRequest) (correlation_id : String)
      → Keeps R (create_items env ctx req correlation_id)
  unfolding create_items
  create_items-Keeps req correlation_id =
      Keeps->>= R laws.preorder (Keeps-new_id R laws.preorder env) (λ batch_id.
        Keeps->>= R laws.preorder (Keeps-clock R laws.preorder env) (λ now.
          Keeps->>=_post R laws.preorder (All IsFresh)
            (build_items-Keeps batch_id correlation_id now req.notifications)
            (build_items-IsFresh env ctx batch_id correlation_id now req.notifications)
            (λ items fresh. Keeps->>= R laws.preorder (laws.insert_all items fresh) (λ _.
              Keeps->>= R laws.preorder
                (Keeps-if R laws.preorder (str_eq req.idempotency_key "")
                  (Keeps-pure R laws.preorder tt)
                  (laws.map_request req.idempotency_key batch_id (tenant_id_of ctx)))
                (λ _.
                  Keeps->>= R laws.preorder (note_all-Keeps items)
                    (λ _. Keeps-pure R laws.preorder (batch_id, items)))))))

  batch_or_new-Keeps :
      (req : NotificationBatchRequest) (correlation_id : String) (r : Result String)
      → Keeps R (batch_or_new env ctx req correlation_id r)
  unfolding batch_or_new get_by_batch
  batch_or_new-Keeps req correlation_id (ok batch_id) =
      Keeps->>= R laws.preorder (Keeps-query R laws.preorder env _)
        (λ existing. Keeps-pure R laws.preorder (batch_id, existing))
  batch_or_new-Keeps req correlation_id (err e) = create_items-Keeps req correlation_id

  -- `CreateBatch` respects the relation.
  pub create_batch-Keeps :
      (req : NotificationBatchRequest) (correlation_id : String)
      → Keeps R (create_batch env ctx req correlation_id)
  unfolding create_batch get_batch_id_by_key
  create_batch-Keeps req correlation_id =
      Keeps->>= R laws.preorder (Keeps-check_ctx R laws.preorder env) (λ _.
        Keeps-if R laws.preorder (length req.notifications == 0) (Keeps-raise R laws.preorder _) (
          Keeps-if R laws.preorder (ltb 1000 (length req.notifications))
            (Keeps-raise R laws.preorder _)
            (Keeps-if R laws.preorder (str_eq req.idempotency_key "")
              (create_items-Keeps req correlation_id)
              (Keeps->>= R laws.preorder
                (Keeps-attempt R laws.preorder (Keeps-query R laws.preorder env _))
                (λ known. batch_or_new-Keeps req correlation_id known)))))
