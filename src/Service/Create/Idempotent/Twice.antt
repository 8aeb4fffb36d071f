-- ===== src/Service/Create/Idempotent/Twice.antt =====
-- internal/service/service.go, `CreateNotification`: two calls under one idempotency key.
use insider_one.Prelude.{
  ◌≡◌, ◌≢◌, refl, ap, arith, Option, none, ◌∙◌, String, Bool, true, false, not, ◌&&◌, str_eq, some,
  List, [], ◌∷◌, find, if◌then◌else◌,
}
use insider_one.Domain.{NotificationRequest, Notification}
use insider_one.Httpx.Context.{Context, tenant_id_of}
use insider_one.Repository.Lifecycle.{Evolves}
use insider_one.Repository.Schema.{Row, tenant_id, key_is}
use insider_one.Repository.Read.{in_tenant, get_by_idempotency_key}
use insider_one.Repository.Write.{insert_notifications, upsert_request_mapping}
use insider_one.Runtime.{
  Result, ok, err, Error, Env, World, Fallible, pure, raise, ◌>>=◌, attempt, ignore, lift,
  check_ctx, clock,
}
use insider_one.Runtime.After.{After, After->>=, After-attempt, After-if}
use insider_one.Runtime.Keeps.{Keeps, Keeps-pure, Keeps-if, Keeps-ignore}
use insider_one.Service.Create.{
  build_notification, says_unique_failed, note_accepted, after_insert_error, after_insert,
  create_new, existing_or_new, create_notification,
}
use insider_one.Service.Create.Idempotent.Effects.{
  SameRows, same_rows, note_accepted-SameRows, mapping-SameRows,
}
use insider_one.Service.Create.Idempotent.Found.{Finds, not_ok, get-Finds, insert-Finds}
use insider_one.Service.Rules.{validate_request, new_id}

nothing : (row : Row) → Path (Option Row) none (some row) → ⊥
nothing row e = cc

evolved_step :
    (b c : Bool) (r s row : Row) (rest rest' : Option Row)
    → c ≡ b
    → s.id ≡ r.id
    → ((other : Row) → rest ≡ some other → (t : Row) × (rest' ≡ some t) × (t.id ≡ other.id))
    → (if b then some r else rest) ≡ some row
    → (t : Row) × ((if c then some s else rest') ≡ some t) × (t.id ≡ row.id)
evolved_step true true r s row rest rest' same id next e =
    let found : r ≡ row = cc in (s, refl, id ∙ ap (λ (x : Row). x.id) found)
evolved_step true false r s row rest rest' same id next e = absurd (ground arith)
evolved_step false true r s row rest rest' same id next e = absurd (ground arith)
evolved_step false false r s row rest rest' same id next e = next row e

module _ (env : Env) (ctx : Context) (key : String) (k : key ≢ "") where
  abbrev pub Found : Notification → World → Type 0
  Found n w = Finds key (tenant_id_of ctx) n w

  kept-Found : (n : Notification) (w w' : World) → SameRows w.db w'.db → Found n w → Found n w'
  kept-Found n w w' e (row, found, same) = (row, rw e found, same)

  abbrev mapping : String → Fallible (Unit {0})
  mapping batch_id =
      if str_eq key ""
      then pure tt
      else ignore (upsert_request_mapping env key batch_id (tenant_id_of ctx))

  mapping_kept : (batch_id : String) → Keeps SameRows (mapping batch_id)
  mapping_kept batch_id =
      Keeps-if SameRows same_rows (str_eq key "") (Keeps-pure SameRows same_rows tt)
        (Keeps-ignore SameRows same_rows (mapping-SameRows env key batch_id (tenant_id_of ctx)))

  existing-Found : (n : Notification) (w : World) → Found n w → After Found (pure n) w
  existing-Found n w (row, found, same) m e =
      let equal : n ≡ m = cc in (row, found, same ∙ ap (λ (x : Notification). x.id) equal)

  raced-Found :
      (e : Error) (r : Result Notification) (w : World)
      → ((n : Notification) → r ≡ ok n → Found n w)
      → After Found (after_insert_error env ctx key e r) w
  unfolding after_insert_error
  raced-Found e (ok existing) w h = existing-Found existing w (h existing refl)
  raced-Found e (err x) w h = λ n q. absurd (not_ok e n q)

  looked_again-Found :
      (e : Error) (w : World)
      → After Found
          (attempt (get_by_idempotency_key env key (tenant_id_of ctx))
            >>= after_insert_error env ctx key e)
          w
  looked_again-Found e w =
      After-attempt Found (get_by_idempotency_key env key (tenant_id_of ctx)) _ w
        (λ r q. raced-Found e r _ (λ n found. get-Finds env key (tenant_id_of ctx) w n (q ∙ found)))

  after_insert-Found :
      (batch_id : String) (n : Notification) (r : Result (Unit {0})) (w : World)
      → (r ≡ ok tt → Found n w)
      → After Found (after_insert env ctx key batch_id n r) w
  unfolding after_insert
  after_insert-Found batch_id n (err e) w h =
      After-if Found (not (str_eq key "") && says_unique_failed e) _ (raise e) w
        (looked_again-Found e w) (λ n q. absurd (not_ok e n q))
  after_insert-Found batch_id n (ok u) w h =
      let w₁ = (mapping batch_id w).1 in
      After->>= Found _ (mapping batch_id) w (λ mapped e.
        After->>= Found _ (note_accepted env n) w₁ (λ noted e'.
          existing-Found n (note_accepted env n w₁).1 (
            kept-Found n w₁ (note_accepted env n w₁).1 ((note_accepted-SameRows env n).at w₁)
              (kept-Found n w w₁ ((mapping_kept batch_id).at w) (h refl)))))

  create_new-Found :
      (req : NotificationRequest) (batch_id correlation_id : String) (w : World)
      → After Found (create_new env ctx req batch_id correlation_id key) w
  unfolding create_new
  create_new-Found req batch_id correlation_id w = After->>= Found _ (clock env) w (λ now e.
      After->>= Found _ (new_id env) _ (λ id e'.
        let n = build_notification id (tenant_id_of ctx) batch_id correlation_id key now req in
        After-attempt Found (insert_notifications env (n ∷ [])) _ _ (λ r q.
          after_insert-Found batch_id n r _ (λ done.
            insert-Finds env key (tenant_id_of ctx) id batch_id correlation_id now req _ k tt
              (q ∙ done)))))

  looked_up-Found :
      (req : NotificationRequest) (batch_id correlation_id : String) (r : Result Notification)
      (w : World)
      → ((n : Notification) → r ≡ ok n → Found n w)
      → After Found (existing_or_new env ctx req batch_id correlation_id key r) w
  unfolding existing_or_new
  looked_up-Found req batch_id correlation_id (ok existing) w h =
      existing-Found existing w (h existing refl)
  looked_up-Found req batch_id correlation_id (err e) w h =
      create_new-Found req batch_id correlation_id w

  -- What a create under the key returns is found under it.
  pub create_notification-Found :
      (req : NotificationRequest) (batch_id correlation_id : String) (w : World)
      → After Found (create_notification env ctx req batch_id correlation_id key) w
  unfolding create_notification lift
  create_notification-Found req batch_id correlation_id w =
      After->>= Found _ (check_ctx env) w (λ checked e.
        After->>= Found _ (lift (validate_request req)) _ (λ valid e'.
          After-if Found (str_eq key "") (create_new env ctx req batch_id correlation_id key)
            (attempt (get_by_idempotency_key env key (tenant_id_of ctx)) >>= λ existing.
              existing_or_new env ctx req batch_id correlation_id key existing)
            (check_ctx env w).1 (create_new-Found req batch_id correlation_id _)
            (After-attempt Found (get_by_idempotency_key env key (tenant_id_of ctx)) _
              (check_ctx env w).1
              (λ r q.
                looked_up-Found req batch_id correlation_id r _
                  (λ n found. get-Finds env key (tenant_id_of ctx) _ n (q ∙ found))))))

  evolved-Found :
      (n : Notification) (rows later : List Row)
      → Evolves rows later
      → (row : Row)
      → find (λ r. key_is r.idempotency_key key && in_tenant (tenant_id (tenant_id_of ctx)) r) rows
        ≡ some row
      → (s : Row) × (find
            (λ r. key_is r.idempotency_key key && in_tenant (tenant_id (tenant_id_of ctx)) r)
            later
          ≡ some s)
        × (s.id ≡ row.id)
  evolved-Found n [] later h row e = absurd (nothing row e)
  evolved-Found n (r ∷ rows) [] h row e = absurd h
  evolved-Found n (r ∷ rows) (s ∷ later) h row e =
      let key_same : s.idempotency_key ≡ r.idempotency_key = h.0.same.idempotency_key in
      evolved_step (key_is r.idempotency_key key && in_tenant (tenant_id (tenant_id_of ctx)) r)
        (key_is s.idempotency_key key && in_tenant (tenant_id (tenant_id_of ctx)) s) r s row _ _
        (rw key_same (rw h.0.same.tenant_id refl)) h.0.same.id
        (λ other found. evolved-Found n rows later h.1 other found) e

  -- It is found as long as the rows go on.
  pub Found-Evolves :
      (n : Notification) (w w' : World)
      → Evolves w.db.notifications w'.db.notifications
      → Found n w
      → Found n w'
  Found-Evolves n w w' h (row, e, same) =
      let (s, e', same') = evolved-Found n w.db.notifications w'.db.notifications h row e in
      (s, e', same' ∙ same)
