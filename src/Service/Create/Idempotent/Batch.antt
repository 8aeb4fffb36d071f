-- ===== src/Service/Create/Idempotent/Batch.antt =====
-- internal/service/service.go, `CreateBatch`: a key that has a batch.
use insider_one.Prelude.{
  suc, ◌≤◌, ◌≡◌, ◌≢◌, ap, ◌∙◌, String, false, ◌&&◌, ◌==◌, ltb, some, List, find, keep_if, length,
  map, arith, str_eq,
}
use insider_one.Domain.{Notification, NotificationBatchRequest}
use insider_one.Httpx.Context.{Context, tenant_id_of}
use insider_one.Repository.Schema.{RequestRow, tenant_id, key_is, scan_notification}
use insider_one.Repository.Read.{
  one_row, map_option, in_tenant, oldest_first, get_batch_id_by_key, get_by_batch,
}
use insider_one.Repository.Sort.{sort_by}
use insider_one.Runtime.{Result, ok, Env, World, taken, ◌>>=◌, pure, attempt, check_ctx}
use insider_one.Runtime.Steps.{>>=-ok, attempt-step, tick_on, check_ctx-ok, query-ok}
use insider_one.Service.Create.{batch_or_new, create_batch}
use insider_one.Service.Create.Idempotent.{not_empty}
use insider_one.Prelude.{Option}
use insider_one.Prelude.{none}

-- The notifications of a batch, the oldest first.
abbrev pub batch_of : String → String → World → List Notification
batch_of batch_id tenant w = map scan_notification (
    sort_by oldest_first (
      keep_if (λ r. str_eq r.batch_id batch_id && in_tenant (tenant_id tenant) r)
        w.db.notifications))

-- The mapping of a tenant under a request key, as the SELECT finds it.
abbrev pub mapping_by_key : String → String → World → Option RequestRow
mapping_by_key key tenant w =
    find (λ r. key_is r.idempotency_key key && str_eq r.tenant_id (tenant_id tenant)) w.db.requests

module _ (env : Env) (ctx : Context) (req : NotificationBatchRequest) (correlation_id : String)
    (w : World) where
  -- A batch request under a key for which the caller's tenant has a mapping is answered with the mapping's
  -- batch and the tenant's notifications in it, and no table changes, where the request has 1 to 1000 items,
  -- the context is live and the database answers the two SELECTs. The items are not looked at.
  pub create_batch-known_key :
      (row : RequestRow)
      → 1 ≤ length req.notifications
      → length req.notifications ≤ 1000
      → req.idempotency_key ≢ ""
      → env.ctx_err w.tick ≡ none
      → env.fault (suc w.tick) ≡ taken
      → env.fault (suc (suc w.tick)) ≡ taken
      → mapping_by_key req.idempotency_key (tenant_id_of ctx) w ≡ some row
      → let (r, w') = create_batch env ctx req correlation_id w in
        (r ≡ ok (row.batch_id, batch_of row.batch_id (tenant_id_of ctx) w)) × (w'.db ≡ w.db)
  unfolding create_batch batch_or_new get_batch_id_by_key get_by_batch
  create_batch-known_key row some_items few k c f g h =
      let w₁ = tick_on w in
      let w₂ = tick_on w₁ in
      let key = req.idempotency_key in
      let tenant = tenant_id_of ctx in
      let known : get_batch_id_by_key env key tenant w₁ ≡ (ok row.batch_id, w₂) =
        query-ok env w₁ _ f
        ∙ ap
            (λ (o : Option RequestRow).
              (one_row env.no_rows (map_option (λ (r : RequestRow). r.batch_id) o), w₂))
            h in
      let found : (attempt (get_batch_id_by_key env key tenant)
              >>= batch_or_new env ctx req correlation_id)
            w₁
          ≡ (ok (row.batch_id, batch_of row.batch_id tenant w), tick_on w₂) =
        >>=-ok _ (batch_or_new env ctx req correlation_id) w₁ w₂ (ok row.batch_id)
          (attempt-step _ w₁ w₂ _ known)
        ∙ >>=-ok (get_by_batch env row.batch_id tenant) (λ existing. pure (row.batch_id, existing))
            w₂ (tick_on w₂) (batch_of row.batch_id tenant w) (query-ok env w₂ _ g) in
      let not_none : (length req.notifications == 0) ≡ false = ground arith in
      let not_many : ltb 1000 (length req.notifications) ≡ false = ground arith in
      let p : create_batch env ctx req correlation_id w
          ≡ (ok (row.batch_id, batch_of row.batch_id tenant w), tick_on w₂) =
        >>=-ok (check_ctx env) _ w w₁ tt (check_ctx-ok env w c)
        ∙ rw not_none (rw not_many (rw (not_empty k) found)) in
      (
        ap (λ (x : Result (String × List Notification) × World). x.0) p,
        ap (λ (x : Result (String × List Notification) × World). x.1.db) p,
      )
