-- ===== src/Service/Create/Idempotent.antt =====
-- internal/service/service.go, `CreateNotification`: the returns before anything is inserted.
pub mod Effects
pub mod Found
pub mod Twice
pub mod Batch
use insider_one.Prelude.{
  suc, ◌≡◌, refl, ◌≢◌, ap, ◌∙◌, String, Bool, false, ◌&&◌, Option, none, some, find, str_eq, eq_iff,
  arith, if◌then◌else◌,
}
use insider_one.Domain.{NotificationRequest, Notification}
use insider_one.Httpx.Context.{Context, tenant_id_of}
use insider_one.Repository.Schema.{Row, tenant_id, key_is, scan_notification}
use insider_one.Repository.Read.{one_row, map_option, in_tenant, get_by_idempotency_key}
use insider_one.Runtime.{Result, ok, err, Error, Env, World, taken, ◌>>=◌, attempt, lift, check_ctx}
use insider_one.Runtime.Steps.{
  >>=-ok, >>=-err, attempt-step, tick_on, check_ctx-ok, check_ctx-err, query-ok,
}
use insider_one.Service.Rules.Checks.{IsValid, validate_request_iff}
use insider_one.Service.Rules.{validate_request}
use insider_one.Service.Create.{create_new, existing_or_new, create_notification}

-- The row of a tenant under an idempotency key, as the SELECT finds it.
abbrev row_by_key : String → String → World → Option Row
row_by_key key tenant w =
    find (λ r. key_is r.idempotency_key key && in_tenant (tenant_id tenant) r) w.db.notifications

not_empty : {s : String} → s ≢ "" → str_eq s "" ≡ false
not_empty {s = s} h = ground (arith, eq_iff s "")

module _ (env : Env) (ctx : Context) (req : NotificationRequest)
    (batch_id correlation_id key : String) (w : World) where
  ended_request :
      (e : Error)
      → env.ctx_err w.tick ≡ some e
      → create_notification env ctx req batch_id correlation_id key w ≡ (err e, tick_on w)
  unfolding create_notification
  ended_request e c = >>=-err (check_ctx env) _ w (tick_on w) e (check_ctx-err env w e c)

  refused_request :
      (e : Error)
      → env.ctx_err w.tick ≡ none
      → validate_request req ≡ err e
      → let (r, w') = create_notification env ctx req batch_id correlation_id key w in
        (r ≡ err e) × (w'.db ≡ w.db)
  unfolding create_notification lift
  refused_request e c v =
      let p : create_notification env ctx req batch_id correlation_id key w ≡ (err e, tick_on w) =
        >>=-ok (check_ctx env) _ w (tick_on w) tt (check_ctx-ok env w c)
        ∙ >>=-err (lift (validate_request req)) _ (tick_on w) (tick_on w) e
            (ap (λ (r : Result (Unit {0})). (r, tick_on w)) v) in
      (
        ap (λ (x : Result Notification × World). x.0) p,
        ap (λ (x : Result Notification × World). x.1.db) p,
      )

  -- Whether the context is cancelled or not, a request whose recipient or content is blank, whose channel is
  -- not sms, email or push, or whose content is too long for its channel is answered with an error
  -- and no notification, under whatever key, and no table changes.
  pub create_notification-invalid :
      (IsValid req → ⊥)
      → let (r, w') = create_notification env ctx req batch_id correlation_id key w in
        ((e : Error) × (r ≡ err e)) × (w'.db ≡ w.db)
  create_notification-invalid invalid =
      decided (env.ctx_err w.tick) refl (validate_request req) refl
    where
      decided :
          (o : Option Error)
          → env.ctx_err w.tick ≡ o
          → (v : Result (Unit {0})) → validate_request req ≡ v
          → let (r, w') = create_notification env ctx req batch_id correlation_id key w in
            ((e : Error) × (r ≡ err e)) × (w'.db ≡ w.db)
      decided o c (ok u) v = absurd (invalid ((validate_request_iff req).0 v))
      decided none c (err e) v = let (p, q) = refused_request e c v in ((e, p), q)
      decided (some x) c (err e) v = (
        (x, ap (λ (y : Result Notification × World). y.0) (ended_request x c)),
        ap (λ (y : Result Notification × World). y.1.db) (ended_request x c),
      )

  -- A valid request under a key that a row of the caller's tenant has already is answered with
  -- that row, and no table changes, where the context is not cancelled and the database answers.
  pub create_notification-known_key :
      (row : Row)
      → env.ctx_err w.tick ≡ none
      → env.fault (suc w.tick) ≡ taken
      → validate_request req ≡ ok tt
      → key ≢ ""
      → row_by_key key (tenant_id_of ctx) w ≡ some row
      → let (r, w') = create_notification env ctx req batch_id correlation_id key w in
        (r ≡ ok (scan_notification row)) × (w'.db ≡ w.db)
  unfolding create_notification existing_or_new lift get_by_idempotency_key
  create_notification-known_key row c f v k h =
      let w₁ = tick_on w in
      let found : get_by_idempotency_key env key (tenant_id_of ctx) w₁
          ≡ (ok (scan_notification row), tick_on w₁) =
        query-ok env w₁ _ f
        ∙ ap
            (λ (o : Option Row). (one_row env.no_rows (map_option scan_notification o), tick_on w₁))
            h in
      let p : create_notification env ctx req batch_id correlation_id key w
          ≡ (ok (scan_notification row), tick_on w₁) =
        >>=-ok (check_ctx env) _ w w₁ tt (check_ctx-ok env w c)
        ∙ >>=-ok (lift (validate_request req)) _ w₁ w₁ tt
            (ap (λ (r : Result (Unit {0})). (r, w₁)) v)
        ∙ ap
            (λ (b : Bool).
              (if b
                  then create_new env ctx req batch_id correlation_id key
                  else attempt (get_by_idempotency_key env key (tenant_id_of ctx))
                    >>= existing_or_new env ctx req batch_id correlation_id key)
                w₁)
            (not_empty k)
        ∙ >>=-ok _ (existing_or_new env ctx req batch_id correlation_id key) w₁ (tick_on w₁)
            (ok (scan_notification row)) (attempt-step _ w₁ (tick_on w₁) _ found) in
      (
        ap (λ (x : Result Notification × World). x.0) p,
        ap (λ (x : Result Notification × World). x.1.db) p,
      )
