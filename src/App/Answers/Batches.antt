-- ===== src/App/Answers/Batches.antt =====
-- internal/app/app.go, `handleGetBatch`: the answer for a batch that is not there.
use mathlib.Core.Path.{subst}
use insider_one.Prelude.{
  String, ◌≡◌, refl, sym, ap, ◌∙◌, Bool, false, ◌&&◌, List, [], ◌∷◌, arith, exists, keep_if, map,
  str_eq,
}
use insider_one.App.{App}
use insider_one.App.Handlers.{Codec, handle_get_batch}
use insider_one.App.Responses.{ResponseMeta, batch, build_response_meta}
use insider_one.App.Writing.{answer_batch, write_json}
use insider_one.Httpx.Context.{Context, tenant_id_of}
use insider_one.Httpx.Message.{Request, encoded}
use insider_one.Repository.Read.{in_tenant, get_by_batch, oldest_first}
use insider_one.Repository.Schema.{Row, tenant_id, scan_notification}
use insider_one.Repository.Sort.{sort_by}
use insider_one.Runtime.{ok, Env, World, ◌>>=◌, attempt, check_ctx, clock, ask}
use insider_one.Runtime.Ends.{Ends, IsCalm}
use insider_one.Runtime.Steps.{>>=-ok, attempt-step, tick_on, check_ctx-ok, query-ok}
use insider_one.Service as Services

none_kept : (p : Row → Bool) (rows : List Row) → exists p rows ≡ false → keep_if p rows ≡ []
none_kept p [] h = refl
none_kept p (r ∷ rows) h = ground (arith, none_kept p rows)

abbrev pub in_batch : String → String → Row → Bool
in_batch batch_id tenant r = str_eq r.batch_id batch_id && in_tenant (tenant_id tenant) r

module _ (env : Env) (calm : IsCalm env) (ctx : Context) (batch_id : String) (w : World)
    (missing : exists (in_batch batch_id (tenant_id_of ctx)) w.db.notifications ≡ false) where
  get_batch-empty : Services.get_batch env ctx batch_id w ≡ (ok [], tick_on (tick_on w))
  unfolding Services.get_batch get_by_batch sort_by
  get_batch-empty =
      >>=-ok (check_ctx env) _ w (tick_on w) tt (check_ctx-ok env w (calm.live w.tick))
      ∙ query-ok env (tick_on w) _ (calm.works (tick_on w).tick)
      ∙ ap
          (λ (rows : List Row).
            (ok (map scan_notification (sort_by oldest_first rows)), tick_on (tick_on w)))
          (none_kept (in_batch batch_id (tenant_id_of ctx)) w.db.notifications missing)

-- Where PostgreSQL takes every statement with its values, which it does not for an id with a NUL, and
-- the context is live, a request for a batch of which the caller's tenant has no notification is
-- answered 200 with the count 0 and the nil slice that `[]` stands for, written `null`, and not 404; no
-- table changes.
pub handle_get_batch-missing :
    (env : Env) (calm : IsCalm env) (codec : Codec) (a : App) (ctx : Context) (r : Request)
    (w : World)
    → exists (in_batch (r.path_value "id") (tenant_id_of ctx)) w.db.notifications ≡ false
    → Ends
        (λ response w'.
          (response.status ≡ 200)
          × ((meta : ResponseMeta) × (response.payload
                ≡ encoded (batch (r.path_value "id") 0 [] meta)))
          × (w'.db ≡ w.db))
        (handle_get_batch env codec a ctx r w)
unfolding handle_get_batch answer_batch build_response_meta write_json clock ask ◌>>=◌
handle_get_batch-missing env calm codec a ctx r w missing =
    let id = r.path_value "id" in
    let answer = answer_batch env id ctx in
    subst
      (Ends (λ response w'.
        (response.status ≡ 200)
        × ((meta : ResponseMeta) × (response.payload ≡ encoded (batch id 0 [] meta)))
        × (w'.db ≡ w.db)))
      (sym (
        >>=-ok (attempt (Services.get_batch env ctx id)) answer w (tick_on (tick_on w)) (ok []) (
          attempt-step (Services.get_batch env ctx id) w (tick_on (tick_on w)) (ok [])
            (get_batch-empty env calm ctx id w missing))))
      (refl, (_, refl), refl)
