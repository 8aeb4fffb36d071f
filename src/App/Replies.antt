-- ===== src/App/Replies.antt =====
-- internal/app/app.go: what the ends of the handlers return.
use insider_one.Prelude.{ℕ, String, ◌≡◌, refl, true, List, [], ◌∷◌, exists, ◌==◌, str_eq}
use insider_one.Prelude.Int.{ℤ}
use insider_one.Domain.{Notification, DeliveryEvent}
use insider_one.App.Responses.{Envelope, build_response_meta, ResponseMeta}
use insider_one.App.Tracing.{is_code, HasIds, IsTraced, IsAnswer}
use insider_one.App.Writing.{
  write_json, write_error, correlation_id, corr_id, new_id, answer_notification, answer_created,
  answer_batch, answer_cancelled, answer_list, answer_events, answer_metrics,
}
use insider_one.Httpx.Context.{Context, request_id_of, correlation_id_of}
use insider_one.Httpx.Message.{Request, Response, encoded}
use insider_one.Metrics.{ChannelSnapshot}
use insider_one.Runtime.{Env, Error, Result, ok, err, Fallible, ◌>>=◌, attempt}
use insider_one.Runtime.Returns.{
  Returns, Any, Returns-pure, Returns-if, Returns-then, Returns->>=, Returns-attempt, Returns-clock,
}

module _ (env : Env) where
  pub identified-meta :
      (ctx : Context)
      → Returns (HasIds (request_id_of ctx) (correlation_id_of ctx)) (build_response_meta env ctx)
  unfolding build_response_meta
  identified-meta ctx = Returns->>= _ (Returns-clock env) (λ now. Returns-pure _ _ (refl, refl))

  pub Returns-with_meta :
      (ctx : Context) (status : ℕ) (envelope : ResponseMeta → Envelope)
      → ((meta : ResponseMeta) → is_code (encoded (envelope meta)) status ≡ true)
      → ((meta : ResponseMeta)
          → HasIds (request_id_of ctx) (correlation_id_of ctx) meta
          → IsTraced (request_id_of ctx) (correlation_id_of ctx) (encoded (envelope meta)))
      → Returns
          (IsAnswer ctx)
          (build_response_meta env ctx >>= (λ meta. write_json status (envelope meta)))
  unfolding write_json
  Returns-with_meta ctx status envelope h carries =
      Returns-then (IsAnswer ctx) (HasIds (request_id_of ctx) (correlation_id_of ctx))
        (identified-meta ctx) (λ meta ids. Returns-pure (IsAnswer ctx) _ (h meta, carries meta ids))

  pub Returns-write_error :
      (status : ℕ) (code : String) (e : Error) (ctx : Context)
      → exists (λ c. c == status) (400 ∷ 404 ∷ []) ≡ true
      → Returns (IsAnswer ctx) (write_error env status code e ctx)
  unfolding write_error
  Returns-write_error status code e ctx h =
      Returns-with_meta ctx status _ (λ meta. h) (λ meta ids. ids)

  pub Returns-corr_id : (ctx : Context) (r : Request) → Returns Any (corr_id env ctx r)
  unfolding corr_id correlation_id
  Returns-corr_id ctx r =
      Returns-if Any (str_eq (correlation_id_of ctx) "")
        (Returns-if Any (str_eq (r.header "X-Correlation-Id") "")
          (Returns->>= Any (Returns-clock env) (λ now. Returns-pure Any _ tt))
          (Returns-pure Any _ tt))
        (Returns-pure Any _ tt)

  pub Returns-new_id : Returns Any (new_id env)
  unfolding new_id
  Returns-new_id = Returns->>= Any (Returns-clock env) (λ now. Returns-pure Any _ tt)

  pub Returns-answer_notification :
      (status failure : ℕ) (code : String) (ctx : Context) (result : Result Notification)
      → exists (λ c. c == status) (200 ∷ 201 ∷ []) ≡ true
      → exists (λ c. c == failure) (400 ∷ 404 ∷ []) ≡ true
      → Returns (IsAnswer ctx) (answer_notification env status failure code ctx result)
  unfolding answer_notification
  Returns-answer_notification status failure code ctx (ok n) h k =
      Returns-with_meta ctx status _ (λ meta. h) (λ meta ids. ids)
  Returns-answer_notification status failure code ctx (err e) h k =
      Returns-write_error failure code e ctx k

  pub Returns-answer_created :
      (ctx : Context) (result : Result (String × List Notification))
      → Returns (IsAnswer ctx) (answer_created env ctx result)
  unfolding answer_created
  Returns-answer_created ctx (ok (batch_id, items)) =
      Returns-with_meta ctx 201 _ (λ meta. refl) (λ meta ids. ids)
  Returns-answer_created ctx (err e) = Returns-write_error 400 _ e ctx refl

  pub Returns-answer_batch :
      (batch_id : String) (ctx : Context) (result : Result (List Notification))
      → Returns (IsAnswer ctx) (answer_batch env batch_id ctx result)
  unfolding answer_batch
  Returns-answer_batch batch_id ctx (ok items) =
      Returns-with_meta ctx 200 _ (λ meta. refl) (λ meta ids. ids)
  Returns-answer_batch batch_id ctx (err e) = Returns-write_error 404 _ e ctx refl

  pub Returns-answer_cancelled :
      (ids : List String) (ctx : Context) (result : Result ℕ)
      → Returns (IsAnswer ctx) (answer_cancelled env ids ctx result)
  unfolding answer_cancelled
  Returns-answer_cancelled ids ctx (ok count) =
      Returns-with_meta ctx 200 _ (λ meta. refl) (λ meta ids. ids)
  Returns-answer_cancelled ids ctx (err e) = Returns-write_error 400 _ e ctx refl

  pub Returns-answer_list :
      (limit : ℕ) (offset : ℤ) (ctx : Context) (result : Result (List Notification))
      → Returns (IsAnswer ctx) (answer_list env limit offset ctx result)
  unfolding answer_list
  Returns-answer_list limit offset ctx (ok items) =
      Returns-with_meta ctx 200 _ (λ meta. refl) (λ meta ids. ids)
  Returns-answer_list limit offset ctx (err e) = Returns-write_error 400 _ e ctx refl

  pub Returns-answer_events :
      (limit : ℕ) (offset : ℤ) (ctx : Context) (result : Result (List DeliveryEvent))
      → Returns (IsAnswer ctx) (answer_events env limit offset ctx result)
  unfolding answer_events
  Returns-answer_events limit offset ctx (ok items) =
      Returns-with_meta ctx 200 _ (λ meta. refl) (λ meta ids. ids)
  Returns-answer_events limit offset ctx (err e) = Returns-write_error 400 _ e ctx refl

  pub Returns-answer_metrics :
      (ctx : Context) (result : Result (List ChannelSnapshot))
      → Returns (IsAnswer ctx) (answer_metrics env result)
  unfolding answer_metrics write_json
  Returns-answer_metrics ctx (ok snapshot) = Returns-pure (IsAnswer ctx) _ (refl, tt)
  Returns-answer_metrics ctx (err e) = Returns-pure (IsAnswer ctx) _ (refl, tt)

  pub attempted :
      {A : Type 0} {f : Result A → Fallible (Response Envelope)} (ctx : Context) (m : Fallible A)
      → ((result : Result A) → Returns (IsAnswer ctx) (f result))
      → Returns (IsAnswer ctx) (attempt m >>= f)
  attempted ctx m h = Returns->>= (IsAnswer ctx) (Returns-attempt m) h
