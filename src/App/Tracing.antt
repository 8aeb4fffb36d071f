-- ===== src/App/Tracing.antt =====
-- internal/app/app.go and responses.go: the status, the headers and the ids of an answer.
use insider_one.Prelude.{ℕ, String, ◌≡◌, Bool, true, exists, ◌==◌, List, [], ◌∷◌}
use insider_one.App.Responses.{
  ResponseMeta, Envelope, notification, batch, notifications, events, cancelled, health, error,
  metrics, metrics_error, swagger_page, specification,
}
use insider_one.Httpx.Context.{Context, request_id_of, correlation_id_of}
use insider_one.Httpx.Message.{Request, Response, Payload, encoded, error_map}
use insider_one.Httpx.Middleware.Metadata.{IsIdFor, correlation_for}

-- The statuses with which a body is written: an error with 400 or 404, the refusal of a key with 401, a
-- notification or a batch with 200 or 201, the text of the specification, or that it is not there, with
-- 200 or 500, and every other with 200.
abbrev pub codes_of : Payload Envelope → List ℕ
codes_of (error_map e code) = 401 ∷ []
codes_of (encoded (error message code meta)) = 400 ∷ 404 ∷ []
codes_of (encoded (notification n meta)) = 200 ∷ 201 ∷ []
codes_of (encoded (batch batch_id count ns meta)) = 200 ∷ 201 ∷ []
codes_of (encoded (notifications ns page meta)) = 200 ∷ []
codes_of (encoded (events es page meta)) = 200 ∷ []
codes_of (encoded (cancelled count ids meta)) = 200 ∷ []
codes_of (encoded (health status service uptime_ms meta)) = 200 ∷ []
codes_of (encoded (metrics snapshot)) = 200 ∷ []
codes_of (encoded (metrics_error e)) = 200 ∷ []
codes_of (encoded swagger_page) = 200 ∷ []
codes_of (encoded (specification text)) = 200 ∷ 500 ∷ []

abbrev pub is_code : Payload Envelope → ℕ → Bool
is_code payload status = exists (λ code. code == status) (codes_of payload)

-- The ids in the meta of a body.
abbrev pub HasIds : (request_id correlation_id : String) → ResponseMeta → Type 0
HasIds request_id correlation_id meta =
    (meta.request_id ≡ request_id) × (meta.correlation_id ≡ correlation_id)

-- A body has these ids in its meta, if it has one.
abbrev pub IsTraced : (request_id correlation_id : String) → Payload Envelope → Type 0
IsTraced rid cid (encoded (notification n meta)) = HasIds rid cid meta
IsTraced rid cid (encoded (batch batch_id count ns meta)) = HasIds rid cid meta
IsTraced rid cid (encoded (notifications ns page meta)) = HasIds rid cid meta
IsTraced rid cid (encoded (events es page meta)) = HasIds rid cid meta
IsTraced rid cid (encoded (cancelled count ids meta)) = HasIds rid cid meta
IsTraced rid cid (encoded (health status service uptime_ms meta)) = HasIds rid cid meta
IsTraced rid cid (encoded (error message code meta)) = HasIds rid cid meta
IsTraced rid cid _ = Unit

-- A response to a request with the ids of the context: its status is one of those for its
-- body, which has the ids if it has a meta.
abbrev pub IsAnswer : Context → Response Envelope → Type 0
IsAnswer ctx response =
    (is_code response.payload response.status ≡ true)
    × IsTraced (request_id_of ctx) (correlation_id_of ctx) response.payload

-- A response with the ids of the request in its first headers and in its body.
abbrev pub IsStamped : Request → Response Envelope → Type 0
IsStamped r response =
    (request_id : String) × (others : List (String × String)) × IsIdFor r request_id
    × (is_code response.payload response.status ≡ true)
    × (response.headers
        ≡ ("X-Request-Id", request_id)
          ∷ ("X-Correlation-Id", correlation_for r request_id)
          ∷ others)
    × IsTraced request_id (correlation_for r request_id) response.payload
