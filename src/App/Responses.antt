-- ===== src/App/Responses.antt =====
-- internal/app/responses.go: the envelopes. Their times are texts.
use insider_one.Prelude.{ℕ, String, Bool, List}
use insider_one.Prelude.Int.{ℤ}
use insider_one.Domain.{Notification, DeliveryEvent}
use insider_one.Httpx.Context.{Context, request_id_of, correlation_id_of}
use insider_one.Metrics.{ChannelSnapshot}
use insider_one.Runtime.{Env, Error, Fallible, pure, ◌>>=◌, clock}

pub record ResponseMeta : Type 0 where
  pub request_id : String
  pub correlation_id : String
  pub timestamp : String

pub record PaginationMeta : Type 0 where
  pub limit : ℕ
  pub offset : ℤ
  pub returned : ℕ
  pub has_more : Bool

-- One constructor for each type that is written as JSON, and the pages of the documentation. A list
-- of rows that is `[]` is a nil slice, which encoding/json writes as `null`.
pub data Envelope : Type 0 where
  notification : Notification → ResponseMeta → Envelope
  batch : (batch_id : String) → (count : ℕ) → List Notification → ResponseMeta → Envelope
  notifications : List Notification → PaginationMeta → ResponseMeta → Envelope
  events : List DeliveryEvent → PaginationMeta → ResponseMeta → Envelope
  cancelled : (count : ℕ) → (ids : List String) → ResponseMeta → Envelope
  health : (status service : String) → (uptime_ms : ℕ) → ResponseMeta → Envelope
  error : (message code : String) → ResponseMeta → Envelope
  metrics : List ChannelSnapshot → Envelope
  metrics_error : Error → Envelope
  swagger_page : Envelope
  specification : String → Envelope

module _ (env : Env) where
  -- `buildResponseMeta`
  unfoldable pub build_response_meta : Context → Fallible ResponseMeta
  build_response_meta ctx = do
    now ← clock env
    pure (record {
      request_id = request_id_of ctx;
      correlation_id = correlation_id_of ctx;
      timestamp = env.time_text "2006-01-02T15:04:05.999999999Z07:00" now;
    })
