-- ===== src/Httpx/Middleware/Metadata.antt =====
-- internal/httpx/middleware.go: what `WithRequestMetadata` adds to a request and its response.
use insider_one.Prelude.{
  ℕ, suc, String, eq_iff, ◌≢◌, ◌≡◌, refl, inl, inr, ◌∷◌, str_eq, if◌then◌else◌, Bool-cases,
}
use insider_one.Httpx.Context.{Context, with_request_id, with_correlation_id}
use insider_one.Httpx.Message.{Request, Response, Handler}
use insider_one.Httpx.Middleware.{request_id_from_clock, with_request_metadata}
use insider_one.Runtime.{Env, World, pure, ◌>>=◌, clock, ask}
use insider_one.Runtime.Ends.{Ends, Ends->>=}

-- The request's own id, where it has one.
abbrev pub IsIdFor : Request → String → Type 0
IsIdFor r request_id = r.header "X-Request-Id" ≢ "" → request_id ≡ r.header "X-Request-Id"

-- The correlation id of the request, or else the request id.
abbrev pub correlation_for : Request → String → String
correlation_for r request_id =
    if str_eq (r.header "X-Correlation-Id") "" then request_id else r.header "X-Correlation-Id"

module _ {B : Type 0} (env : Env) (next : Handler B) (ctx : Context) (r : Request) where
  -- The response with the two headers in front.
  abbrev pub stamped : String → Response B → Response B
  stamped request_id response = record response {
    headers =
        ("X-Request-Id", request_id)
        ∷ ("X-Correlation-Id", correlation_for r request_id)
        ∷ response.headers;
  }

  abbrev pub identified : String → Context
  identified request_id =
      with_correlation_id (with_request_id ctx request_id) (correlation_for r request_id)

  -- What the next handler ends in, with any request id and with the tables and the metrics of
  -- before, the middleware ends in.
  pub Ends-with_metadata :
      (Q : Response B → World → Type 0) (w : World)
      → ((request_id : String) (tick : ℕ)
          → IsIdFor r request_id
          → Ends
              (λ response w'. Q (stamped request_id response) w')
              (next (identified request_id) r (record w { tick = tick })))
      → Ends Q (with_request_metadata env next ctx r w)
  unfolding with_request_metadata request_id_from_clock ◌>>=◌ clock ask
  Ends-with_metadata Q w h =
      let id = r.header "X-Request-Id" in
      let now = env.time_text "20060102T150405.000000000Z07:00" (env.now w.tick) in
      elim (Bool-cases (str_eq id "")) [
        | inl e ↦ rw e (
            Ends->>= Q (λ response. pure (stamped now response)) (next (identified now) r) _
              (h now (suc w.tick) (λ n. absurd (n ((eq_iff id "").0 e)))))
        | inr e ↦ rw e (
            Ends->>= Q (λ response. pure (stamped id response)) (next (identified id) r) _
              (h id w.tick (λ n. refl)))
      ]
