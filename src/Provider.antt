-- ===== src/Provider.antt =====
-- internal/provider/webhook.go: the senders of each channel, and the choice between them.
-- A sender is a value of the interface `Sender`; the map of senders is an association list.
pub mod Message
pub mod Unchanged
pub mod Choice
pub mod Answers
use insider_one.Prelude.{
  ℕ, String, Bool, ◌||◌, Option, none, some, List, [], ◌∷◌, str_eq, if◌then◌else◌,
}
use insider_one.Prelude.Text.{trim_space, lower_ascii, contains, hex_encode, ◌<>◌}
use insider_one.Provider.Message.{
  DeliveryRequest, DeliveryResponse, Exchange, unsent, undecodable, answered,
}
use insider_one.Runtime.{Env, Error, Fallible, pure, ◌>>=◌, ask, clock}

pub data Sender : Type 0 where
  webhook : (channel endpoint : String) → Sender
  noop : (channel : String) → Sender

pub record Client : Type 0 where
  pub senders : List (String × Sender)

-- What `Send` returns: the response, the status code and the error, which may come with a code.
pub record SendResult : Type 0 where
  pub response : DeliveryResponse
  pub status_code : ℕ
  pub error : Option Error

abbrev pub lookup {ℓ} : {V : Type ℓ} → String → List (String × V) → Option V
lookup key [] = none
lookup key ((k, v) ∷ m) = if str_eq k key then some v else lookup key m

-- `m[key]`, with the zero value at a missing key.
abbrev pub text_at : String → List (String × String) → String
text_at key [] = ""
text_at key ((k, v) ∷ m) = if str_eq k key then v else text_at key m

-- `strings.EqualFold` against a text of lower-case ASCII letters.
abbrev equal_fold : String → String → Bool
equal_fold s t = str_eq (lower_ascii s) t

unfoldable pub noop_endpoint : String → Bool
noop_endpoint endpoint =
    str_eq endpoint ""
    || (equal_fold endpoint "noop://accepted"
        || (contains endpoint "replace-with-your-uuid"
            || (contains endpoint "YOUR-UUID" || contains endpoint "YOUR-REAL-UUID")))

unfoldable pub is_noop_endpoint : String → Bool
unfolding noop_endpoint
is_noop_endpoint endpoint = noop_endpoint (trim_space endpoint)

unfoldable pub new_sender : String → String → Sender
new_sender channel endpoint =
    if is_noop_endpoint endpoint then noop channel else webhook channel endpoint

-- The endpoint of a channel: its own, or the default one.
unfoldable pub endpoint_for : List (String × String) → String → String
endpoint_for endpoints channel =
    let endpoint = text_at channel endpoints in
    if str_eq endpoint "" then text_at "default" endpoints else endpoint

unfoldable pub new_with_endpoints : List (String × String) → Client
unfolding new_sender endpoint_for
new_with_endpoints endpoints = record {
  senders =
      ("sms", new_sender "sms" (endpoint_for endpoints "sms"))
      ∷ ("email", new_sender "email" (endpoint_for endpoints "email"))
      ∷ ("push", new_sender "push" (endpoint_for endpoints "push"))
      ∷ [];
}

-- `New`
unfoldable pub new : String → Client
unfolding new_with_endpoints
new endpoint =
    new_with_endpoints
      (("default", endpoint) ∷ ("sms", endpoint) ∷ ("email", endpoint) ∷ ("push", endpoint) ∷ [])

abbrev pub no_response : DeliveryResponse
no_response = record { message_id = ""; status = ""; timestamp = 0 }

-- What `WebhookSender.Send` makes of an exchange.
unfoldable pub webhook_result : Exchange → SendResult
webhook_result (unsent e) = record { response = no_response; status_code = 0; error = some e }
webhook_result (undecodable code e) = record {
  response = no_response;
  status_code = code;
  error = some ("decode provider response: " <> e);
}
webhook_result (answered code payload) = record {
  response = payload;
  status_code = code;
  error = none;
}

-- The sender of a channel, or the one under "default".
unfoldable pub sender_for : Client → String → Option Sender
sender_for c channel = elim (lookup channel c.senders) [
  | some s ↦ some s
  | none ↦ lookup "default" c.senders
]

module _ (env : Env) where
  id_of : Option (List ℕ) → Fallible String
  id_of (some bytes) = pure (hex_encode bytes)
  id_of none = do now ← clock env; pure (env.time_text "20060102150405.000000000" now)

  -- `randomID`
  unfoldable pub random_id : Fallible String
  unfolding id_of
  random_id = do bytes ← ask env.random; id_of (bytes 16)

  -- `NoopSender.Send`
  unfoldable pub noop_send : Fallible SendResult
  unfolding random_id
  noop_send = do
    id ← random_id
    now ← clock env
    pure (record {
      response = record { message_id = "noop-" <> id; status = "accepted"; timestamp = now };
      status_code = 202;
      error = none;
    })

  -- `WebhookSender.Send`
  unfoldable pub webhook_send : String → DeliveryRequest → Fallible SendResult
  unfolding webhook_result
  webhook_send endpoint req = do
    exchange ← ask env.exchange
    pure (webhook_result (exchange endpoint req))

  unfoldable pub send_by : Option Sender → DeliveryRequest → Fallible SendResult
  send_by (some (webhook channel endpoint)) req = webhook_send endpoint req
  send_by (some (noop channel)) req = noop_send
  send_by none req = pure (record {
    response = no_response;
    status_code = 0;
    error = some ("provider not configured for channel " <> req.channel);
  })

  -- `Client.Send`
  unfoldable pub send : Client → DeliveryRequest → Fallible SendResult
  unfolding sender_for send_by
  send c req = send_by (sender_for c req.channel) req
