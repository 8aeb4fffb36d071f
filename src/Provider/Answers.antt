-- ===== src/Provider/Answers.antt =====
-- internal/provider/webhook.go: the answers of `Send`.
use insider_one.Prelude.{ℕ, String, ◌≡◌, refl, Option, none, some, List}
use insider_one.Provider.{
  Client, Sender, SendResult, webhook, noop, sender_for, send_by, send, noop_send, webhook_send,
  random_id, id_of,
}
use insider_one.Prelude.Text.{◌<>◌}
use insider_one.Provider.Message.{DeliveryRequest}
use insider_one.Runtime.{Env, World, Fallible, pure, ◌>>=◌, ask, clock}
use insider_one.Runtime.Ends.{Ends, Ends->>=}
use insider_one.Runtime.Steps.{tick_on}

module _ (env : Env) where
  noop_from :
      (bytes : Option (List ℕ)) (w : World) → Ends (λ _ w'. w'.db ≡ w.db) (id_of env bytes w)
  unfolding id_of clock ask ◌>>=◌
  noop_from (some bytes) w = refl
  noop_from none w = refl

  noop_send-answers : (w : World) → Ends (λ _ w'. w'.db ≡ w.db) (noop_send env w)
  unfolding noop_send random_id ask ◌>>=◌ clock
  noop_send-answers w =
      let answer : String → Fallible SendResult = λ id. clock env >>= λ now. pure (record {
        response = record { message_id = "noop-" <> id; status = "accepted"; timestamp = now };
        status_code = 202;
        error = none;
      }) in
      Ends->>= (λ _ w'. w'.db ≡ w.db) answer (random_id env) w
        (noop_from (env.random w.tick 16) (tick_on w))

  send_by-answers :
      (sender : Option Sender) (req : DeliveryRequest) (w : World)
      → Ends (λ _ w'. w'.db ≡ w.db) (send_by env sender req w)
  unfolding send_by webhook_send ask ◌>>=◌
  send_by-answers (some (webhook channel endpoint)) req w = refl
  send_by-answers (some (noop channel)) req w = noop_send-answers w
  send_by-answers none req w = refl

  -- `Client.Send` comes back and changes no table.
  pub send-answers :
      (c : Client) (req : DeliveryRequest) (w : World)
      → Ends (λ _ w'. w'.db ≡ w.db) (send env c req w)
  unfolding send
  send-answers c req w = send_by-answers (sender_for c req.channel) req w
