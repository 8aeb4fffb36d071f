-- ===== src/Provider/Unchanged.antt =====
-- internal/provider/webhook.go: the effect of a delivery on the tables.
use insider_one.Prelude.{ℕ, String, Option, none, some, List}
use insider_one.Provider.Message.{DeliveryRequest}
use insider_one.Provider.{
  Client, Sender, webhook, noop, id_of, random_id, noop_send, webhook_send, send_by, sender_for,
  send,
}
use insider_one.Runtime.{Env}
use insider_one.Runtime.Keeps.{Keeps, Keeps-pure, Keeps->>=, Keeps-ask, Keeps-clock}
use insider_one.Runtime.From.{Unchanged, unchanged}

module _ (env : Env) where
  id_of-Unchanged : (bytes : Option (List ℕ)) → Keeps Unchanged (id_of env bytes)
  unfolding id_of
  id_of-Unchanged (some bytes) = Keeps-pure Unchanged unchanged _
  id_of-Unchanged none =
      Keeps->>= Unchanged unchanged (Keeps-clock Unchanged unchanged env)
        (λ now. Keeps-pure Unchanged unchanged (env.time_text _ now))

  noop_send-Unchanged : Keeps Unchanged (noop_send env)
  unfolding noop_send random_id
  noop_send-Unchanged =
      Keeps->>= Unchanged unchanged
        (Keeps->>= Unchanged unchanged (Keeps-ask Unchanged unchanged env.random)
          (λ bytes. id_of-Unchanged (bytes 16)))
        (λ id.
          Keeps->>= Unchanged unchanged (Keeps-clock Unchanged unchanged env)
            (λ now. Keeps-pure Unchanged unchanged _))

  webhook_send-Unchanged :
      (endpoint : String) (req : DeliveryRequest) → Keeps Unchanged (webhook_send env endpoint req)
  unfolding webhook_send
  webhook_send-Unchanged endpoint req =
      Keeps->>= Unchanged unchanged (Keeps-ask Unchanged unchanged env.exchange)
        (λ x. Keeps-pure Unchanged unchanged _)

  send_by-Unchanged :
      (s : Option Sender) (req : DeliveryRequest) → Keeps Unchanged (send_by env s req)
  unfolding send_by
  send_by-Unchanged (some (webhook channel endpoint)) req = webhook_send-Unchanged endpoint req
  send_by-Unchanged (some (noop channel)) req = noop_send-Unchanged
  send_by-Unchanged none req = Keeps-pure Unchanged unchanged _

  pub send-Unchanged : (c : Client) (req : DeliveryRequest) → Keeps Unchanged (send env c req)
  unfolding send
  send-Unchanged c req = send_by-Unchanged (sender_for c req.channel) req
