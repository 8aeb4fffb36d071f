-- ===== src/Provider/Message.antt =====
-- internal/provider/webhook.go: the request to a provider, its answer, and what an HTTP exchange
-- can come to.
use insider_one.Prelude.{ℕ, String}
use insider_one.Domain.{Time}

pub record DeliveryRequest : Type 0 where
  pub to : String
  pub channel : String
  pub content : String

pub record DeliveryResponse : Type 0 where
  pub message_id : String
  pub status : String
  pub timestamp : Time

-- What net/http and encoding/json make of one exchange: the request could not be made or sent, the
-- body of the answer could not be decoded, or there is an answer with its status code.
pub data Exchange : Type 0 where
  unsent : String → Exchange
  undecodable : ℕ → String → Exchange
  answered : ℕ → DeliveryResponse → Exchange
