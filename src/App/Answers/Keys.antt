-- ===== src/App/Answers/Keys.antt =====
-- internal/app/app.go, `handleCreateNotification`: where the idempotency key comes from.
use insider_one.Prelude.{String, ◌≡◌, refl}
use insider_one.App.{App}
use insider_one.App.Handlers.{Codec, create_decoded}
use insider_one.Domain.{NotificationRequest}
use insider_one.Httpx.Context.{Context}
use insider_one.Httpx.Message.{Request}
use insider_one.Runtime.{Env, ok}
use insider_one.Service.Create.{build_notification, create_new, create_notification}
use insider_one.Service.Rules.{validate_request}

-- A single create takes its key from the header alone: whatever `idempotencyKey` the body has, the answer
-- and the tables are as with any other.
pub create_decoded-header_key :
    (env : Env) (codec : Codec) (a : App) (ctx : Context) (r : Request) (req : NotificationRequest)
    (key : String)
    → create_decoded env codec a ctx r (ok (record req { idempotency_key = key }))
      ≡ create_decoded env codec a ctx r (ok req)
unfolding create_decoded create_notification create_new validate_request build_notification
create_decoded-header_key env codec a ctx r req key = refl
