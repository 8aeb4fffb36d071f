-- ===== src/Service/Rules.antt =====
-- internal/service/service.go: validation, priorities, ids, backoff and the retry decision.
pub mod Effects
pub mod Checks
pub mod Delays
use Prim.Native.String.{len}
use insider_one.Prelude.{
  ℕ, zero, suc, ◌+◌, ◌*◌, ◌/◌, ◌^◌, String, Bool, true, ◌||◌, Option, none, some, List, [], ◌∷◌,
  ltb, leb, ◌==◌, str_eq, if◌then◌else◌,
}
use insider_one.Prelude.Text.{trim_space, hex_encode, decimal, ◌<>◌}
use insider_one.Domain.{
  Duration, second, Channel, channel_sms, channel_email, channel_push, Priority, priority_high,
  priority_normal, priority_low, NotificationRequest,
}
use insider_one.Runtime.{Error, Result, ok, err, Env, Fallible, pure, ◌>>=◌, ask, clock, unix_nano}

-- The limits of the contents, in bytes.
abbrev pub content_limit : Channel → ℕ
content_limit channel =
    if str_eq channel channel_sms
    then 1600
    else if str_eq channel channel_email
    then 10000
    else if str_eq channel channel_push
    then 256
    else 0

abbrev pub known_channel : Channel → Bool
known_channel channel =
    str_eq channel channel_sms || (str_eq channel channel_email || str_eq channel channel_push)

-- The error of content that is too long.
too_long : ℕ → Channel → Error
too_long limit channel = "content exceeds " <> decimal limit <> " characters for " <> channel

unfoldable pub validate_request : NotificationRequest → Result (Unit {0})
unfolding too_long
validate_request req =
    if str_eq (trim_space req.recipient) ""
    then err "recipient is required"
    else if str_eq (trim_space req.content) ""
    then err "content is required"
    else if known_channel req.channel
    then (if ltb (content_limit req.channel) (len req.content)
        then err (too_long (content_limit req.channel) req.channel)
        else ok tt)
    else err "channel must be sms, email, or push"

unfoldable pub normalize_priority : Priority → Priority
normalize_priority p =
    if str_eq p priority_high || (str_eq p priority_normal || str_eq p priority_low)
    then p
    else priority_normal

-- `shouldRetryDelivery`
unfoldable pub should_retry_delivery : ℕ → Option Error → Bool
should_retry_delivery status_code (some e) = true
should_retry_delivery status_code none =
    (status_code == 408 || status_code == 429) || leb 500 status_code

-- The delay of `backoff` before the jitter: 2 s, doubled for each attempt up to 5.
unfoldable pub backoff_delay : ℕ → Duration
backoff_delay zero = 2 * second
backoff_delay (suc n) = 2 * second * 2 ^ (if ltb 5 (suc n) then 5 else suc n)

-- `addJitter`, for the byte that was read, if one was.
unfoldable pub jittered : Duration → Option (List ℕ) → Duration
jittered delay none = delay
jittered delay (some []) = delay
jittered delay (some (byte ∷ rest)) = delay + byte * delay / 1024

module _ (env : Env) where
  unfoldable pub backoff : ℕ → Fallible Duration
  backoff attempts = do byte ← ask env.random; pure (jittered (backoff_delay attempts) (byte 1))

  fresh_id : Option (List ℕ) → Fallible String
  fresh_id (some bytes) = pure (hex_encode bytes)
  fresh_id none = do now ← clock env; pure ("fallback-" <> decimal (unix_nano now))

  -- `newID`
  unfoldable pub new_id : Fallible String
  unfolding fresh_id
  new_id = do bytes ← ask env.random; fresh_id (bytes 16)
