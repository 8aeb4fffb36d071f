-- ===== src/Service/Rules/Checks.antt =====
-- internal/service/service.go: what validation accepts, and what priorities become.
use Prim.Native.String.{len}
use insider_one.Prelude.{
  ℕ, ◌≤◌, String, ◌≡◌, refl, ◌≢◌, ◌↔◌, ◌⊎◌, inl, inr, true, false, arith, str_eq, eq_iff, ltb,
}
use insider_one.Prelude.Text.{trim_space}
use insider_one.Domain.{NotificationRequest, Priority}
use insider_one.Runtime.{ok}
use insider_one.Service.Rules.{validate_request, normalize_priority, content_limit, known_channel}

-- A request that may be created: a recipient and content that are not blank, one of the three
-- channels, and content of at most the channel's number of bytes.
pub record IsValid (req : NotificationRequest) : Type 0 where
  pub recipient : trim_space req.recipient ≢ ""
  pub content : trim_space req.content ≢ ""
  pub limit :
      ((req.channel ≡ "sms") × (len req.content ≤ 1600))
      ⊎ ((req.channel ≡ "email") × (len req.content ≤ 10000))
      ⊎ ((req.channel ≡ "push") × (len req.content ≤ 256))

validate-IsValid : (req : NotificationRequest) → validate_request req ≡ ok tt → IsValid req
unfolding validate_request
validate-IsValid req h = record {
  recipient = ground (arith, eq_iff (trim_space req.recipient) "");
  content = ground (arith, eq_iff (trim_space req.content) "");
  limit =
      ground
        (arith, eq_iff req.channel "sms", eq_iff req.channel "email", eq_iff req.channel "push");
}

-- The limit of a channel, for content of `n` bytes.
abbrev Fits : String → ℕ → Type 0
Fits channel n = (known_channel channel ≡ true) × (ltb (content_limit channel) n ≡ false)

Fits-limit :
    (channel : String) (n : ℕ)
    → ((channel ≡ "sms") × (n ≤ 1600))
      ⊎ ((channel ≡ "email") × (n ≤ 10000))
      ⊎ ((channel ≡ "push") × (n ≤ 256))
    → Fits channel n
Fits-limit channel n (inl (e, h)) = rw e (refl, ground arith)
Fits-limit channel n (inr (inl (e, h))) = rw e (refl, ground arith)
Fits-limit channel n (inr (inr (e, h))) = rw e (refl, ground arith)

not_blank : (s : String) → s ≢ "" → str_eq s "" ≡ false
not_blank s h = ground (arith, eq_iff s "")

IsValid-validate : (req : NotificationRequest) → IsValid req → validate_request req ≡ ok tt
unfolding validate_request
IsValid-validate req h =
    let (known, short) = Fits-limit req.channel (len req.content) h.limit in
    rw (not_blank (trim_space req.recipient) h.recipient)
      (rw (not_blank (trim_space req.content) h.content) (rw known (rw short)))

-- Validation accepts a request exactly when its recipient and its content are not blank, its
-- channel is sms, email or push, and its content has at most 1600, 10000 or 256 bytes for them.
pub validate_request_iff :
    (req : NotificationRequest) → (validate_request req ≡ ok tt) ↔ IsValid req
validate_request_iff req = (validate-IsValid req, IsValid-validate req)

-- A priority becomes one of the three that the claims are ordered by, a known one stays as it is,
-- and every other becomes `normal`.
pub normalize_priority_lem :
    (p : Priority)
    → ((normalize_priority p ≡ "high")
        ⊎ (normalize_priority p ≡ "normal")
        ⊎ (normalize_priority p ≡ "low"))
      × ((p ≡ "high") ⊎ (p ≡ "normal") ⊎ (p ≡ "low") → normalize_priority p ≡ p)
      × (p ≢ "high" → p ≢ "low" → normalize_priority p ≡ "normal")
unfolding normalize_priority
normalize_priority_lem p = (
  ground (arith, eq_iff p "high", eq_iff p "normal", eq_iff p "low"),
  (λ h. ground (arith, eq_iff p "high", eq_iff p "normal", eq_iff p "low")),
  (λ h k. ground (arith, eq_iff p "high", eq_iff p "normal", eq_iff p "low")),
)
