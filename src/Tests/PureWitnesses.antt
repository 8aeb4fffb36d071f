-- ===== src/Tests/PureWitnesses.antt =====
-- The theorems on rows, rules and counters at concrete inputs.
use insider_one.Prelude.{
  String, ◌+◌, ◌*◌, ◌≤◌, ◌<◌, ◌≡◌, ◌≢◌, ◌↔◌, ◌⊎◌, refl, none, some, List, [], ◌∷◌, arith,
}
use insider_one.Domain.{Priority, DeliveryEvent, delivered, second}
use insider_one.Metrics
use insider_one.Metrics.{Metrics}
use insider_one.Metrics.Counters.{
  IsConsistent, MetricsOp, set_depth, success, failure, apply_all, apply_all-IsConsistent,
}
use insider_one.Provider.Choice.{SendsTo, sender_for-new_with_endpoints}
use insider_one.Prelude.Int.{pos, negsuc}
use insider_one.Service as Services
use insider_one.Service.{claim_limit, rate_limit}
use insider_one.Service.Options.{HasLimits, new-HasLimits}
use insider_one.Provider.{text_at, Client, new_with_endpoints, sender_for, SendResult, no_response}
use insider_one.Repository.Schema.{
  tenant_id, notification_row, scan_notification, scan_event, event_row, map_time,
}
use insider_one.Repository.Schema.RoundTrip.{scan-notification_row, scan-event_row}
use insider_one.Runtime.{ok}
use insider_one.Service.Create.{build_notification}
use insider_one.Service.Process.{outcome, accepted, retry, exhausted, rejected}
use insider_one.Service.Process.Outcomes.{IsTransient, outcome_iff}
use insider_one.Service.Rules.{validate_request, normalize_priority, backoff_delay, jittered}
use insider_one.Service.Rules.Checks.{IsValid, validate_request_iff, normalize_priority_lem}
use insider_one.Service.Rules.Delays.{backoff_delay_lem, jittered_bounds}
use insider_one.Tests.{sms_request}

scan-notification_row_example :
    let n = build_notification "a" " " "" "" "k" 5 sms_request in
    scan_notification (notification_row (λ t. t) n) ≡ record n {
      tenant_id = tenant_id n.tenant_id;
      scheduled_at = map_time (λ t. t) n.scheduled_at;
    }
scan-notification_row_example =
    scan-notification_row (λ t. t) (build_notification "a" " " "" "" "k" 5 sms_request)

abbrev sample_event : DeliveryEvent
sample_event = record {
  id = 0;
  tenant_id = "acme";
  notification_id = "a";
  batch_id = "";
  channel = "sms";
  status = delivered;
  attempt = 1;
  reason = "provider accepted";
  next_attempt_at = none;
  provider_status = 202;
  provider_message_id = "m";
  created_at = 7;
}

scan-event_row_example :
    scan_event (event_row (λ t. t) 4 sample_event)
    ≡ record sample_event { id = 4; tenant_id = tenant_id "acme" }
scan-event_row_example = scan-event_row (λ t. t) 4 sample_event

abbrev busy : SendResult
busy = record { response = no_response; status_code = 503; error = none }

outcome_iff_example :
    let o = outcome busy 1 3 in
    ((o ≡ accepted) ↔ ((busy.error ≡ none) × (200 ≤ busy.status_code) × (busy.status_code < 300)))
    × ((o ≡ retry) ↔ (IsTransient busy × (1 + 1 < 3)))
    × ((o ≡ exhausted) ↔ (IsTransient busy × (3 ≤ 1 + 1)))
    × ((o ≡ rejected) ↔ (
        (busy.error ≡ none)
        × ((busy.status_code < 200) ⊎ (300 ≤ busy.status_code))
        × (busy.status_code ≢ 408)
        × (busy.status_code ≢ 429)
        × (busy.status_code < 500)))
outcome_iff_example = outcome_iff busy 1 3

validate_request_example : (validate_request sms_request ≡ ok tt) ↔ IsValid sms_request
validate_request_example = validate_request_iff sms_request

abbrev urgent : Priority
urgent = "urgent"

normalize_priority_example :
    ((normalize_priority urgent ≡ "high")
      ⊎ (normalize_priority urgent ≡ "normal")
      ⊎ (normalize_priority urgent ≡ "low"))
    × ((urgent ≡ "high") ⊎ (urgent ≡ "normal") ⊎ (urgent ≡ "low")
        → normalize_priority urgent ≡ urgent)
    × (urgent ≢ "high" → urgent ≢ "low" → normalize_priority urgent ≡ "normal")
normalize_priority_example = normalize_priority_lem urgent

backoff_delay_example :
    (2 < 5 → backoff_delay 3 ≡ 2 * backoff_delay 2) × (5 ≤ 2 → backoff_delay 2 ≡ 64 * second)
backoff_delay_example = backoff_delay_lem 2

jittered_example :
    let plain = backoff_delay 2 in
    let delay = jittered plain (some (200 ∷ [])) in
    (plain ≤ delay)
    × (4 * delay < 5 * plain)
    × (2 * second ≤ delay)
    × (delay < 80 * second)
    × (255 * plain < 9_223_372_036_854_775_808)
jittered_example = jittered_bounds 2 (some (200 ∷ [])) (omega arith)

abbrev updates : List MetricsOp
updates = set_depth "sms" 4 ∷ success "sms" 7 ∷ failure "sms" 2 ∷ []

apply_all_example : IsConsistent (apply_all updates Metrics.new) "sms"
apply_all_example = apply_all-IsConsistent updates Metrics.new "sms" (refl, refl, refl, refl)

abbrev email_channel : String
email_channel = "email"

abbrev endpoints : List (String × String)
endpoints = ("default", "https://webhook.example/hook") ∷ ("sms", "noop://accepted") ∷ []

sender_for_example :
    let own = text_at "email" endpoints in
    let made = new_with_endpoints endpoints in
    ((email_channel ≡ "sms") ⊎ (email_channel ≡ "email") ⊎ (email_channel ≡ "push")
      → (own ≢ "" → SendsTo made "email" own)
        × (own ≡ "" → SendsTo made "email" (text_at "default" endpoints)))
    × (email_channel ≢ "sms"
        → email_channel ≢ "email"
        → email_channel ≢ "push"
        → sender_for made "email" ≡ none)
sender_for_example = sender_for-new_with_endpoints endpoints "email"

abbrev client : Client
client = new_with_endpoints endpoints

new-HasLimits_example :
    HasLimits (Services.new client (claim_limit (negsuc 4) ∷ rate_limit (pos 7) ∷ []))
new-HasLimits_example = new-HasLimits client (claim_limit (negsuc 4) ∷ rate_limit (pos 7) ∷ [])
