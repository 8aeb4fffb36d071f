-- ===== src/Tests/Idempotent.antt =====
-- Two creates under one key, with a worker's cycle and another create between them.
use insider_one.Prelude.{◌≡◌, ◌≢◌, refl, some, arith, [], ◌∷◌}
use insider_one.Domain.{Notification, NotificationBatchRequest}
use insider_one.Httpx.Context.{tenant_id_of, with_tenant_id}
use insider_one.Prelude.Text.{trim_space}
use insider_one.Repository.Schema.{RequestRow, Database, tenant_id}
use insider_one.Service.Create.Idempotent.Batch.{batch_of, create_batch-known_key}
use insider_one.Runtime.{ok, World}
use insider_one.Service.Create.{create_notification, build_notification, create_batch}
use insider_one.Service.Operations.{create, work, run}
use insider_one.Service.Operations.Idempotent.{run-idempotent}
use insider_one.Service.Rules.{validate_request}
use insider_one.Tests.{calm, fresh, service, caller, sms_request}
use insider_one.Tests.Witnesses.{fresh-WellFormed, not_same, two_db, two_world}

abbrev created : Notification
created = build_notification "03" "acme" "" "corr" "k1" (calm.now 2) sms_request

first_create : (create_notification calm caller sms_request "" "corr" "k1" fresh).0 ≡ ok created
unfolding insider_one.Runtime.◌>>=◌ insider_one.Runtime.attempt insider_one.Runtime.ignore
    insider_one.Runtime.lift insider_one.Runtime.ask insider_one.Runtime.modify_metrics
    insider_one.Runtime.get_metrics insider_one.Runtime.under_fault
    insider_one.Runtime.view_under_fault insider_one.Runtime.clock insider_one.Runtime.check_ctx
    insider_one.Runtime.exec insider_one.Runtime.query insider_one.Runtime.tx_exec
    insider_one.Runtime.begin_tx insider_one.Runtime.commit insider_one.Service.with_option
    insider_one.Service.new insider_one.Service.get insider_one.Service.get_batch
    insider_one.Service.list insider_one.Service.dead_letters insider_one.Service.events
    insider_one.Service.cancel insider_one.Service.note_depth insider_one.Service.metrics_snapshot
    insider_one.Service.Rules.validate_request insider_one.Service.Rules.normalize_priority
    insider_one.Service.Rules.should_retry_delivery insider_one.Service.Rules.backoff_delay
    insider_one.Service.Rules.jittered insider_one.Service.Rules.backoff
    insider_one.Service.Rules.new_id insider_one.Service.Create.initial_status
    insider_one.Service.Create.build_notification insider_one.Service.Create.says_unique_failed
    insider_one.Service.Create.note_event insider_one.Service.Create.after_insert
    insider_one.Service.Create.create_new insider_one.Service.Create.create_notification
    insider_one.Service.Create.build_items insider_one.Service.Create.create_items
    insider_one.Service.Create.create_batch insider_one.Service.Process.failure_message
    insider_one.Service.Process.outcome insider_one.Service.Process.settle
    insider_one.Service.Process.count_outcome insider_one.Service.Process.deliver
    insider_one.Service.Process.deliver_all insider_one.Service.Process.claim_and_deliver
    insider_one.Service.Process.process_channel insider_one.Service.Operations.perform
    insider_one.Service.Operations.run insider_one.Repository.Schema.tenant_id
    insider_one.Repository.Schema.null_string insider_one.Repository.Schema.valid_string
    insider_one.Repository.Schema.notification_row insider_one.Repository.Schema.scan_notification
    insider_one.Repository.Schema.scan_event insider_one.Repository.Schema.event_row
    insider_one.Repository.Write.set_delivered insider_one.Repository.Write.set_failed
    insider_one.Repository.Write.set_retry insider_one.Repository.Write.set_cancelled
    insider_one.Repository.Write.cancellable insider_one.Repository.Write.insert_row
    insider_one.Repository.Write.insert_loop insider_one.Repository.Write.insert_notifications
    insider_one.Repository.Write.insert_event insider_one.Repository.Write.record_event
    insider_one.Repository.Write.insert_request insider_one.Repository.Write.upsert_request_mapping
    insider_one.Repository.Write.cancel_rows insider_one.Repository.Write.cancel_some
    insider_one.Repository.Write.cancel_pending insider_one.Repository.Write.mark_delivered
    insider_one.Repository.Write.mark_failed insider_one.Repository.Write.mark_dead_letter
    insider_one.Repository.Write.schedule_retry insider_one.Repository.Read.list_filter
    insider_one.Repository.Read.get_batch_id_by_key insider_one.Repository.Read.get_notification
    insider_one.Repository.Read.get_by_idempotency_key insider_one.Repository.Read.get_by_batch
    insider_one.Repository.Read.list_notifications insider_one.Repository.Read.list_dead_letters
    insider_one.Repository.Read.list_events insider_one.Repository.Sort.insert_by
    insider_one.Repository.Sort.sort_by insider_one.Repository.Claim.priority_rank
    insider_one.Repository.Claim.claims_before insider_one.Repository.Claim.claimable
    insider_one.Repository.Claim.candidates insider_one.Repository.Claim.set_processing
    insider_one.Repository.Claim.claim_rows insider_one.Repository.Claim.claim_due
    insider_one.Repository.Claim.queue_depth_by_channel
    insider_one.Repository.RateLimit.truncate_second insider_one.Repository.RateLimit.upsert_window
    insider_one.Repository.RateLimit.use_slots
    insider_one.Repository.RateLimit.acquire_rate_limit_slots insider_one.Provider.is_noop_endpoint
    insider_one.Provider.new_sender insider_one.Provider.endpoint_for
    insider_one.Provider.new_with_endpoints insider_one.Provider.new
    insider_one.Provider.webhook_result insider_one.Provider.sender_for
    insider_one.Provider.random_id insider_one.Provider.noop_send insider_one.Provider.webhook_send
    insider_one.Provider.send_by insider_one.Provider.send insider_one.Metrics.set_queue_depth
    insider_one.Metrics.inc_success insider_one.Metrics.inc_failure insider_one.Metrics.snapshot
    insider_one.Httpx.Context.with_request_id insider_one.Httpx.Context.with_correlation_id
    insider_one.Httpx.Context.with_tenant_id insider_one.Httpx.Context.request_id_of
    insider_one.Httpx.Context.correlation_id_of insider_one.Httpx.Context.tenant_id_of
    insider_one.Prelude.Text.is_space insider_one.Prelude.Text.trim_space
    insider_one.Prelude.Text.lower_ascii insider_one.Prelude.Text.to_lower
    insider_one.Prelude.Text.contains insider_one.Prelude.Text.hex_encode
    insider_one.Prelude.Text.decimal insider_one.Prelude.Int.◌+ℤ◌
first_create = refl

valid_again : validate_request sms_request ≡ ok tt
unfolding validate_request insider_one.Prelude.Text.trim_space
valid_again = refl

run-idempotent_example :
    let later =
      run calm service
        (create caller sms_request "" "corr" "k1"
          ∷ work "sms"
          ∷ create caller sms_request "" "" "k2"
          ∷ [])
        fresh in
    (m : Notification) × ((create_notification calm caller sms_request "" "" "k1" later).0 ≡ ok m)
    × (m.id ≡ created.id)
    × ((create_notification calm caller sms_request "" "" "k1" later).1.db ≡ later.db)
run-idempotent_example =
    run-idempotent calm service caller "k1" sms_request sms_request "" "corr" "" ""
      (work "sms" ∷ create caller sms_request "" "" "k2" ∷ []) fresh created fresh-WellFormed
      (not_same "k1" "" refl) first_create refl refl valid_again

-- Two notifications of one batch, with the mapping of a key to it.
abbrev mapped : RequestRow
mapped = record {
  id = 1;
  tenant_id = "acme";
  idempotency_key = some "b1";
  batch_id = "";
  created_at = 5;
}

abbrev mapped_world : World
mapped_world = record two_world { db = record two_db { requests = mapped ∷ [] } }

abbrev asked_batch : NotificationBatchRequest
asked_batch = record { notifications = sms_request ∷ []; idempotency_key = "b1" }

create_batch_example :
    let (r, w') = create_batch calm caller asked_batch "corr" mapped_world in
    (r ≡ ok ("", batch_of "" (tenant_id_of caller) mapped_world)) × (w'.db ≡ mapped_world.db)
unfolding tenant_id_of tenant_id trim_space with_tenant_id
create_batch_example =
    create_batch-known_key calm caller asked_batch "corr" mapped_world mapped (omega arith)
      (omega arith) (not_same "b1" "" refl) refl refl refl refl
