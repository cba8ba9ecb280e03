-- ===== src/Tests/Runs.antt =====
-- Runs of the handlers in the example's outside.
use aspin_partners_bridge.Common.{◌≤◌, length, to_lower_case, true, some, ◌≡◌, refl}
use aspin_partners_bridge.Value.{str}
use aspin_partners_bridge.Domain.{no_fields}
use aspin_partners_bridge.Effects.{read, attempt, or_throw, call, lift, to_text}
use aspin_partners_bridge.Effects.Run.{trace}
use aspin_partners_bridge.Executors.Callback.Course.{course, started, stored}
use aspin_partners_bridge.Executors.Callback.Completed.{changes_of}
use aspin_partners_bridge.Effects.Logic.{observe}
use aspin_partners_bridge.Executors.{
  britam_mpesa, get_channel_implementation, get_partner, get_channel,
}
use aspin_partners_bridge.Executors.Callback.{
  handle_callback, locked_callback, process_callback, settle, is_signed, record_result,
  record_success,
}
use aspin_partners_bridge.Executors.Callback.Order.{released, published, idle, advance}
use aspin_partners_bridge.Executors.Payload.{
  extract_transaction_id, extract_status_from_callback, normalize_status,
}
use aspin_partners_bridge.Executors.Lock.{
  acquire_callback_lock, build_callback_lock_key, release_callback_lock,
}
use aspin_partners_bridge.Repositories.Payments.{get_by_transaction_id, update}
use aspin_partners_bridge.Monitoring.{update_metric}
use aspin_partners_bridge.Channels.{load_config}
use aspin_partners_bridge.Repositories.PartnerConfigurations.{get_config, configuration}
use aspin_partners_bridge.Channels.Callback.{validate_callback, hmac_hex}
use aspin_partners_bridge.Adapters.Aspin.{make_http_request, notify_payment_status}
use aspin_partners_bridge.Adapters.Http.{send}
use aspin_partners_bridge.Executors.Publish.{
  aspin_status, event_of, notify_aspin, publish_event, publish_payment_result,
}
use aspin_partners_bridge.Rabbitmq.{publish, publish_payment_completed}
use aspin_partners_bridge.Channels.Mpesa
use aspin_partners_bridge.Executors.Initiate.{initiate}
use aspin_partners_bridge.Executors.StatusCheck.{status_check}
use aspin_partners_bridge.Queue.Worker.{process_status_check_job, process_payment_initiation_job}
use aspin_partners_bridge.Queue.Worker.Ends.{handlers_end}
use aspin_partners_bridge.Tests.{payment, services, outside, callback, initiation, status_job}

-- A signed callback is stored and published under its lock.
completed_callback :
    observe advance idle (trace outside (handle_callback services britam_mpesa callback) 0)
    ≡ released "callback:BRITAM:tx-7" "callback:BRITAM:tx-7" (
        published
          (str "tx-7")
          (record no_fields { status = some (str "completed"); processed = some true }))
unfolding handle_callback trace Mpesa.load_config locked_callback extract_transaction_id read
    acquire_callback_lock attempt process_callback get_by_transaction_id or_throw update_metric
    settle is_signed load_config get_channel_implementation get_config configuration
    validate_callback make_http_request notify_payment_status send hmac_hex to_lower_case call lift
    to_text record_result record_success get_partner get_channel build_callback_lock_key
    release_callback_lock extract_status_from_callback normalize_status aspin_status event_of
    notify_aspin publish_event publish_payment_result publish publish_payment_completed update
completed_callback = refl

handlers_end_example :
    (length (trace outside (handle_callback services britam_mpesa callback) 0) ≤ 15)
    × (length (trace outside (initiate britam_mpesa initiation) 0) ≤ 5)
    × (length (trace outside (status_check services britam_mpesa (str "tx-7")) 0) ≤ 8)
    × (length (trace outside (process_status_check_job services status_job) 0) ≤ 9)
    × (length (trace outside (process_payment_initiation_job services status_job) 0) ≤ 5)
handlers_end_example =
    handlers_end outside 0 services britam_mpesa callback (str "tx-7") initiation status_job

-- In the example's outside nothing stops it.
not_stopped :
    observe course started (trace outside (handle_callback services britam_mpesa callback) 0)
    ≡ stored payment (str "tx-7") (changes_of callback)
unfolding handle_callback trace Mpesa.load_config locked_callback extract_transaction_id read
    acquire_callback_lock attempt process_callback get_by_transaction_id or_throw update_metric
    settle is_signed load_config get_channel_implementation get_config configuration
    validate_callback make_http_request notify_payment_status send hmac_hex to_lower_case call lift
    to_text record_result record_success get_partner get_channel build_callback_lock_key
    release_callback_lock extract_status_from_callback normalize_status aspin_status event_of
    notify_aspin publish_event publish_payment_result publish publish_payment_completed update
not_stopped = refl
