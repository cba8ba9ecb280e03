-- ===== src/Executors/Callback.antt =====
-- base.payment.executor.ts: `handleCallback`.
pub mod Mocked
pub mod Order
pub mod Signature
pub mod Reads
pub mod Replayed
pub mod Replay
pub mod Phases
pub mod Work
pub mod Settled
pub mod Bounds
pub mod Course
pub mod Completed
pub mod Shared
use aspin_partners_bridge.Common.{String, Bool, true, Option, none, some, ◌==◌, if◌then◌else◌}
use aspin_partners_bridge.Value.{Value, str, seconds_between}
use aspin_partners_bridge.Errors.{
  Error, raised, transaction_not_found, invalid_callback_signature, error_message,
}
use aspin_partners_bridge.Domain.{PaymentEntity, no_fields, PaymentCallbackResponse}
use aspin_partners_bridge.Effects.{
  or_throw, Prog, ret, throw, ◌>>=◌, ◌>>◌, call, now, read, try_catch, try_finally, Services,
  to_text,
}
use aspin_partners_bridge.Monitoring.{
  update_metric, increment_webhook_received, increment_webhook_processed, increment_webhook_failed,
  increment_payment_success, record_payment_duration,
}
use aspin_partners_bridge.Repositories.Payments.{get_by_transaction_id, update}
use aspin_partners_bridge.Channels.{load_config}
use aspin_partners_bridge.Channels.Callback.{validate_callback}
use aspin_partners_bridge.Executors.Defs.{Executor, get_partner, get_channel_implementation}
use aspin_partners_bridge.Executors.Payload.{extract_transaction_id, extract_status_from_callback}
use aspin_partners_bridge.Executors.Lock.{
  build_callback_lock_key, acquire_callback_lock, release_callback_lock,
}
use aspin_partners_bridge.Executors.Publish.{publish_payment_result}

-- The answer that repeats what is stored.
unfoldable pub stored_response : Value → PaymentEntity → PaymentCallbackResponse
stored_response transaction_id payment = record {
  transaction_id = transaction_id;
  status = payment.status;
  amount = payment.amount;
  currency = payment.currency;
  timestamp = payment.updated_at;
  is_valid = true;
}

-- `error.message || 'unknown'`
abbrev reason : Option String → String
reason none = "unknown"
reason (some m) = if m == "" then "unknown" else m

-- The metrics of a payment that a callback completes.
unfoldable pub record_success : PaymentEntity → String → Prog (Unit {0})
record_success payment status =
    if status == "completed"
    then (do
      update_metric (increment_payment_success payment.partner_id payment.channel)
      time ← call now
      update_metric (
          record_payment_duration payment.partner_id payment.channel status
            (seconds_between payment.created_at time)))
    else ret tt

module _ (s : Services) (x : Executor) where
  -- Where the lock is taken by another: the stored status, and nothing else.
  unfoldable pub answer_without_lock : Value → Prog PaymentCallbackResponse
  answer_without_lock transaction_id = do
    existing ← get_by_transaction_id transaction_id
    payment ← or_throw existing (raised (transaction_not_found (to_text s.host transaction_id)))
    ret (stored_response transaction_id payment)

  -- The signature of the payload, under the partner's webhook secret.
  unfoldable pub is_signed : Value → Prog Bool
  is_signed payload = do
    config ← load_config s (get_channel_implementation x) (str (get_partner x))
    secret ← read config.config "webhookSecret"
    validate_callback s payload secret

  -- The status of a callback is stored with `processed`, published and counted.
  unfoldable pub record_result : Value → PaymentEntity → String → Prog PaymentCallbackResponse
  record_result transaction_id payment status = do
    update transaction_id (record no_fields { status = some (str status); processed = some true })
    publish_payment_result s payment (str status)
    update_metric (increment_webhook_processed payment.partner_id status)
    record_success payment status
    time ← call now
    ret (record {
      transaction_id = transaction_id;
      status = status;
      amount = payment.amount;
      currency = payment.currency;
      timestamp = time;
      is_valid = true;
    })

  -- A payment that no callback has settled yet.
  unfoldable pub settle : Value → Value → PaymentEntity → Prog PaymentCallbackResponse
  settle payload transaction_id payment = do
    valid ← is_signed payload
    if valid
        then (do
          status ← extract_status_from_callback payload
          record_result transaction_id payment status)
        else throw (raised invalid_callback_signature)

  -- The body of the inner try block, which runs under the lock.
  unfoldable pub process_callback : Value → Value → Prog PaymentCallbackResponse
  process_callback payload transaction_id = do
    found ← get_by_transaction_id transaction_id
    payment ← or_throw found (raised (transaction_not_found (to_text s.host transaction_id)))
    update_metric (increment_webhook_received payment.partner_id)
    if payment.processed
        then ret (stored_response transaction_id payment)
        else settle payload transaction_id payment

  -- The body of the outer try block.
  unfoldable pub locked_callback : Value → Prog PaymentCallbackResponse
  locked_callback payload = do
    transaction_id ← extract_transaction_id payload
    let key = build_callback_lock_key s x transaction_id
    acquired ← acquire_callback_lock key
    if acquired
        then try_finally (process_callback payload transaction_id) (release_callback_lock key)
        else answer_without_lock transaction_id

  unfoldable pub report_failure : Error → Prog PaymentCallbackResponse
  report_failure error =
      update_metric (increment_webhook_failed (get_partner x) (reason (error_message error)))
      >> throw error

  unfoldable pub handle_callback : Value → Prog PaymentCallbackResponse
  handle_callback payload = try_catch (locked_callback payload) report_failure
