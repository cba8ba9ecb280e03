-- ===== src/Executors/Publish.antt =====
-- base.payment.executor.ts: `publishPaymentResult`, the event on RabbitMQ and the notification of
-- Aspin, whose failure is logged and swallowed.
pub mod Announced
pub mod Notices
use aspin_partners_bridge.Common.{String, ◌++◌, Bool, if◌then◌else◌}
use aspin_partners_bridge.Value.{Value, str, is_text}
use aspin_partners_bridge.Domain.{PaymentEntity, PaymentEvent}
use aspin_partners_bridge.Domain.PaymentNotificationStatus
use aspin_partners_bridge.Effects.{Prog, ret, ◌>>=◌, ◌>>◌, call, now, try_catch, Services, to_text}
use aspin_partners_bridge.Rabbitmq.{
  publish_payment_completed, publish_payment_failed, publish_payment_pending,
}
use aspin_partners_bridge.Adapters.Aspin.{notify_payment_status}
use aspin_partners_bridge.Channels.Callback.{hmac_hex}

module _ (s : Services) where
  unfoldable pub event_of : PaymentEntity → Value → String → PaymentEvent
  event_of payment status timestamp = record {
    transaction_id = payment.transaction_id;
    partner_id = payment.partner_id;
    channel = payment.channel;
    amount = payment.amount;
    currency = payment.currency;
    status = status;
    timestamp = timestamp;
    customer_id = payment.customer_id;
    reference = payment.reference;
  }

  unfoldable pub publish_event : PaymentEvent → Value → Prog Bool
  publish_event event status =
      if is_text status "completed"
      then publish_payment_completed s event
      else if is_text status "failed"
      then publish_payment_failed s event
      else publish_payment_pending s event

  -- The status that Aspin is told: anything but completed is failed.
  unfoldable pub aspin_status : Value → String
  aspin_status status =
      if is_text status "completed"
      then PaymentNotificationStatus.success
      else PaymentNotificationStatus.failed

  -- The body of the try block. The status is a string wherever this is called, so that `+` joins
  -- texts.
  unfoldable pub notify_aspin : PaymentEntity → Value → String → Prog (Unit {0})
  notify_aspin payment status timestamp = do
    signature ←
        hmac_hex s.host (s.config_get "ASPIN_ADAPTER_SIGNATURE_SECRET")
          (to_text s.host payment.transaction_id ++ to_text s.host status)
    notify_payment_status s (record {
      transaction_id = payment.transaction_id;
      status = str (aspin_status status);
      amount = payment.amount;
      currency = str payment.currency;
      timestamp = timestamp;
      signature = signature;
    })

  unfoldable pub publish_payment_result : PaymentEntity → Value → Prog (Unit {0})
  publish_payment_result payment status = do
    time ← call now
    publish_event (event_of payment status (s.host.to_iso_string time)) status
    try_catch (notify_aspin payment status (s.host.to_iso_string time)) (λ error. ret tt)
