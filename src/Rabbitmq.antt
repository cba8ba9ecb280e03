-- ===== src/Rabbitmq.antt =====
-- infrastructure/rabbitmq/rabbitmq.service.ts: publication of payment events, over amqplib.
pub mod Connection
use aspin_partners_bridge.Common.{String, ◌++◌, Bool, false, [], ◌∷◌, if◌then◌else◌}
use aspin_partners_bridge.Value.{Value, str, object}
use aspin_partners_bridge.Domain.{PaymentEvent}
use aspin_partners_bridge.Effects.{
  Prog, ret, ◌>>=◌, call, attempt, try_catch, has_amqp_channel, amqp_publish, Services,
}

abbrev pub exchange_name : String
exchange_name = "payment.events"

-- The event as it is serialised, its fields in the order in which the executor writes them.
abbrev pub event_value : PaymentEvent → Value
event_value e = object (
    ("transaction_id", e.transaction_id)
    ∷ ("partner_id", str e.partner_id)
    ∷ ("channel", str e.channel)
    ∷ ("amount", e.amount)
    ∷ ("currency", str e.currency)
    ∷ ("status", e.status)
    ∷ ("timestamp", str e.timestamp)
    ∷ ("customer_id", str e.customer_id)
    ∷ ("reference", str e.reference)
    ∷ [])

module _ (s : Services) where
  -- No channel, a full buffer and an error all give false; nothing is thrown.
  unfoldable pub publish : String → String → Value → Prog Bool
  publish exchange routing_key message =
      try_catch
        (do
          ready ← call has_amqp_channel
          if ready
              then attempt (amqp_publish exchange routing_key (s.host.json_stringify message))
                  (λ r. r)
              else ret false)
        (λ error. ret false)

  unfoldable pub publish_payment_completed : PaymentEvent → Prog Bool
  publish_payment_completed event =
      publish exchange_name ("payment.completed." ++ event.partner_id) (event_value event)

  unfoldable pub publish_payment_failed : PaymentEvent → Prog Bool
  publish_payment_failed event =
      publish exchange_name ("payment.failed." ++ event.partner_id) (event_value event)

  unfoldable pub publish_payment_pending : PaymentEvent → Prog Bool
  publish_payment_pending event =
      publish exchange_name ("payment.pending." ++ event.partner_id) (event_value event)
