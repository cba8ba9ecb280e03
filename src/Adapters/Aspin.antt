-- ===== src/Adapters/Aspin.antt =====
-- infrastructure/adapters/aspin.adapter.ts: the notification of Aspin.
use aspin_partners_bridge.Common.{String, ◌++◌, Option, none, some, [], ◌∷◌}
use aspin_partners_bridge.Value.{Value, str, object}
use aspin_partners_bridge.Errors.{raised, aspin_adapter, error_message}
use aspin_partners_bridge.Domain.{PaymentNotificationResponse}
use aspin_partners_bridge.Effects.{Prog, ret, throw, ◌>>◌, try_catch, Services}
use aspin_partners_bridge.Adapters.Http.{send}

-- An absent message inside a template literal.
abbrev shown : Option String → String
shown none = "undefined"
shown (some m) = m

-- The notification as the body of a request.
abbrev pub notification_value : PaymentNotificationResponse → Value
notification_value p = object (
    ("transaction_id", p.transaction_id)
    ∷ ("status", p.status)
    ∷ ("amount", p.amount)
    ∷ ("currency", p.currency)
    ∷ ("timestamp", str p.timestamp)
    ∷ ("signature", str p.signature)
    ∷ [])

module _ (s : Services) where
  unfoldable pub make_http_request : String → String → Value → Prog Value
  make_http_request method path payload =
      try_catch (send s "ASPIN_API_BASE_URL" "ASPIN_API_KEY" method path payload)
        (λ e. throw (raised (aspin_adapter ("Aspin API call failed: " ++ shown (error_message e)))))

  unfoldable pub notify_payment_status : PaymentNotificationResponse → Prog (Unit {0})
  notify_payment_status payload =
      make_http_request "POST" "payments/status-update" (notification_value payload) >> ret tt
