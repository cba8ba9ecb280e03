-- ===== src/Monitoring.antt =====
-- infrastructure/monitoring/metrics.service.ts: each method is one update of a prom-client metric.
pub mod Labels
use aspin_partners_bridge.Common.{ℕ, String, [], ◌∷◌}
use aspin_partners_bridge.Value.{Decimal, Value, num, str, whole}
use aspin_partners_bridge.Effects.{Prog, call, metric, MetricUpdate, Measure, inc, set, observe}

abbrev pub labels : String → Value → String → Value → Measure → String → MetricUpdate
labels k v j w m name = record { name = name; labels = (k, v) ∷ (j, w) ∷ []; measure = m }

unfoldable pub increment_payment_initiated : String → String → MetricUpdate
increment_payment_initiated partner channel =
    labels "partner" (str partner) "channel" (str channel) inc "payments_initiated"

unfoldable pub increment_payment_success : String → String → MetricUpdate
increment_payment_success partner channel =
    labels "partner" (str partner) "channel" (str channel) inc "payments_success"

unfoldable pub set_payment_success_rate : String → String → Decimal → MetricUpdate
set_payment_success_rate partner channel rate =
    labels "partner" (str partner) "channel" (str channel) (set rate) "payments_success_rate"

unfoldable pub increment_webhook_received : String → MetricUpdate
increment_webhook_received partner =
    labels "partner" (str partner) "source" (str "paymenthub") inc "webhooks_received"

unfoldable pub increment_webhook_processed : String → String → MetricUpdate
increment_webhook_processed partner status =
    labels "partner" (str partner) "status" (str status) inc "webhooks_processed"

unfoldable pub increment_webhook_failed : String → String → MetricUpdate
increment_webhook_failed partner reason =
    labels "partner" (str partner) "reason" (str reason) inc "webhooks_failed"

unfoldable pub set_webhook_delivery_rate : Decimal → MetricUpdate
set_webhook_delivery_rate rate = record {
  name = "webhooks_delivery_rate";
  labels = [];
  measure = set rate;
}

unfoldable pub record_payment_duration : String → String → String → Decimal → MetricUpdate
record_payment_duration partner channel status duration = record {
  name = "payment_processing_duration";
  labels = ("partner", str partner) ∷ ("channel", str channel) ∷ ("status", str status) ∷ [];
  measure = observe duration;
}

-- The partner and the channel of a job are whatever its data holds.
unfoldable pub increment_api_call : Value → Value → MetricUpdate
increment_api_call partner channel =
    labels "partner" partner "channel" channel inc "api_calls_total"

abbrev with_status : Value → Value → ℕ → String → MetricUpdate
with_status partner channel code name = record {
  name = name;
  labels = ("partner", partner) ∷ ("channel", channel) ∷ ("status_code", num (whole code)) ∷ [];
  measure = inc;
}

unfoldable pub increment_api_error_4xx : Value → Value → ℕ → MetricUpdate
increment_api_error_4xx partner channel code = with_status partner channel code "api_errors_4xx"

unfoldable pub increment_api_error_5xx : Value → Value → ℕ → MetricUpdate
increment_api_error_5xx partner channel code = with_status partner channel code "api_errors_5xx"

unfoldable pub increment_connection_refused : Value → Value → MetricUpdate
increment_connection_refused partner channel =
    labels "partner" partner "channel" channel inc "api_errors_connection_refused"

unfoldable pub increment_api_timeout : Value → Value → MetricUpdate
increment_api_timeout partner channel =
    labels "partner" partner "channel" channel inc "api_errors_timeout"

unfoldable pub set_api_error_rate : String → String → Decimal → MetricUpdate
set_api_error_rate partner channel rate =
    labels "partner" (str partner) "channel" (str channel) (set rate) "api_error_rate"

-- A call of one of the methods.
unfoldable pub update_metric : MetricUpdate → Prog (Unit {0})
unfolding call
update_metric u = call (metric u)
