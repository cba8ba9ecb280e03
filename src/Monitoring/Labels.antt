-- ===== src/Monitoring/Labels.antt =====
-- infrastructure/monitoring/monitoring.module.ts: the declared metrics. prom-client refuses an
-- update with a label that is not declared, and a call that the kind of metric does not have.
use aspin_partners_bridge.Common.{
  ℕ, String, Bool, true, false, ◌&&◌, List, [], ◌∷◌, ◌==◌, ◌≡◌, refl, any, all, includes,
}
use aspin_partners_bridge.Value.{Value, Decimal}
use aspin_partners_bridge.Effects.{MetricUpdate, Measure, inc, set, observe}
use aspin_partners_bridge.Monitoring.{
  increment_payment_initiated, increment_payment_success, increment_webhook_received,
  increment_webhook_processed, increment_webhook_failed, record_payment_duration,
  increment_api_call, increment_api_error_4xx, increment_api_error_5xx,
  increment_connection_refused, increment_api_timeout,
}

pub data MetricKind : Type 0 where
  counter gauge histogram : MetricKind

pub record Declaration : Type 0 where
  pub kind : MetricKind
  pub name : String
  pub label_names : List String

abbrev counter_of : String → List String → Declaration
counter_of name labels = record { kind = counter; name = name; label_names = labels }

abbrev gauge_of : String → List String → Declaration
gauge_of name labels = record { kind = gauge; name = name; label_names = labels }

abbrev by_partner : List String
by_partner = "partner" ∷ "channel" ∷ []

abbrev by_status_code : List String
by_status_code = "partner" ∷ "channel" ∷ "status_code" ∷ []

-- The providers of `MonitoringModule`, in order.
unfoldable pub declarations : List Declaration
declarations =
    counter_of "payments_initiated" by_partner
    ∷ counter_of "payments_success" by_partner
    ∷ gauge_of "payments_success_rate" by_partner
    ∷ counter_of "webhooks_received" ("partner" ∷ "source" ∷ [])
    ∷ counter_of "webhooks_processed" ("partner" ∷ "status" ∷ [])
    ∷ counter_of "webhooks_failed" ("partner" ∷ "reason" ∷ [])
    ∷ gauge_of "webhooks_delivery_rate" []
    ∷ record {
      kind = histogram;
      name = "payment_processing_duration";
      label_names = "partner" ∷ "channel" ∷ "status" ∷ [];
    }
    ∷ counter_of "api_calls_total" by_partner
    ∷ counter_of "api_errors_4xx" by_status_code
    ∷ counter_of "api_errors_5xx" by_status_code
    ∷ counter_of "api_errors_connection_refused" by_partner
    ∷ counter_of "api_errors_timeout" by_partner
    ∷ gauge_of "api_error_rate" by_partner
    ∷ []

abbrev measures : MetricKind → Measure → Bool
measures counter inc = true
measures gauge (set _) = true
measures histogram (observe _) = true
measures _ _ = false

-- The update names a declared metric, its labels are declared, and the call fits the kind.
unfoldable pub is_declared : MetricUpdate → Bool
unfolding declarations
is_declared u =
    any
      (λ d.
        d.name == u.name
        && measures d.kind u.measure
        && all (λ l. includes d.label_names l.0) u.labels)
      declarations

pub IsDeclared-payment_initiated :
    (partner channel : String) → is_declared (increment_payment_initiated partner channel) ≡ true
unfolding is_declared increment_payment_initiated
IsDeclared-payment_initiated partner channel = refl

pub IsDeclared-payment_success :
    (partner channel : String) → is_declared (increment_payment_success partner channel) ≡ true
unfolding is_declared increment_payment_success
IsDeclared-payment_success partner channel = refl

pub IsDeclared-webhook_received :
    (partner : String) → is_declared (increment_webhook_received partner) ≡ true
unfolding is_declared increment_webhook_received
IsDeclared-webhook_received partner = refl

pub IsDeclared-webhook_processed :
    (partner status : String) → is_declared (increment_webhook_processed partner status) ≡ true
unfolding is_declared increment_webhook_processed
IsDeclared-webhook_processed partner status = refl

pub IsDeclared-webhook_failed :
    (partner reason : String) → is_declared (increment_webhook_failed partner reason) ≡ true
unfolding is_declared increment_webhook_failed
IsDeclared-webhook_failed partner reason = refl

pub IsDeclared-payment_duration :
    (partner channel status : String) (duration : Decimal)
    → is_declared (record_payment_duration partner channel status duration) ≡ true
unfolding is_declared record_payment_duration
IsDeclared-payment_duration partner channel status duration = refl

pub IsDeclared-api_call :
    (partner channel : Value) → is_declared (increment_api_call partner channel) ≡ true
unfolding is_declared increment_api_call
IsDeclared-api_call partner channel = refl

pub IsDeclared-api_error_4xx :
    (partner channel : Value) (code : ℕ)
    → is_declared (increment_api_error_4xx partner channel code) ≡ true
unfolding is_declared increment_api_error_4xx
IsDeclared-api_error_4xx partner channel code = refl

pub IsDeclared-api_error_5xx :
    (partner channel : Value) (code : ℕ)
    → is_declared (increment_api_error_5xx partner channel code) ≡ true
unfolding is_declared increment_api_error_5xx
IsDeclared-api_error_5xx partner channel code = refl

pub IsDeclared-connection_refused :
    (partner channel : Value) → is_declared (increment_connection_refused partner channel) ≡ true
unfolding is_declared increment_connection_refused
IsDeclared-connection_refused partner channel = refl

pub IsDeclared-api_timeout :
    (partner channel : Value) → is_declared (increment_api_timeout partner channel) ≡ true
unfolding is_declared increment_api_timeout
IsDeclared-api_timeout partner channel = refl

pub ruleset declared = (
  IsDeclared-payment_initiated, IsDeclared-payment_success, IsDeclared-webhook_received,
  IsDeclared-webhook_processed, IsDeclared-webhook_failed, IsDeclared-payment_duration,
  IsDeclared-api_call, IsDeclared-api_error_4xx, IsDeclared-api_error_5xx,
  IsDeclared-connection_refused, IsDeclared-api_timeout,
)
