-- ===== src/Executors/Bounds.antt =====
-- How many calls the parts of the executors make at most.
use aspin_partners_bridge.Common.{String, arith}
use aspin_partners_bridge.Value.{Value, is_text}
use aspin_partners_bridge.Domain.{
  PaymentEntity, PaymentEvent, MpesaStkPushPayload, AirtelDirectDebitPayload,
}
use aspin_partners_bridge.Effects.{MetricUpdate, metric, now, Services}
use aspin_partners_bridge.Effects.Footprint.{footprint}
use aspin_partners_bridge.Effects.Bound.{
  Within, fits, ret-Within, throw-Within, none-Within, attempt-Within, call-Within, if-Within,
  try_catch-Within, bind-Within, silent,
}
use aspin_partners_bridge.Monitoring.{update_metric}
use aspin_partners_bridge.Adapters.Http.{send}
use aspin_partners_bridge.Adapters.Aspin
use aspin_partners_bridge.Adapters.Aspin.{notify_payment_status}
use aspin_partners_bridge.Adapters.PaymentHub
use aspin_partners_bridge.Adapters.PaymentHub.{response_of}
use aspin_partners_bridge.Rabbitmq
use aspin_partners_bridge.Rabbitmq.{publish}
use aspin_partners_bridge.Channels.Mpesa
use aspin_partners_bridge.Channels.Airtel
use aspin_partners_bridge.Channels.{
  Channel, apa_mpesa, britam_airtel, query_transaction, stk_push, direct_debit,
}
use aspin_partners_bridge.Executors.Footprint.{hmac_hex-Uses, get_config-Uses, response_of-Uses}
use aspin_partners_bridge.Executors.Publish.{publish_event, notify_aspin, publish_payment_result}

pub update_metric-Within : (u : MetricUpdate) → Within 1 (update_metric u)
unfolding update_metric
update_metric-Within u = call-Within (metric u)

ruleset asks_hub = (footprint, silent, get_config-Uses, response_of-Uses)

module _ (s : Services) where
  send-Within :
      (base key method path : String) (payload : Value)
      → Within 1 (send s base key method path payload)
  unfolding send
  send-Within base key method path payload = attempt-Within _ _

  make_http_request-Within :
      (method path : String) (payload : Value)
      → Within 1 (PaymentHub.make_http_request s method path payload)
  unfolding PaymentHub.make_http_request
  make_http_request-Within method path payload =
      try_catch-Within (send-Within _ _ _ _ _) (λ e. throw-Within _)

  publish-Within : (exchange key : String) (v : Value) → Within 2 (publish s exchange key v)
  unfolding publish
  publish-Within exchange key v =
      try_catch-Within
        (bind-Within (call-Within _)
          (λ ready. if-Within ready (attempt-Within _ _) (fits 1 (ret-Within _) (omega arith))))
        (λ e. ret-Within _)

  publish_event-Within : (e : PaymentEvent) (status : Value) → Within 2 (publish_event s e status)
  unfolding publish_event Rabbitmq.publish_payment_completed Rabbitmq.publish_payment_failed
      Rabbitmq.publish_payment_pending
  publish_event-Within e status =
      if-Within (is_text status "completed") (publish-Within _ _ _)
        (if-Within (is_text status "failed") (publish-Within _ _ _) (publish-Within _ _ _))

  notify_aspin-Within :
      (p : PaymentEntity) (status : Value) (time : String) → Within 1 (notify_aspin s p status time)
  unfolding notify_aspin notify_payment_status Aspin.make_http_request
  notify_aspin-Within p status time = search (asks_hub, hmac_hex-Uses, send-Within) depth 12

  -- The clock, the broker's channel, the event, and the request to Aspin.
  pub publish_payment_result-Within :
      (p : PaymentEntity) (status : Value) → Within 4 (publish_payment_result s p status)
  unfolding publish_payment_result
  publish_payment_result-Within p status = bind-Within (call-Within now) (λ time.
      bind-Within (publish_event-Within _ _)
        (λ b. try_catch-Within (notify_aspin-Within p status _) (λ e. ret-Within _)))

  pub query_transaction-Within : (ch : Channel) (id : Value) → Within 1 (query_transaction s ch id)
  unfolding query_transaction Mpesa.query_transaction Airtel.query_transaction
      PaymentHub.query_mpesa_status PaymentHub.query_airtel_status
  query_transaction-Within apa_mpesa id = search (asks_hub, make_http_request-Within) depth 16
  query_transaction-Within _ id = search (asks_hub, make_http_request-Within) depth 16

  pub stk_push-Within : (ch : Channel) (p : MpesaStkPushPayload) → Within 1 (stk_push s ch p)
  unfolding stk_push Mpesa.stk_push Mpesa.load_config PaymentHub.initiate_mpesa_payment
  stk_push-Within britam_airtel p = fits 1 (none-Within (search footprint)) (omega arith)
  stk_push-Within _ p = search (asks_hub, make_http_request-Within) depth 20

  pub direct_debit-Within :
      (ch : Channel) (p : AirtelDirectDebitPayload) → Within 1 (direct_debit s ch p)
  unfolding direct_debit Airtel.direct_debit Airtel.load_config PaymentHub.initiate_airtel_payment
  direct_debit-Within britam_airtel p = search (asks_hub, make_http_request-Within) depth 20
  direct_debit-Within _ p = fits 1 (none-Within (search footprint)) (omega arith)
