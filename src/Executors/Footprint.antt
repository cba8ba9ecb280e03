-- ===== src/Executors/Footprint.antt =====
-- What the parts of the executors call, for any set C of calls that has the ones they need.
use aspin_partners_bridge.Common.{String, ◌≡◌, refl}
use aspin_partners_bridge.Value.{Value}
use aspin_partners_bridge.Domain.{
  PaymentEntity, PaymentEvent, PaymentNotificationResponse, MpesaStkPushPayload,
  AirtelDirectDebitPayload, ChannelResponse,
}
use aspin_partners_bridge.Effects.{
  Call, MetricUpdate, metric, HttpRequest, http_request, has_amqp_channel, amqp_publish, now, Host,
  Services,
}
use aspin_partners_bridge.Effects.Footprint.{Uses, footprint, attempt-Uses, call-Uses}
use aspin_partners_bridge.Monitoring.{update_metric}
use aspin_partners_bridge.Repositories.PartnerConfigurations.{configuration, get_config}
use aspin_partners_bridge.Adapters.Http.{send}
use aspin_partners_bridge.Adapters.Aspin
use aspin_partners_bridge.Adapters.Aspin.{notify_payment_status}
use aspin_partners_bridge.Adapters.PaymentHub
use aspin_partners_bridge.Adapters.PaymentHub.{response_of}
use aspin_partners_bridge.Rabbitmq
use aspin_partners_bridge.Rabbitmq.{exchange_name, publish}
use aspin_partners_bridge.Channels.Mpesa
use aspin_partners_bridge.Channels.Airtel
use aspin_partners_bridge.Channels.{
  Channel, apa_mpesa, britam_airtel, load_config, query_transaction, stk_push, direct_debit,
}
use aspin_partners_bridge.Channels.Callback.{hmac_hex, validate_callback}
use aspin_partners_bridge.Executors.Defs.{Executor}
use aspin_partners_bridge.Executors.Payload.{extract_transaction_id, extract_status_from_callback}
use aspin_partners_bridge.Executors.Publish.{publish_event, notify_aspin, publish_payment_result}
use aspin_partners_bridge.Executors.StatusCheck.{status_of}
use aspin_partners_bridge.Executors.Callback.{is_signed}

-- The calls that publish a payment's result.
pub record Publishes (C : Call → Type 0) : Type 0 where
  pub clock : C now
  pub ready : C has_amqp_channel
  pub event : (key content : String) → C (amqp_publish exchange_name key content)
  pub http : (q : HttpRequest) → q.timeout ≡ 10000 → C (http_request q)

module _ {C : Call → Type 0} where
  pub hmac_hex-Uses : (h : Host) (key : Value) (text : String) → Uses C (hmac_hex h key text)
  unfolding hmac_hex
  hmac_hex-Uses h (Value.str k) text = search footprint
  hmac_hex-Uses h _ text = search footprint

  pub update_metric-Uses : (u : MetricUpdate) → C (metric u) → Uses C (update_metric u)
  unfolding update_metric
  update_metric-Uses u h = call-Uses (metric u) h

  pub get_config-Uses :
      (s : Services) (partner_id : Value) (channel : String)
      → Uses C (get_config s partner_id channel)
  unfolding get_config configuration
  get_config-Uses s partner_id channel = search footprint depth 9

  pub load_config-Uses :
      (s : Services) (ch : Channel) (partner_id : Value) → Uses C (load_config s ch partner_id)
  unfolding load_config Mpesa.load_config Airtel.load_config
  load_config-Uses s apa_mpesa partner_id = search (footprint, get_config-Uses) depth 9
  load_config-Uses s _ partner_id = search (footprint, get_config-Uses) depth 9

  pub validate_callback-Uses :
      (s : Services) (payload secret : Value) → Uses C (validate_callback s payload secret)
  unfolding validate_callback
  validate_callback-Uses s payload secret = search (footprint, hmac_hex-Uses) depth 9

  pub is_signed-Uses :
      (s : Services) (x : Executor) (payload : Value) → Uses C (is_signed s x payload)
  unfolding is_signed
  is_signed-Uses s x payload = search (footprint, load_config-Uses, validate_callback-Uses) depth 9

  pub extract_transaction_id-Uses : (payload : Value) → Uses C (extract_transaction_id payload)
  unfolding extract_transaction_id
  extract_transaction_id-Uses payload = search footprint depth 9

  pub extract_status-Uses : (payload : Value) → Uses C (extract_status_from_callback payload)
  unfolding extract_status_from_callback
  extract_status-Uses payload = search footprint depth 9

  pub status_of-Uses : (r : ChannelResponse) → Uses C (status_of r)
  unfolding status_of
  status_of-Uses r = search footprint

  pub response_of-Uses : (v : Value) → Uses C (response_of v)
  unfolding response_of
  response_of-Uses v = search footprint depth 12

module _ {C : Call → Type 0} (s : Services)
    (http : (q : HttpRequest) → q.timeout ≡ 10000 → C (http_request q)) where
  send-Uses :
      (base key method path : String) (payload : Value)
      → Uses C (send s base key method path payload)
  unfolding send
  send-Uses base key method path payload = attempt-Uses _ _ (http _ refl)

  pub notify_payment_status-Uses :
      (p : PaymentNotificationResponse) → Uses C (notify_payment_status s p)
  unfolding notify_payment_status Aspin.make_http_request
  notify_payment_status-Uses p = search (footprint, send-Uses) depth 9

  pub notify_aspin-Uses :
      (p : PaymentEntity) (status : Value) (time : String) → Uses C (notify_aspin s p status time)
  unfolding notify_aspin
  notify_aspin-Uses p status time =
      search (footprint, hmac_hex-Uses, notify_payment_status-Uses) depth 9

  make_http_request-Uses :
      (method path : String) (payload : Value)
      → Uses C (PaymentHub.make_http_request s method path payload)
  unfolding PaymentHub.make_http_request
  make_http_request-Uses method path payload = search (footprint, send-Uses) depth 9

  pub query_transaction-Uses : (ch : Channel) (id : Value) → Uses C (query_transaction s ch id)
  unfolding query_transaction Mpesa.query_transaction Airtel.query_transaction
      PaymentHub.query_mpesa_status PaymentHub.query_airtel_status
  query_transaction-Uses apa_mpesa id =
      search (footprint, make_http_request-Uses, response_of-Uses) depth 12
  query_transaction-Uses _ id =
      search (footprint, make_http_request-Uses, response_of-Uses) depth 12

  pub stk_push-Uses : (ch : Channel) (p : MpesaStkPushPayload) → Uses C (stk_push s ch p)
  unfolding stk_push Mpesa.stk_push Mpesa.load_config PaymentHub.initiate_mpesa_payment
  stk_push-Uses britam_airtel p = search footprint
  stk_push-Uses _ p =
      search (footprint, get_config-Uses, make_http_request-Uses, response_of-Uses) depth 20

  pub direct_debit-Uses :
      (ch : Channel) (p : AirtelDirectDebitPayload) → Uses C (direct_debit s ch p)
  unfolding direct_debit Airtel.direct_debit Airtel.load_config PaymentHub.initiate_airtel_payment
  direct_debit-Uses britam_airtel p =
      search (footprint, get_config-Uses, make_http_request-Uses, response_of-Uses) depth 20
  direct_debit-Uses _ p = search footprint

module _ {C : Call → Type 0} (s : Services) (calls : Publishes C) where
  publish-Uses : (key : String) (v : Value) → Uses C (publish s exchange_name key v)
  unfolding publish
  publish-Uses key v = search (footprint, attempt-Uses, call-Uses, calls.ready, calls.event) depth 9

  pub publish_event-Uses : (e : PaymentEvent) (status : Value) → Uses C (publish_event s e status)
  unfolding publish_event Rabbitmq.publish_payment_completed Rabbitmq.publish_payment_failed
      Rabbitmq.publish_payment_pending
  publish_event-Uses e status = search (footprint, publish-Uses) depth 9

  pub publish_payment_result-Uses :
      (p : PaymentEntity) (status : Value) → Uses C (publish_payment_result s p status)
  unfolding publish_payment_result
  publish_payment_result-Uses p status =
      search
        (
          footprint,
          call-Uses,
          calls.clock,
          publish_event-Uses,
          notify_aspin-Uses {C = C} s calls.http,
        )
        depth 9
