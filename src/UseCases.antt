-- ===== src/UseCases.antt =====
-- application/usecases/payments.usecase.ts and shared/utils/helpers.ts.
pub mod Routing
use aspin_partners_bridge.Common.{String, ◌||◌, true, none, some, [], ◌∷◌, if◌then◌else◌}
use aspin_partners_bridge.Value.{Value, num, str, object, truthy, optional, or_else}
use aspin_partners_bridge.Errors.{raised, transaction_not_found}
use aspin_partners_bridge.Domain.{
  InitiatePaymentPayload, InitiatePaymentResponse, PaymentHubWebhookPayload,
  WebhookProcessingResponse, PaymentNotificationResponse,
}
use aspin_partners_bridge.Domain.PaymentChannel
use aspin_partners_bridge.Effects.{or_throw, Prog, ret, throw, ◌>>=◌, read, Services, to_text}
use aspin_partners_bridge.Repositories.Payments.{get_by_transaction_id}
use aspin_partners_bridge.Executors.Builder.{get_executor, upper_case_of}
use aspin_partners_bridge.Executors.Initiate.{initiate}
use aspin_partners_bridge.Executors.StatusCheck.{status_check}
use aspin_partners_bridge.Executors.Callback.{handle_callback}

unfoldable pub determine_channel_from_payload : Value → Prog String
determine_channel_from_payload payload = do
  merchant_request ← read payload "MerchantRequestID"
  checkout_request ← read payload "CheckoutRequestID"
  inner ← read payload "data"
  transaction ← read payload "transaction"
  ret (
      if truthy merchant_request || truthy checkout_request
      then PaymentChannel.mpesa
      else if truthy (optional (optional inner "transaction") "id")
          || truthy (optional transaction "airtel_money_id")
      then PaymentChannel.airtel
      else PaymentChannel.mpesa)

-- The payload as the object that the controller builds, in its order of fields.
unfoldable pub webhook_value : PaymentHubWebhookPayload → Value
webhook_value p = object (
    ("transaction_id", str p.transaction_id)
    ∷ ("status", str p.status)
    ∷ ("partner_id", p.partner_id)
    ∷ ("amount", num p.amount)
    ∷ ("currency", str p.currency)
    ∷ ("timestamp", str p.timestamp)
    ∷ ("signature", str p.signature)
    ∷ [])

module _ (s : Services) where
  unfoldable pub initiate_payment : InitiatePaymentPayload → Prog InitiatePaymentResponse
  initiate_payment payload = do
    executor ← get_executor s.host (str payload.partner_id) (str payload.channel)
    result ← initiate executor (record {
      amount = payload.amount;
      currency = payload.currency;
      customer_id = payload.customer_id;
      phone_number = payload.phone_number;
      reference = payload.reference;
      partner_id = payload.partner_id;
      channel = payload.channel;
    })
    ret (record {
      success = true;
      response_data = record {
        transaction_id = result.transaction_id;
        status = result.status;
        amount = result.amount;
        currency = result.currency;
        timestamp = result.timestamp;
      };
    })

  unfoldable pub handle_webhook : PaymentHubWebhookPayload → Prog WebhookProcessingResponse
  handle_webhook payload = do
    channel ← determine_channel_from_payload (webhook_value payload)
    partner ← upper_case_of payload.partner_id
    executor ← get_executor s.host (str partner) (str channel)
    result ← handle_callback s executor (webhook_value payload)
    ret (record {
      transaction_id = result.transaction_id;
      status = result.status;
      processed = true;
    })

  unfoldable pub check_payment : Value → Prog PaymentNotificationResponse
  check_payment transaction_id = do
    found ← get_by_transaction_id transaction_id
    transaction ← or_throw found (raised (transaction_not_found (to_text s.host transaction_id)))
    executor ← get_executor s.host (str transaction.partner_id) (str transaction.channel)
    result ← status_check s executor transaction_id
    ret (record {
      transaction_id = result.transaction_id;
      status = result.status;
      amount = or_else result.amount transaction.amount;
      currency = or_else result.currency (str transaction.currency);
      timestamp = s.host.to_iso_string result.timestamp;
      signature = "";
    })
