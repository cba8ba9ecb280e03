-- ===== src/Presentation/Controllers/Answers.antt =====
-- The answers of the controller, over the results of the use cases.
use aspin_partners_bridge.Common.{String, true, none}
use aspin_partners_bridge.Value.{Value}
use aspin_partners_bridge.Domain.{InitiatePaymentPayload, PaymentHubWebhookPayload}
use aspin_partners_bridge.Effects.{Result, ok, err}
use aspin_partners_bridge.Presentation.Controllers.{
  InitiatePaymentDto, PaymentHubWebhookDto, HttpResponse, build_response, error_response,
}

-- The answer to what the use case gives.
abbrev pub answered : {A : Type 0} → String → (A → Value) → Result A → HttpResponse
answered text plain (ok a) = build_response 200 true text none (plain a)
answered text plain (err e) = error_response e

abbrev pub initiation_of : InitiatePaymentDto → InitiatePaymentPayload
initiation_of dto = record {
  amount = dto.amount;
  currency = dto.currency;
  customer_id = dto.customer_id;
  phone_number = dto.phone_number;
  reference = dto.reference;
  channel = dto.channel;
  partner_id = dto.partner_id;
}

abbrev pub webhook_of : PaymentHubWebhookDto → Value → PaymentHubWebhookPayload
webhook_of dto partner_id = record {
  transaction_id = dto.transaction_id;
  status = dto.status;
  partner_id = partner_id;
  amount = dto.amount;
  currency = dto.currency;
  timestamp = dto.timestamp;
  signature = dto.signature;
}
