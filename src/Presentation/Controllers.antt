-- ===== src/Presentation/Controllers.antt =====
-- presentation/controllers/payments.controller.ts. `plain` is class-transformer's instanceToPlain;
-- the bodies have passed the validation pipe.
pub mod Answers
pub mod Initiation
use aspin_partners_bridge.Common.{
  ℕ, String, Bool, true, false, Option, none, some, eqb, ◌==◌, if◌then◌else◌,
}
use aspin_partners_bridge.Value.{Value, Decimal, null, str}
use aspin_partners_bridge.Errors.{Error, error_message, error_status_code}
use aspin_partners_bridge.Domain.{
  InitiatePaymentResponse, WebhookProcessingResponse, PaymentNotificationResponse,
}
use aspin_partners_bridge.Effects.{Prog, ret, ◌>>=◌, try_catch, Services}
use aspin_partners_bridge.UseCases.{initiate_payment, handle_webhook, check_payment}

-- application/dto/payments/input.ts: the bodies of the two POST requests.
pub record InitiatePaymentDto : Type 0 where
  pub amount : Decimal
  pub currency : String
  pub customer_id : String
  pub phone_number : String
  pub reference : String
  pub partner_id : String
  pub channel : String

pub record PaymentHubWebhookDto : Type 0 where
  pub transaction_id : String
  pub amount : Decimal
  pub status : String
  pub currency : String
  pub timestamp : String
  pub signature : String

-- `res.status(statusCode).json({ success, message, error, data })`
pub record HttpResponse : Type 0 where
  pub status_code : ℕ
  pub success : Bool
  pub message : String
  pub error : Option Error
  pub body : Value

unfoldable pub build_response : ℕ → Bool → String → Option Error → Value → HttpResponse
build_response status_code success message error body = record {
  status_code = status_code;
  success = success;
  message = message;
  error = error;
  body = body;
}

-- `err?.statusCode || 500`, `err?.message || 'Internal Server Error'`
abbrev pub status_or_500 : Option ℕ → ℕ
status_or_500 none = 500
status_or_500 (some c) = if eqb c 0 then 500 else c

abbrev pub message_or_default : Option String → String
message_or_default none = "Internal Server Error"
message_or_default (some m) = if m == "" then "Internal Server Error" else m

-- The catch block of every handler.
unfoldable pub error_response : Error → HttpResponse
error_response e =
    build_response (status_or_500 (error_status_code e)) false
      (message_or_default (error_message e)) (some e) null

-- The answer to a check; `data` is never null where `checkPayment` returns.
unfoldable pub check_response :
    (PaymentNotificationResponse → Value) → Option PaymentNotificationResponse → HttpResponse
check_response plain none = build_response 404 false "Payment not found" none null
check_response plain (some result) =
    build_response 200 true "Successfully checked payment status" none (plain result)

module _ (s : Services) where
  unfoldable pub post_initiate :
      (InitiatePaymentResponse → Value) → InitiatePaymentDto → Prog HttpResponse
  post_initiate plain dto =
      try_catch
        (do
          result ← initiate_payment s (record {
            amount = dto.amount;
            currency = dto.currency;
            customer_id = dto.customer_id;
            phone_number = dto.phone_number;
            reference = dto.reference;
            channel = dto.channel;
            partner_id = dto.partner_id;
          })
          ret (build_response 200 true "Successfully initiated payment" none (plain result)))
        (λ err. ret (error_response err))

  unfoldable pub post_webhook :
      (WebhookProcessingResponse → Value) → PaymentHubWebhookDto → Value → Prog HttpResponse
  post_webhook plain dto partner_id =
      try_catch
        (do
          result ← handle_webhook s (record {
            transaction_id = dto.transaction_id;
            status = dto.status;
            partner_id = partner_id;
            amount = dto.amount;
            currency = dto.currency;
            timestamp = dto.timestamp;
            signature = dto.signature;
          })
          ret (
              build_response 200 true "Payment notification processed successfully" none
                (plain result)))
        (λ err. ret (error_response err))

  unfoldable pub get_check : (PaymentNotificationResponse → Value) → String → Prog HttpResponse
  get_check plain transaction_id =
      try_catch
        (do result ← check_payment s (str transaction_id); ret (check_response plain (some result)))
        (λ err. ret (error_response err))
