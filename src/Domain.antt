-- ===== src/Domain.antt =====
-- domain/entities, shared/constants, application/dto: the data that the parts of the program
-- exchange. A PaymentChannel is a string enum, and any string can arrive where one is expected.
pub mod PaymentChannel
pub mod PaymentNotificationStatus
pub mod QueueType
pub mod JobType
use aspin_partners_bridge.Common.{ℕ, String, Bool, Option, none, some}
use aspin_partners_bridge.Value.{Value, Decimal}

-- A row of the table `payments` as the repository returns it. Times are in milliseconds; the
-- driver may return the decimal column as a number or as a string, and the identifier of the hub
-- may be missing, so both are values.
pub record PaymentEntity : Type 0 where
  pub reference : String
  pub transaction_id : Value
  pub partner_id : String
  pub channel : String
  pub customer_id : String
  pub amount : Value
  pub currency : String
  pub status : String
  pub gateway : String
  pub phone_number : String
  pub processed : Bool
  pub created_at : ℕ
  pub updated_at : ℕ

-- `Partial<Payment>`: what `create` and `update` are given.
pub record PartialPayment : Type 0 where
  pub reference : Option String
  pub transaction_id : Option String
  pub partner_id : Option String
  pub channel : Option String
  pub customer_id : Option String
  pub amount : Option Value
  pub currency : Option String
  pub status : Option Value
  pub gateway : Option String
  pub phone_number : Option String
  pub processed : Option Bool

-- The object literal `{}` at that type.
abbrev pub no_fields : PartialPayment
no_fields = record {
  reference = none;
  transaction_id = none;
  partner_id = none;
  channel = none;
  customer_id = none;
  amount = none;
  currency = none;
  status = none;
  gateway = none;
  phone_number = none;
  processed = none;
}

pub record PartnerConfigurationEntity : Type 0 where
  pub partner_id : Value
  pub channel : String
  pub config : Value

-- application/dto/payments/executor.dto.ts
pub record PaymentInitiationPayload : Type 0 where
  pub amount : Decimal
  pub currency : String
  pub customer_id : String
  pub reference : String
  pub phone_number : String
  pub partner_id : String
  pub channel : String

pub record PaymentInitiationResponse : Type 0 where
  pub transaction_id : Option String
  pub status : String
  pub amount : Decimal
  pub currency : String
  pub timestamp : ℕ

pub record PaymentStatusResponse : Type 0 where
  pub transaction_id : Value
  pub status : Value
  pub amount : Value
  pub currency : Value
  pub timestamp : ℕ

pub record PaymentCallbackResponse : Type 0 where
  pub transaction_id : Value
  pub status : String
  pub amount : Value
  pub currency : String
  pub timestamp : ℕ
  pub is_valid : Bool

-- application/dto/payments/channel.dto.ts
pub record MpesaStkPushPayload : Type 0 where
  pub phone_number : String
  pub amount : Value
  pub account_reference : String
  pub transaction_desc : Option String
  pub partner_id : Value

pub record AirtelDirectDebitPayload : Type 0 where
  pub phone_number : String
  pub amount : Value
  pub reference : String
  pub partner_id : Value

-- The responses of a push, a debit and a query have the same five fields.
pub record ChannelResponse : Type 0 where
  pub transaction_id : Value
  pub status : Value
  pub amount : Value
  pub currency : Value
  pub timestamp : Value

-- application/dto/payments/input.ts
pub record InitiatePaymentPayload : Type 0 where
  pub amount : Decimal
  pub currency : String
  pub customer_id : String
  pub reference : String
  pub partner_id : String
  pub phone_number : String
  pub channel : String

-- The partner is a query parameter of the request, which may be absent.
pub record PaymentHubWebhookPayload : Type 0 where
  pub transaction_id : String
  pub status : String
  pub amount : Decimal
  pub currency : String
  pub timestamp : String
  pub signature : String
  pub partner_id : Value

-- application/dto/payments/output.ts
pub record PaymentNotificationResponse : Type 0 where
  pub transaction_id : Value
  pub status : Value
  pub amount : Value
  pub currency : Value
  pub timestamp : String
  pub signature : String

pub record InitiatePaymentResponseData : Type 0 where
  pub transaction_id : Option String
  pub status : String
  pub amount : Decimal
  pub currency : String
  pub timestamp : ℕ

pub record InitiatePaymentResponse : Type 0 where
  pub success : Bool
  pub response_data : InitiatePaymentResponseData

pub record WebhookProcessingResponse : Type 0 where
  pub transaction_id : Value
  pub status : String
  pub processed : Bool

-- infrastructure/rabbitmq: `interface PaymentEvent`
pub record PaymentEvent : Type 0 where
  pub transaction_id : Value
  pub partner_id : String
  pub channel : String
  pub amount : Value
  pub currency : String
  pub status : Value
  pub timestamp : String
  pub customer_id : String
  pub reference : String
