-- ===== src/Executors/Initiate.antt =====
-- base.payment.executor.ts: `initiate`.
pub mod Outcome
pub mod Columns
pub mod Durable
use aspin_partners_bridge.Common.{◌++◌, false, none, some}
use aspin_partners_bridge.Value.{str, num}
use aspin_partners_bridge.Errors.{raised, duplicate_transaction_attempt}
use aspin_partners_bridge.Domain.{
  PartialPayment, no_fields, PaymentInitiationPayload, PaymentInitiationResponse,
}
use aspin_partners_bridge.Effects.{throw_if, Prog, ret, throw, ◌>>=◌, ◌>>◌, call, now}
use aspin_partners_bridge.Monitoring.{update_metric, increment_payment_initiated}
use aspin_partners_bridge.Repositories.Payments.{create, get_by_reference}
use aspin_partners_bridge.Queue.Producer.{add_payment_initiation_job}
use aspin_partners_bridge.Executors.Defs.{Executor, get_channel}

-- The row that a payment starts as. The phone number is taken from `customerId`.
unfoldable pub pending_payment : Executor → PaymentInitiationPayload → PartialPayment
pending_payment x payload = record no_fields {
  partner_id = some payload.partner_id;
  channel = some (get_channel x);
  customer_id = some payload.customer_id;
  phone_number = some payload.customer_id;
  amount = some (num payload.amount);
  currency = some payload.currency;
  status = some (str "pending");
  reference = some payload.reference;
  gateway = some (get_channel x);
  processed = some false;
}

unfoldable pub initiate : Executor → PaymentInitiationPayload → Prog PaymentInitiationResponse
initiate x payload = do
  update_metric (increment_payment_initiated payload.partner_id (get_channel x))
  existing ← get_by_reference (str payload.reference)
  throw_if existing (
      raised
        (duplicate_transaction_attempt ("Duplicate transaction attempt: " ++ payload.reference)))
  create (pending_payment x payload)
  add_payment_initiation_job payload.reference (some 0)
  time ← call now
  ret (record {
    transaction_id = none;
    status = "pending";
    amount = payload.amount;
    currency = payload.currency;
    timestamp = time;
  })
