-- ===== src/Presentation/Controllers/Initiation.antt =====
-- payments.controller.ts: the answer to a request for a payment, with what was done.
use aspin_partners_bridge.Common.{◌++◌, [], ◌∷◌, none, some, true, false, ◌≡◌, ◌⊎◌}
use aspin_partners_bridge.Value.{Value, null, num, str, object}
use aspin_partners_bridge.Errors.{Error, error_status_code, status_code}
use aspin_partners_bridge.Domain.{
  no_fields, PartialPayment, PaymentEntity, PaymentInitiationPayload,
}
use aspin_partners_bridge.Effects.{JobSpec, Services}
use aspin_partners_bridge.Executors.{Executor, get_channel}
use aspin_partners_bridge.Executors.Initiate.Outcome.{
  Stage, start, duplicate, queued, unsaved, unqueued, IsRefused,
}
use aspin_partners_bridge.Presentation.Controllers.{
  InitiatePaymentDto, HttpResponse, error_response,
}

abbrev payload_of : InitiatePaymentDto → PaymentInitiationPayload
payload_of dto = record {
  amount = dto.amount;
  currency = dto.currency;
  customer_id = dto.customer_id;
  phone_number = dto.phone_number;
  reference = dto.reference;
  partner_id = dto.partner_id;
  channel = dto.channel;
}

-- An answer without success that carries the error, with the status of the error, and 500 where
-- that is absent or zero.
pub record IsFailure (e : Error) (r : HttpResponse) : Type 0 where
  pub unsuccessful : r.success ≡ false
  pub carried : r.error ≡ some e
  pub empty : r.body ≡ null
  pub status :
      (((error_status_code e ≡ none) ⊎ (error_status_code e ≡ some 0)) × (r.status_code ≡ 500))
      ⊎ (error_status_code e ≡ some r.status_code)

module _ (s : Services) (dto : InitiatePaymentDto) where
  -- The row and the job of the request; the phone number is the customer's identifier.
  abbrev pub pending_row : Executor → PartialPayment
  pending_row x = record no_fields {
    partner_id = some dto.partner_id;
    channel = some (get_channel x);
    customer_id = some dto.customer_id;
    phone_number = some dto.customer_id;
    amount = some (num dto.amount);
    currency = some dto.currency;
    status = some (str "pending");
    reference = some dto.reference;
    gateway = some (get_channel x);
    processed = some false;
  }

  abbrev pub initiation_job : JobSpec
  initiation_job = record {
    queue = "payment-initiation";
    name = "payment-initiation";
    job_data = object (("reference", str dto.reference) ∷ []);
    delay = some 0;
    job_id = "payment-check-" ++ dto.reference;
  }

  -- The payment is stored and its job queued for an executor.
  abbrev pub IsAccepted : Stage → Type 0
  IsAccepted σ = (x : Executor) × (σ ≡ queued (str dto.reference) (pending_row x) initiation_job)

  -- The answer and the last stage.
  abbrev pub IsAnswered : HttpResponse → Stage → Type 0
  IsAnswered r σ =
      ((r.success ≡ true) × (r.status_code ≡ 200) × (r.error ≡ none) × IsAccepted σ)
      ⊎ ((r.success ≡ false) × (r.status_code ≡ 404) × (σ ≡ start))
      ⊎ ((r.success ≡ false)
          × (r.status_code ≡ 409)
          × ((p : PaymentEntity) × (σ ≡ duplicate (str dto.reference) p)))
      ⊎ ((e : Error) × IsFailure e r
          × ((σ ≡ unsaved e) ⊎ ((x : Executor) × (σ ≡ unqueued (pending_row x) e))))

  abbrev Refused : Error → Stage → Type 0
  Refused e σ =
      (((error_response e).status_code ≡ 404) × (σ ≡ start))
      ⊎ ((x : Executor) × IsRefused x (payload_of dto) e σ)
