-- ===== src/Presentation/Validation.antt =====
-- application/dto/payments/input.ts and application/dto/customer/input.ts: the decorators of the
-- request bodies, which class-validator checks.
pub mod Filter
use aspin_partners_bridge.Common.{ℕ, ◌*◌, ◌^◌, ◌≤◌, String, Bool, true, false, ◌≡◌, ◌≢◌}
use aspin_partners_bridge.Value.{Value, Decimal, undefined, null, num, str, obj, Fields, optional}

-- A decorator of class-validator, and the decorated properties of a class, a decorator at a time.
mutual
  pub data Decorator : Type 0 where
    is_string is_not_empty is_number is_email is_date_string : Decorator
    min : ℕ → Decorator
    validate_nested : Schema → Decorator

  pub data Schema : Type 0 where
    end : Schema
    decorated : String → Decorator → Schema → Schema

-- `@IsString() @IsNotEmpty() name: string`
abbrev pub text_property : String → Schema → Schema
text_property name rest = decorated name is_string (decorated name is_not_empty rest)

-- `@IsNumber() @IsNotEmpty() @Min(1) name: number`
abbrev pub amount_property : String → Schema → Schema
amount_property name rest =
    decorated name is_number (decorated name is_not_empty (decorated name (min 1) rest))

abbrev pub initiate_payment_dto : Schema
initiate_payment_dto = amount_property "amount" (
    text_property "currency" (
      text_property "customer_id" (
        text_property "phoneNumber"
          (text_property "reference" (text_property "partner_id" (text_property "channel" end))))))

abbrev pub payment_hub_webhook_dto : Schema
payment_hub_webhook_dto = text_property "transaction_id" (
    amount_property "amount" (
      text_property "status"
        (text_property "currency" (text_property "timestamp" (text_property "signature" end)))))

abbrev pub address_dto : Schema
address_dto = text_property "line1" (text_property "city" (text_property "country" end))

abbrev pub upsert_customer_dto : Schema
upsert_customer_dto = text_property "first_name" (
    text_property "last_name" (
      text_property "national_id" (
        decorated "date_of_birth" is_date_string (
          decorated "date_of_birth" is_not_empty (
            decorated "email" is_email (
              decorated "email" is_not_empty (
                text_property "phone_number" (
                  decorated "address" (validate_nested address_dto)
                    (decorated "address" is_not_empty end)))))))))

abbrev pub initiate_kyc_dto : Schema
initiate_kyc_dto = text_property "reason" end

-- The number is at least `n`.
pub record IsAtLeast (n : ℕ) (d : Decimal) : Type 0 where
  pub positive : d.negative ≡ false
  pub large : n * 10 ^ d.scale ≤ d.unscaled

-- What the documentation says a value is that a decorator accepts, and a body that a class does.
abbrev mutual
  pub Meets : Decorator → Value → Type 0
  Meets is_string v = (t : String) × (v ≡ str t)
  Meets is_not_empty v = (v ≢ str "") × (v ≢ null) × (v ≢ undefined)
  Meets is_number v = (d : Decimal) × (v ≡ num d)
  Meets is_email v = (t : String) × (v ≡ str t)
  Meets is_date_string v = (t : String) × (v ≡ str t)
  Meets (min n) v = (d : Decimal) → v ≡ num d → IsAtLeast n d
  Meets (validate_nested s) v = (fs : Fields) → v ≡ obj fs → Follows s v

  pub Follows : Schema → Value → Type 0
  Follows end v = Unit
  Follows (decorated name r s) v = Meets r (optional v name) × Follows s v

-- class-validator: which bodies it accepts for a class, and what its documentation promises.
pub record Validator : Type 0 where
  pub accepts : Schema → Value → Bool
  pub sound : (s : Schema) (v : Value) → accepts s v ≡ true → Follows s v
