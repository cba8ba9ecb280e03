-- ===== src/Tests/Validated.antt =====
-- A validator that follows the documentation, and bodies that it accepts.
use aspin_partners_bridge.Common.{
  ℕ, ◌*◌, ◌^◌, ◌≤◌, String, Bool, true, false, false-true, both, not, ◌&&◌, leb, ◌==◌, ◌≡◌, ◌≢◌,
  refl, sym, ap, ◌∙◌, none, some, [], ◌∷◌, arith,
}
use aspin_partners_bridge.Value.{Value, Decimal, undefined, null, num, str, object, whole, optional}
use aspin_partners_bridge.Presentation.Validation.{
  Decorator, is_string, is_not_empty, is_number, is_email, is_date_string, min, validate_nested,
  Schema, end, decorated, Meets, Follows, IsAtLeast, Validator, initiate_payment_dto,
}
use aspin_partners_bridge.Presentation.Validation.Filter
use aspin_partners_bridge.Presentation.Validation.Filter.{
  BadRequestException, validation_error, details, catch, IsCaught, catch_answers,
}
use aspin_partners_bridge.Effects.{err}

abbrev is_text_value : Value → Bool
is_text_value (str t) = true
is_text_value _ = false

abbrev is_filled : Value → Bool
is_filled undefined = false
is_filled null = false
is_filled (str t) = not (t == "")
is_filled _ = true

abbrev is_number_value : Value → Bool
is_number_value (num d) = true
is_number_value _ = false

abbrev is_at_least : ℕ → Value → Bool
is_at_least n (num d) = not d.negative && leb (n * 10 ^ d.scale) d.unscaled
is_at_least n _ = false

abbrev mutual
  checks : Decorator → Value → Bool
  checks is_string v = is_text_value v
  checks is_not_empty v = is_filled v
  checks is_number v = is_number_value v
  checks is_email v = is_text_value v
  checks is_date_string v = is_text_value v
  checks (min n) v = is_at_least n v
  checks (validate_nested s) v = follows s v

  follows : Schema → Value → Bool
  follows end v = true
  follows (decorated name r s) v = checks r (optional v name) && follows s v

text_value : (v : Value) → is_text_value v ≡ true → (t : String) × (v ≡ str t)
text_value (str t) h = (t, refl)
text_value undefined h = absurd (false-true h)
text_value _ h = absurd (false-true h)

number_value : (v : Value) → is_number_value v ≡ true → (d : Decimal) × (v ≡ num d)
number_value (num d) h = (d, refl)
number_value undefined h = absurd (false-true h)
number_value _ h = absurd (false-true h)

filled_value : (v : Value) → is_filled v ≡ true → (v ≢ str "") × (v ≢ null) × (v ≢ undefined)
filled_value v h = (
  λ e. false-true (ap is_filled (sym e) ∙ h),
  λ e. false-true (ap is_filled (sym e) ∙ h),
  λ e. false-true (ap is_filled (sym e) ∙ h),
)

not-true : (b : Bool) → not b ≡ true → b ≡ false
not-true true h = absurd (false-true h)
not-true false h = refl

leb-true : (a b : ℕ) → leb a b ≡ true → a ≤ b
leb-true a b h = ground (arith, h)

at_least : (n : ℕ) (v : Value) → is_at_least n v ≡ true → (d : Decimal) → v ≡ num d → IsAtLeast n d
at_least n v h d e =
    let q = both (not d.negative) _ (ap (is_at_least n) (sym e) ∙ h) in
    record { positive = not-true d.negative q.0; large = leb-true _ _ q.1 }

mutual
  meets : (r : Decorator) (v : Value) → checks r v ≡ true → Meets r v
  meets is_string v h = text_value v h
  meets is_not_empty v h = filled_value v h
  meets is_number v h = number_value v h
  meets is_email v h = text_value v h
  meets is_date_string v h = text_value v h
  meets (min n) v h = at_least n v h
  meets (validate_nested s) v h = λ fs e. all_meet s v h

  all_meet : (s : Schema) (v : Value) → follows s v ≡ true → Follows s v
  all_meet end v h = tt
  all_meet (decorated name r s) v h =
      let b = both (checks r (optional v name)) (follows s v) h in
      (meets r (optional v name) b.0, all_meet s v b.1)

abbrev documented : Validator
documented = record { accepts = follows; sound = all_meet }

abbrev initiation_body : Value
initiation_body = object (
    ("amount", num (whole 250))
    ∷ ("currency", str "KES")
    ∷ ("customer_id", str "254700000007")
    ∷ ("phoneNumber", str "254700000007")
    ∷ ("reference", str "policy-7")
    ∷ ("partner_id", str "britam")
    ∷ ("channel", str "MPESA")
    ∷ [])

-- The body that the README shows for a payment: it has no phoneNumber.
abbrev readme_body : Value
readme_body = object (
    ("amount", num (whole 1000))
    ∷ ("currency", str "KES")
    ∷ ("customer_id", str "customer-123")
    ∷ ("reference", str "INV-2026-0001")
    ∷ ("partner_id", str "britam")
    ∷ ("channel", str "MPESA")
    ∷ [])

initiations_are_accepted : documented.accepts initiate_payment_dto initiation_body ≡ true
initiations_are_accepted = refl

readme_body_fails : documented.accepts initiate_payment_dto readme_body ≡ false
readme_body_fails = refl

-- A customer whose address has no city: the error of the address has no constraints of its own.
abbrev nested_report : BadRequestException
nested_report = record {
  message = some "Bad Request Exception";
  response_message = details (
      validation_error null (some ("email must be an email" ∷ []))
      ∷ validation_error null none
      ∷ []);
}

nested_errors_throw : catch nested_report ≡ err Filter.no_values
unfolding catch
nested_errors_throw = refl

abbrev plain_report : BadRequestException
plain_report = record {
  message = some "Bad Request Exception";
  response_message = details (
      validation_error null (some ("email must be an email" ∷ "email should not be empty" ∷ []))
      ∷ validation_error null (some ("amount must be a number" ∷ []))
      ∷ []);
}

catch_answers_example : IsCaught plain_report plain_report.response_message (catch plain_report)
catch_answers_example = catch_answers plain_report
