-- ===== src/Presentation/Validation/Filter.antt =====
-- presentation/filters/validation.filter.ts: what a BadRequestException is answered.
use aspin_partners_bridge.Common.{
  ℕ, String, ◌++◌, Bool, true, false, Option, none, some, List, [], ◌∷◌, ◌+++◌, ◌≡◌, refl, ap, ◌⊎◌,
  inl, inr, Bool-cases, if◌then◌else◌,
}
use aspin_partners_bridge.Value.{Value, Items, nil, cons, null, str, arr, truthy, or_else}
use aspin_partners_bridge.Errors.{Exception, payload_validation, Error, type_error}
use aspin_partners_bridge.Effects.{Result, ok, err}

-- An error of the pipe: a ValidationError, as it is serialised, with the values of its
-- constraints, which one for a nested object lacks; or a text.
pub data Detail : Type 0 where
  validation_error : Value → Option (List String) → Detail
  plain_detail : String → Detail

-- `exception.getResponse().message`: the array of the pipe's errors, or another value.
pub data ResponseMessage : Type 0 where
  details : List Detail → ResponseMessage
  other_message : Value → ResponseMessage

pub record BadRequestException : Type 0 where
  pub message : Option String
  pub response_message : ResponseMessage

-- `res.status(400).json(...)`; the message may be an array.
pub record FilterResponse : Type 0 where
  pub status_code : ℕ
  pub success : Bool
  pub message : Value
  pub error : Exception
  pub body : Value

-- `messages.join(', ')`
abbrev pub join_messages : List String → String
join_messages [] = ""
join_messages (m ∷ []) = m
join_messages (m ∷ (n ∷ l)) = m ++ ", " ++ join_messages (n ∷ l)

-- `Object.values(error.constraints)`, which throws where there are none.
abbrev pub no_values : Error
no_values = type_error "Cannot convert undefined or null to object"

abbrev pub values_of : Detail → Result (List String)
values_of (validation_error v (some cs)) = ok cs
values_of (validation_error v none) = err no_values
values_of (plain_detail t) = err no_values

abbrev joined : List String → Result (List String) → Result (List String)
joined cs (ok l) = ok (cs +++ l)
joined cs (err e) = err e

abbrev after_first : Result (List String) → Result (List String) → Result (List String)
after_first (ok cs) r = joined cs r
after_first (err e) r = err e

-- `validationErrors.map((error) => Object.values(error.constraints)).flat()`
abbrev pub constraint_messages : List Detail → Result (List String)
constraint_messages [] = ok []
constraint_messages (d ∷ l) = after_first (values_of d) (constraint_messages l)

-- `message[0] instanceof ValidationError`
abbrev pub starts_with_error : List Detail → Bool
starts_with_error (validation_error v c ∷ l) = true
starts_with_error _ = false

-- The errors as they stand, in an answer.
abbrev pub detail_items : List Detail → Items
detail_items [] = nil
detail_items (validation_error v c ∷ l) = cons v (detail_items l)
detail_items (plain_detail t ∷ l) = cons (str t) (detail_items l)

-- `new PayloadValidationException(exception?.message)`, which the answer carries.
abbrev pub refusal : BadRequestException → Value → FilterResponse
refusal e message = record {
  status_code = 400;
  success = false;
  message = message;
  error = payload_validation e.message;
  body = null;
}

abbrev pub listed : BadRequestException → Result (List String) → Result FilterResponse
listed e (ok messages) = ok (refusal e (str ("Validation failed: " ++ join_messages messages)))
listed e (err f) = err f

abbrev pub catch_details : BadRequestException → List Detail → Result FilterResponse
catch_details e l =
    if starts_with_error l
    then listed e (constraint_messages l)
    else ok (refusal e (arr (detail_items l)))

unfoldable pub catch : BadRequestException → Result FilterResponse
catch e = elim e.response_message [
  | details l ↦ catch_details e l
  | other_message m ↦ ok (refusal e (or_else m (str "Bad Request")))
]

-- The constraints of all errors in order; there are none where an error carries none.
abbrev pub Collects : List Detail → List String → Type 0
Collects [] cs = cs ≡ []
Collects (validation_error v (some ms) ∷ l) cs =
    (rest : List String) × Collects l rest × (cs ≡ ms +++ rest)
Collects (_ ∷ l) cs = ⊥

-- Some error carries no constraints, as for a nested object, or is no ValidationError.
abbrev pub LacksConstraints : List Detail → Type 0
LacksConstraints [] = ⊥
LacksConstraints (validation_error v (some ms) ∷ l) = LacksConstraints l
LacksConstraints (_ ∷ l) = Unit

-- The texts, with a comma and a space between one and the next.
abbrev pub Separates : List String → String → Type 0
Separates [] t = t ≡ ""
Separates (m ∷ []) t = t ≡ m
Separates (m ∷ (n ∷ l)) t = (u : String) × Separates (n ∷ l) u × (t ≡ m ++ ", " ++ u)

-- The members of the report, as they stand.
abbrev pub Copies : List Detail → Items → Type 0
Copies [] i = i ≡ nil
Copies (validation_error v c ∷ l) i = (j : Items) × Copies l j × (i ≡ cons v j)
Copies (plain_detail t ∷ l) i = (j : Items) × Copies l j × (i ≡ cons (str t) j)

-- The answer with this message.
abbrev pub Answers : BadRequestException → Value → Result FilterResponse → Type 0
Answers e message r =
    r
    ≡ ok (record {
      status_code = 400;
      success = false;
      message = message;
      error = payload_validation e.message;
      body = null;
    })

-- The answer to an array whose members stand in the answer.
abbrev pub AnswersCopied : BadRequestException → List Detail → Result FilterResponse → Type 0
AnswersCopied e l r = (i : Items) × Copies l i × Answers e (arr i) r

-- The answer to an array that starts with a ValidationError, or the filter's own failure.
abbrev pub AnswersListed : BadRequestException → List Detail → Result FilterResponse → Type 0
AnswersListed e l r =
    ((cs : List String) × (t : String) × Collects l cs
      × Separates cs t
      × Answers e (str ("Validation failed: " ++ t)) r)
    ⊎ (LacksConstraints l × (r ≡ err (type_error "Cannot convert undefined or null to object")))

abbrev pub IsCaught : BadRequestException → ResponseMessage → Result FilterResponse → Type 0
IsCaught e (other_message m) r =
    ((truthy m ≡ true) × Answers e m r) ⊎ ((truthy m ≡ false) × Answers e (str "Bad Request") r)
IsCaught e (details []) r = AnswersCopied e [] r
IsCaught e (details (plain_detail t ∷ l)) r = AnswersCopied e (plain_detail t ∷ l) r
IsCaught e (details (validation_error v c ∷ l)) r = AnswersListed e (validation_error v c ∷ l) r

separated : (cs : List String) → Separates cs (join_messages cs)
separated [] = refl
separated (m ∷ []) = refl
separated (m ∷ (n ∷ l)) = (join_messages (n ∷ l), separated (n ∷ l), refl)

copied : (l : List Detail) → Copies l (detail_items l)
copied [] = refl
copied (validation_error v c ∷ l) = (detail_items l, copied l, refl)
copied (plain_detail t ∷ l) = (detail_items l, copied l, refl)

-- What the map over the errors gives.
abbrev Collected : List Detail → Type 0
Collected l =
    ((cs : List String) × Collects l cs × (constraint_messages l ≡ ok cs))
    ⊎ (LacksConstraints l × (constraint_messages l ≡ err no_values))

collected : (l : List Detail) → Collected l
collected [] = inl ([], refl, refl)
collected (validation_error v (some cs) ∷ l) = elim (collected l) [
  | inl (ds, q, e) ↦ inl (cs +++ ds, (ds, q, refl), ap (joined cs) e)
  | inr (h, e) ↦ inr (h, ap (joined cs) e)
]
collected (validation_error v none ∷ l) = inr (tt, refl)
collected (plain_detail t ∷ l) = inr (tt, refl)

listed_cases :
    (e : BadRequestException) (l : List Detail)
    → AnswersListed e l (listed e (constraint_messages l))
listed_cases e l = elim (collected l) [
  | inl (cs, q, same) ↦ inl (cs, join_messages cs, q, separated cs, ap (listed e) same)
  | inr (h, same) ↦ inr (h, ap (listed e) same)
]

or_else_cases :
    (e : BadRequestException) (m : Value)
    → IsCaught e (other_message m) (ok (refusal e (or_else m (str "Bad Request"))))
or_else_cases e m = elim (Bool-cases (truthy m)) [
  | inl t ↦ inl (t, ap (λ b. ok (refusal e (if b then m else str "Bad Request"))) t)
  | inr f ↦ inr (f, ap (λ b. ok (refusal e (if b then m else str "Bad Request"))) f)
]

-- What the filter answers to every report of the pipe. An array that starts with a ValidationError
-- is answered with status 400, no success, the payload's exception, no data and, after "Validation
-- failed: ", the constraints of all its errors in order with commas between them; except where one
-- of its errors carries no constraints, as for a nested object: then the filter itself throws a
-- TypeError. Any other array stands in such an answer as the message, and so does any other value,
-- or "Bad Request" where that value is falsy.
pub catch_answers : (e : BadRequestException) → IsCaught e e.response_message (catch e)
unfolding catch
catch_answers e = at e.response_message
  where
    at :
        (m : ResponseMessage)
        → IsCaught e m (elim m [
          | details l ↦ catch_details e l
          | other_message m ↦ ok (refusal e (or_else m (str "Bad Request")))
        ])
    at (other_message m) = or_else_cases e m
    at (details []) = (nil, refl, refl)
    at (details (plain_detail t ∷ l)) =
        (detail_items (plain_detail t ∷ l), copied (plain_detail t ∷ l), refl)
    at (details (validation_error v c ∷ l)) = listed_cases e (validation_error v c ∷ l)
