-- ===== src/Tests/Store.antt =====
-- A database of rows that is durable, and two initiations over it.
use aspin_partners_bridge.Common.{
  String, ◌++◌, Bool, true, false, ◌||◌, Option, none, some, List, [], ◌∷◌, ◌==◌, ◌≡◌, refl, sym,
  subst, ap, arith, eq_iff, if◌then◌else◌,
}
use aspin_partners_bridge.Value.{str, whole}
use aspin_partners_bridge.Errors.{raised, duplicate_transaction_attempt}
use aspin_partners_bridge.Domain.{
  PartialPayment, PaymentInitiationPayload, PaymentInitiationResponse,
}
use aspin_partners_bridge.Effects.{
  ok, err, Call, Reply, find_by_reference, save_payment, ret, lift, call, attempt, throw_if,
}
use aspin_partners_bridge.Effects.Run.{Environment, run, world_after}
use aspin_partners_bridge.Effects.Threads.{System, play, move, started}
use native.Mathlib.Decide.{ℕ_discrete}
use aspin_partners_bridge.Monitoring.{update_metric}
use aspin_partners_bridge.Repositories.Payments.{create, get_by_reference}
use aspin_partners_bridge.Queue.Producer.{add_payment_initiation_job}
use aspin_partners_bridge.Executors.{britam_mpesa, britam_airtel, apa_mpesa}
use aspin_partners_bridge.Executors.Initiate.{initiate}
use aspin_partners_bridge.Executors.Initiate.Durable.{Durable, references_are_taken_once}
use aspin_partners_bridge.Tests.{payment, reply, initiation}

abbrev row_is : Option String → String → Bool
row_is none r = false
row_is (some q) r = q == r

abbrev has_row : String → List PartialPayment → Bool
has_row r [] = false
has_row r (p ∷ l) = row_is p.reference r || has_row r l

abbrev stored_reply : (c : Call) → List PartialPayment → Reply c
stored_reply (find_by_reference (str r)) l =
    ok (if has_row r l then some (record payment { reference = r }) else none)
stored_reply c l = reply c 0

abbrev stored_after : Call → List PartialPayment → List PartialPayment
stored_after (save_payment p) l = p ∷ l
stored_after c l = l

abbrev store : Environment (List PartialPayment)
store = record { answer = stored_reply; after = stored_after }

kept_row :
    (c : Call) (r : String) (l : List PartialPayment)
    → has_row r l ≡ true
    → has_row r (stored_after c l) ≡ true
kept_row (save_payment p) r l h = ground (arith, h)
kept_row c r l h = h

saved_reference :
    (o : Option String) (r : String) (b : Bool) → o ≡ some r → (row_is o r || b) ≡ true
saved_reference o r b e =
    subst (λ z. (row_is z r || b) ≡ true) (sym e) (ap (λ z. z || b) ((eq_iff r r).1 refl))

durable : Durable store
durable = record {
  HasRow = λ r l. has_row r l ≡ true;
  saved = λ p r l e _. saved_reference p.reference r (has_row r l) e;
  kept = kept_row;
  found = λ r l h. (
    record payment { reference = r },
    ap (λ b. ok (if b then some (record payment { reference = r }) else none)) h,
  );
}

abbrev first_response : PaymentInitiationResponse
first_response = record {
  transaction_id = none;
  status = "pending";
  amount = whole 250;
  currency = "KES";
  timestamp = 5000;
}

first_returns : run store (initiate britam_mpesa initiation) [] ≡ ok first_response
unfolding initiate update_metric get_by_reference create add_payment_initiation_job run lift call
    attempt throw_if
first_returns = refl

abbrev other : PaymentInitiationPayload
other = record initiation { reference = "policy-8"; channel = "AIRTEL" }

abbrev repeated : PaymentInitiationPayload
repeated = record initiation { partner_id = "APA"; amount = whole 9 }

references_are_taken_once_example :
    run store (initiate apa_mpesa repeated) (
      world_after store
        (initiate britam_airtel other)
        (world_after store (initiate britam_mpesa initiation) []))
    ≡ err (raised (duplicate_transaction_attempt ("Duplicate transaction attempt: " ++ "policy-7")))
references_are_taken_once_example =
    references_are_taken_once store durable [] britam_mpesa apa_mpesa initiation repeated
      first_response (initiate britam_airtel other) first_returns refl

-- Two initiations with one reference whose calls interleave: both look the reference up before
-- either has saved its row, and both return.
abbrev raced : System (List PartialPayment) PaymentInitiationResponse
raced =
    play store (0 ∷ 0 ∷ 1 ∷ 1 ∷ 0 ∷ 1 ∷ 0 ∷ 1 ∷ 0 ∷ 1 ∷ [])
      (started store [] (λ j. initiate britam_mpesa initiation))

both_return : (raced.rest 0 ≡ ret first_response) × (raced.rest 1 ≡ ret first_response)
unfolding initiate update_metric get_by_reference create add_payment_initiation_job play move lift
    call attempt throw_if ℕ_discrete
both_return = (refl, refl)
