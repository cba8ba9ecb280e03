-- ===== src/Repositories/Payments.antt =====
-- infrastructure/repositories/payments.postgres.repository.ts, over TypeORM's findOneBy, save and
-- update.
use aspin_partners_bridge.Common.{Bool, true, false, Option, none, some}
use aspin_partners_bridge.Value.{Value, str}
use aspin_partners_bridge.Domain.{PaymentEntity, PartialPayment, no_fields}
use aspin_partners_bridge.Effects.{
  Prog, ret, ◌>>=◌, attempt, find_by_transaction_id, find_by_reference, save_payment,
  update_payment,
}

-- `save`: the entity's columns that the program writes.
unfoldable pub save : PaymentEntity → Prog (Unit {0})
save p =
    attempt
      (save_payment (record {
        reference = some p.reference;
        transaction_id = elim p.transaction_id [ str t ↦ some t | _ ↦ none ];
        partner_id = some p.partner_id;
        channel = some p.channel;
        customer_id = some p.customer_id;
        amount = some p.amount;
        currency = some p.currency;
        status = some (str p.status);
        gateway = some p.gateway;
        phone_number = some p.phone_number;
        processed = some p.processed;
      }))
      (λ r. r)

unfoldable pub create : PartialPayment → Prog (Unit {0})
create payment = attempt (save_payment payment) (λ r. r)

unfoldable pub get_by_transaction_id : Value → Prog (Option PaymentEntity)
get_by_transaction_id id = attempt (find_by_transaction_id id) (λ r. r)

unfoldable pub get_by_reference : Value → Prog (Option PaymentEntity)
get_by_reference reference = attempt (find_by_reference reference) (λ r. r)

unfoldable pub update : Value → PartialPayment → Prog (Unit {0})
update transaction_id changes = attempt (update_payment transaction_id changes) (λ r. r)

unfoldable pub mark_as_processed : Value → Prog (Unit {0})
mark_as_processed id = update id (record no_fields { processed = some true })

unfoldable pub update_status : Value → Value → Prog (Unit {0})
update_status id status = update id (record no_fields { status = some status })

abbrev processed_of : Option PaymentEntity → Bool
processed_of none = false
processed_of (some p) = p.processed

-- `!!result?.processed`
unfoldable pub is_processed : Value → Prog Bool
is_processed id = do found ← get_by_transaction_id id; ret (processed_of found)
