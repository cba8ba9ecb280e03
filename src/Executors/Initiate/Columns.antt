-- ===== src/Executors/Initiate/Columns.antt =====
-- domain/entities/payments.entity.ts: the columns of a payment that have neither a default nor
-- `nullable`, and an initiation over a database that requires them.
use aspin_partners_bridge.Common.{String, Bool, true, false, ◌&&◌, Option, none, some, ◌≡◌, refl}
use aspin_partners_bridge.Value.{str}
use aspin_partners_bridge.Errors.{Error}
use aspin_partners_bridge.Domain.{PaymentEntity, PartialPayment, PaymentInitiationPayload}
use aspin_partners_bridge.Effects.{
  Result, ok, err, Call, Prog, ask, ◌>>=◌, find_by_reference, save_payment, lift, call, attempt,
  throw_if,
}
use aspin_partners_bridge.Effects.Run.{Environment, run}
use aspin_partners_bridge.Monitoring.{update_metric}
use aspin_partners_bridge.Repositories.Payments.{create, get_by_reference}
use aspin_partners_bridge.Executors.Defs.{Executor}
use aspin_partners_bridge.Executors.Initiate.{initiate, pending_payment}

abbrev pub is_present : {A : Type 0} → Option A → Bool
is_present none = false
is_present (some a) = true

-- Every column that the entity requires is given.
unfoldable pub has_required_columns : PartialPayment → Bool
has_required_columns p =
    is_present p.reference
    && is_present p.transaction_id
    && is_present p.partner_id
    && is_present p.channel
    && is_present p.customer_id
    && is_present p.amount
    && is_present p.currency
    && is_present p.status
    && is_present p.gateway
    && is_present p.phone_number

-- A database that inserts no row without a required column: after a look-up that found no row of
-- a reference, saving an incomplete row of that reference fails.
pub record RequiresColumns {W : Type 0} (env : Environment W) : Type 0 where
  pub refuses :
      (r : String) (p : PartialPayment) (w : W)
      → env.answer (find_by_reference (str r)) w ≡ ok none
      → p.reference ≡ some r
      → has_required_columns p ≡ false
      → (e : Error) × (env.answer (save_payment p) (env.after (find_by_reference (str r)) w)
          ≡ err e)

ok_err : {A : Type 0} {a : A} {e : Error} → ok a ≡ err e → ⊥
ok_err h = cc

module _ {W A : Type 0} (env : Environment W) where
  abbrev Fails : Prog A → W → Type 0
  Fails m w = (e : Error) × (run env m w ≡ err e)

  -- A call, a look-up that has to find nothing, and a save that is refused.
  refused_save :
      (c : Call) (r : String) (p : PartialPayment) (e : Error) (rest : Unit {0} → Prog A) (w : W)
      → (env.answer (find_by_reference (str r)) (env.after c w) ≡ ok none
          → (f : Error) × (env.answer
                (save_payment p)
                (env.after (find_by_reference (str r)) (env.after c w))
              ≡ err f))
      → Fails
          (ask c (λ u. ask (find_by_reference (str r)) (λ a.
            lift a >>= λ o. throw_if o e >>= λ _. ask (save_payment p) (λ b. lift b >>= rest))))
          w
  unfolding run lift throw_if
  refused_save c r p e rest w law = at (env.answer (find_by_reference (str r)) (env.after c w)) refl
    where
      looked_up : W
      looked_up = env.after (find_by_reference (str r)) (env.after c w)

      saving :
          (b : Result (Unit {0})) (f : Error)
          → b ≡ err f
          → Fails (lift b >>= rest) (env.after (save_payment p) looked_up)
      saving (ok u) f h = absurd (ok_err h)
      saving (err g) f h = (g, refl)

      at :
          (a : Result (Option PaymentEntity))
          → env.answer (find_by_reference (str r)) (env.after c w) ≡ a
          → Fails
              (lift a >>= λ o. throw_if o e >>= λ _. ask (save_payment p) (λ b. lift b >>= rest))
              looked_up
      at (err g) same = (g, refl)
      at (ok (some q)) same = (e, refl)
      at (ok none) same = saving (env.answer (save_payment p) looked_up) (law same).0 (law same).1

-- No initiation succeeds where the database requires the columns of the entity: the row that
-- `initiate` creates has no transaction id, so every initiation throws, whether its reference is
-- taken or not.
pub initiations_lack_a_column :
    {W : Type 0} (env : Environment W) (db : RequiresColumns env) (w : W) (x : Executor)
    (payload : PaymentInitiationPayload)
    → (e : Error) × (run env (initiate x payload) w ≡ err e)
unfolding initiate has_required_columns pending_payment update_metric get_by_reference create call
    attempt
initiations_lack_a_column env db w x payload =
    refused_save env _ payload.reference (pending_payment x payload) _ _ w
      (λ absent. db.refuses payload.reference (pending_payment x payload) _ absent refl refl)
