-- ===== src/Executors/Initiate/Outcome.antt =====
-- What `initiate` has done when it ends, on every branch.
use aspin_partners_bridge.Common.{◌++◌, Option, none, some, ◌≡◌, refl, ap, ◌⊎◌, inl, inr, arith}
use aspin_partners_bridge.Value.{Value, str}
use aspin_partners_bridge.Errors.{Error, raised, duplicate_transaction_attempt}
use aspin_partners_bridge.Domain.{
  PaymentEntity, PartialPayment, PaymentInitiationPayload, PaymentInitiationResponse,
}
use aspin_partners_bridge.Effects.{
  ok, err, JobSpec, find_by_reference, save_payment, add_job, metric, now, throw_if,
}
use aspin_partners_bridge.Effects.Run.{Event, Environment, run, trace}
use aspin_partners_bridge.Effects.Logic.{Hoare, Hoare-run, Post, observe}
use aspin_partners_bridge.Effects.Logic.Rules.{
  ret-Hoare, attempt-Hoare, throw_if-Hoare, bind-Hoare, call-Hoare,
}
use aspin_partners_bridge.Monitoring.{update_metric, increment_payment_initiated}
use aspin_partners_bridge.Repositories.Payments.{create, get_by_reference}
use aspin_partners_bridge.Queue.Producer.{payment_initiation_job, add_payment_initiation_job}
use aspin_partners_bridge.Executors.Defs.{Executor, get_channel}
use aspin_partners_bridge.Executors.Initiate.{initiate, pending_payment}

-- How far an initiation has come, with the data of its calls.
pub data Stage : Type 0 where
  start : Stage
  absent : Value → Stage
  duplicate : Value → PaymentEntity → Stage
  saved : Value → PartialPayment → Stage
  queued : Value → PartialPayment → JobSpec → Stage
  unsaved : Error → Stage
  unqueued : PartialPayment → Error → Stage
  broken : Stage

abbrev pub advance : Stage → Event → Stage
advance start (find_by_reference v, ok none) = absent v
advance start (find_by_reference v, ok (some p)) = duplicate v p
advance start (find_by_reference v, err e) = unsaved e
advance (absent v) (save_payment p, ok u) = saved v p
advance (absent v) (save_payment p, err e) = unsaved e
advance (saved v p) (add_job j, ok u) = queued v p j
advance (saved v p) (add_job j, err e) = unqueued p e
advance σ (metric m, r) = σ
advance σ (now, r) = σ
advance σ e = broken

module _ (x : Executor) (payload : PaymentInitiationPayload) where
  -- A return: the reference was free, the pending payment is stored and its job is queued.
  pub record IsInitiated (r : PaymentInitiationResponse) (σ : Stage) : Type 0 where
    pub stage :
        σ
        ≡ queued
            (str payload.reference)
            (pending_payment x payload)
            (payment_initiation_job payload.reference (some 0))
    pub status : r.status ≡ "pending"
    pub no_id : r.transaction_id ≡ none
    pub amount : r.amount ≡ payload.amount
    pub currency : r.currency ≡ payload.currency

  -- An exception: the reference was taken, or a call failed with it; a failure of the queue leaves
  -- the stored payment behind.
  abbrev pub IsRefused : Error → Stage → Type 0
  IsRefused e σ =
      ((p : PaymentEntity) × (σ ≡ duplicate (str payload.reference) p)
        × (e
            ≡ raised (
                duplicate_transaction_attempt
                  ("Duplicate transaction attempt: " ++ payload.reference))))
      ⊎ (σ ≡ unsaved e)
      ⊎ (σ ≡ unqueued (pending_payment x payload) e)

  abbrev Found : Option PaymentEntity → Stage → Type 0
  Found none σ = σ ≡ absent (str payload.reference)
  Found (some p) σ = σ ≡ duplicate (str payload.reference) p

  find-Hoare :
      Hoare advance (λ σ. σ ≡ start) (get_by_reference (str payload.reference)) Found IsRefused
  unfolding get_by_reference
  find-Hoare = attempt-Hoare advance (find_by_reference (str payload.reference)) _ (λ σ. elim [
    | ok none ↦ λ e. ap (λ z. advance z (find_by_reference (str payload.reference), ok none)) e
    | ok (some p) ↦
        λ e. ap (λ z. advance z (find_by_reference (str payload.reference), ok (some p))) e
    | err f ↦
        λ e. inr (inl (ap (λ z. advance z (find_by_reference (str payload.reference), err f)) e))
  ])

  Found-Hoare :
      (found : Option PaymentEntity)
      → Hoare advance
          (Found found)
          (throw_if found (
            raised (
              duplicate_transaction_attempt
                ("Duplicate transaction attempt: " ++ payload.reference))))
          (λ _ σ. σ ≡ absent (str payload.reference))
          IsRefused
  Found-Hoare none = throw_if-Hoare advance none _ (λ a e. ground (arith, e)) (λ _ σ e. e)
  Found-Hoare (some p) =
      throw_if-Hoare advance (some p) _ (λ a _ σ e. inl (p, e, refl)) (λ e. ground (arith, e))

  create-Hoare :
      Hoare advance
        (λ σ. σ ≡ absent (str payload.reference))
        (create (pending_payment x payload))
        (λ _ σ. σ ≡ saved (str payload.reference) (pending_payment x payload))
        IsRefused
  unfolding create
  create-Hoare = attempt-Hoare advance (save_payment (pending_payment x payload)) _ (λ σ. elim [
    | ok u ↦ λ e. ap (λ z. advance z (save_payment (pending_payment x payload), ok u)) e
    | err f ↦
        λ e. inr (inl (ap (λ z. advance z (save_payment (pending_payment x payload), err f)) e))
  ])

  job-Hoare :
      Hoare advance
        (λ σ. σ ≡ saved (str payload.reference) (pending_payment x payload))
        (add_payment_initiation_job payload.reference (some 0))
        (λ _ σ.
          σ
          ≡ queued
              (str payload.reference)
              (pending_payment x payload)
              (payment_initiation_job payload.reference (some 0)))
        IsRefused
  unfolding add_payment_initiation_job
  job-Hoare =
      attempt-Hoare advance (add_job (payment_initiation_job payload.reference (some 0))) _ (λ σ.
        elim [
          | ok u ↦ λ e.
              ap
                (λ z. advance z (add_job (payment_initiation_job payload.reference (some 0)), ok u))
                e
          | err f ↦ λ e. inr (
              inr (
                ap
                  (λ z.
                    advance z (add_job (payment_initiation_job payload.reference (some 0)), err f))
                  e))
        ])

  pub initiate-Hoare : Hoare advance (λ σ. σ ≡ start) (initiate x payload) IsInitiated IsRefused
  unfolding initiate update_metric
  initiate-Hoare =
      bind-Hoare advance {R = λ _ σ. σ ≡ start}
        (call-Hoare advance
          (metric (increment_payment_initiated payload.partner_id (get_channel x)))
          (λ σ r e.
            ap
              (λ z.
                advance z
                  (metric (increment_payment_initiated payload.partner_id (get_channel x)), r))
              e))
        (λ _. bind-Hoare advance find-Hoare (λ found. bind-Hoare advance (Found-Hoare found) (λ _.
          bind-Hoare advance create-Hoare (λ _. bind-Hoare advance job-Hoare (λ _.
            bind-Hoare advance (call-Hoare advance now (λ σ r e. ap (λ z. advance z (now, r)) e))
              (λ time. ret-Hoare advance _ (λ σ e. record {
                stage = e;
                status = refl;
                no_id = refl;
                amount = refl;
                currency = refl;
              })))))))

-- In every environment `initiate` ends in one of these ways. It returns: the reference was looked
-- up and was free, the pending payment was stored, then its job was queued without delay, and the
-- response repeats the amount and the currency with status "pending" and no transaction id. Or it
-- throws: DuplicateTransactionAttempt, with nothing stored or queued, because the reference was
-- taken; the error of the database, with nothing queued; or the error of the queue, with the
-- pending payment left stored. No call but these, metrics and the clock is made.
pub initiate_outcome :
    {W : Type 0} (env : Environment W) (w : W) (x : Executor) (payload : PaymentInitiationPayload)
    → Post
        (IsInitiated x payload)
        (IsRefused x payload)
        (run env (initiate x payload) w)
        (observe advance start (trace env (initiate x payload) w))
initiate_outcome env w x payload =
    Hoare-run advance env (initiate x payload) w start (initiate-Hoare x payload) refl
