-- ===== src/Executors/Callback/Replay.antt =====
-- What a callback has learned of its payment, and what may follow.
use aspin_partners_bridge.Common.{
  Bool, true, false, Option, none, some, ◌≡◌, refl, ◌∙◌, ap, ◌⊎◌, inl, inr, if◌then◌else◌,
}
use aspin_partners_bridge.Value.{Value}
use aspin_partners_bridge.Errors.{Error}
use aspin_partners_bridge.Domain.{PaymentEntity, PaymentCallbackResponse}
use aspin_partners_bridge.Effects.{
  ok, err, Call, Reply, Prog, or_throw, find_by_transaction_id, redis_set_nx, redis_del, metric,
  Services,
}
use aspin_partners_bridge.Effects.Run.{Event}
use aspin_partners_bridge.Effects.Logic.{Hoare}
use aspin_partners_bridge.Effects.Logic.Rules.{ret-Hoare, throw-Hoare, attempt-Hoare, weaken}
use aspin_partners_bridge.Effects.Footprint.{Uses, Uses-Hoare}
use aspin_partners_bridge.Repositories.Payments.{get_by_transaction_id}
use aspin_partners_bridge.Executors.Defs.{Executor}
use aspin_partners_bridge.Executors.Callback.Order.{transaction_id_of}

-- What the handler has learned of the payment. Once it is known to be processed, only the lock and
-- the metrics may be touched; of a payment that is not, nothing is said.
pub data Replay : Type 0 where
  unread absent : Replay
  answered : PaymentEntity → Replay
  unprocessed : Replay
  broken : Replay

abbrev pub advance : Replay → Event → Replay
advance unprocessed e = unprocessed
advance unread (find_by_transaction_id id, ok (some p)) =
    if p.processed then answered p else unprocessed
advance unread (find_by_transaction_id id, r) = absent
advance unread (redis_set_nx k v ttl, r) = unread
advance unread (metric m, r) = unread
advance absent (redis_del k, r) = absent
advance absent (metric m, r) = absent
advance (answered p) (redis_del k, r) = answered p
advance (answered p) (metric m, r) = answered p
advance σ e = broken

-- The calls before the payment is read, and those after it.
abbrev pub IsEarly : Call → Type 0
IsEarly (redis_set_nx k v ttl) = Unit
IsEarly (metric m) = Unit
IsEarly _ = ⊥

abbrev pub IsLate : Call → Type 0
IsLate (redis_del k) = Unit
IsLate (metric m) = Unit
IsLate _ = ⊥

pub late-answered :
    (p : PaymentEntity) (c : Call) (r : Reply c)
    → IsLate c
    → advance (answered p) (c, r) ≡ answered p
late-answered p (redis_del k) r n = refl
late-answered p (metric m) r n = refl
late-answered p _ r n = absurd n

pub late-known :
    (p : PaymentEntity) (b : Bool) (c : Call) (r : Reply c)
    → IsLate c
    → advance (if b then answered p else unprocessed) (c, r)
      ≡ (if b then answered p else unprocessed)
late-known p true c r n = late-answered p c r n
late-known p false c r n = refl

late-absent : (c : Call) (r : Reply c) → IsLate c → advance absent (c, r) ≡ absent
late-absent (redis_del k) r n = refl
late-absent (metric m) r n = refl
late-absent _ r n = absurd n

pub early-unread : (c : Call) (r : Reply c) → IsEarly c → advance unread (c, r) ≡ unread
early-unread (redis_set_nx k v ttl) r n = refl
early-unread (metric m) r n = refl
early-unread _ r n = absurd n

module _ (s : Services) (x : Executor) (payload : Value) where
  -- The columns of the row, as valid, under the transaction of the payload.
  abbrev pub stored_answer : PaymentEntity → PaymentCallbackResponse
  stored_answer p = record {
    transaction_id = transaction_id_of payload;
    status = p.status;
    amount = p.amount;
    currency = p.currency;
    timestamp = p.updated_at;
    is_valid = true;
  }

  -- A return: of a processed payment the answer is what is stored.
  abbrev pub IsReplayed : PaymentCallbackResponse → Replay → Type 0
  IsReplayed r σ =
      (σ ≡ unprocessed)
      ⊎ ((p : PaymentEntity) × (p.processed ≡ true) × (σ ≡ answered p) × (r ≡ stored_answer p))

  abbrev pub IsStopped : Replay → Type 0
  IsStopped σ =
      (σ ≡ unread)
      ⊎ (σ ≡ absent)
      ⊎ (σ ≡ unprocessed)
      ⊎ ((p : PaymentEntity) × (p.processed ≡ true) × (σ ≡ answered p))

  stopped : (r : PaymentCallbackResponse) (σ : Replay) → IsReplayed r σ → IsStopped σ
  stopped r σ (inl e) = inr (inr (inl e))
  stopped r σ (inr (p, t, e, same)) = inr (inr (inr (p, t, e)))

  pub keep-IsReplayed :
      {A : Type 0} (r : PaymentCallbackResponse) {m : Prog A}
      → Uses IsLate m
      → Hoare advance (IsReplayed r) m (λ _. IsReplayed r) (λ _. IsStopped)
  keep-IsReplayed r u =
      weaken advance (λ σ q. q) (λ a σ q. q) (λ e σ q. stopped r σ q)
        (Uses-Hoare advance IsLate
          (λ c n a σ. elim [
            | inl e ↦ inl (ap (λ z. advance z (c, a)) e)
            | inr (p, t, e, same) ↦
                inr (p, t, ap (λ z. advance z (c, a)) e ∙ late-answered p c a n, same)
          ])
          u)

  -- After the payment has been asked for.
  abbrev pub IsRead : Replay → Type 0
  IsRead σ =
      (σ ≡ absent)
      ⊎ (σ ≡ unprocessed)
      ⊎ ((p : PaymentEntity) × (p.processed ≡ true) × (σ ≡ answered p))

  pub keep-IsRead :
      {A : Type 0} {m : Prog A} → Uses IsLate m → Hoare advance IsRead m (λ _. IsRead) (λ _. IsRead)
  keep-IsRead u =
      Uses-Hoare advance IsLate
        (λ c n a σ. elim [
          | inl e ↦ inl (ap (λ z. advance z (c, a)) e ∙ late-absent c a n)
          | inr (inl e) ↦ inr (inl (ap (λ z. advance z (c, a)) e))
          | inr (inr (p, t, e)) ↦
              inr (inr (p, t, ap (λ z. advance z (c, a)) e ∙ late-answered p c a n))
        ])
        u

  abbrev pub Known : PaymentEntity → Replay → Type 0
  Known p σ = σ ≡ (if p.processed then answered p else unprocessed)

  abbrev Found : Option PaymentEntity → Replay → Type 0
  Found none σ = σ ≡ absent
  Found (some p) σ = Known p σ

  pub find-Hoare :
      (id : Value) → Hoare advance (λ σ. σ ≡ unread) (get_by_transaction_id id) Found (λ _. IsRead)
  unfolding get_by_transaction_id
  find-Hoare id = attempt-Hoare advance (find_by_transaction_id id) _ (λ σ. elim [
    | ok none ↦ λ e. ap (λ z. advance z (find_by_transaction_id id, ok none)) e
    | ok (some p) ↦ λ e. ap (λ z. advance z (find_by_transaction_id id, ok (some p))) e
    | err f ↦ λ e. inl (ap (λ z. advance z (find_by_transaction_id id, err f)) e)
  ])

  pub Known-Hoare :
      (o : Option PaymentEntity) (e : Error)
      → Hoare advance (Found o) (or_throw o e) Known (λ _. IsRead)
  unfolding or_throw
  Known-Hoare none e = throw-Hoare advance e (λ σ q. inl q)
  Known-Hoare (some p) e = ret-Hoare advance p (λ σ q. q)
