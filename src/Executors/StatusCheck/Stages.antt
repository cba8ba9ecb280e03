-- ===== src/Executors/StatusCheck/Stages.antt =====
-- How far a status check has come, and its part up to the hub's answer.
use aspin_partners_bridge.Common.{
  ℕ, String, Option, none, some, ◌||◌, ◌≡◌, refl, ap, ◌⊎◌, inl, inr, arith, if◌then◌else◌,
}
use aspin_partners_bridge.Value.{Value, str, undefined, optional, or_else, is_text}
use aspin_partners_bridge.Errors.{Error, raised, transaction_not_found}
use aspin_partners_bridge.Domain.{PaymentEntity, PartialPayment, no_fields, PaymentStatusResponse}
use aspin_partners_bridge.Effects.{
  ok, err, Call, find_by_transaction_id, update_payment, has_amqp_channel, amqp_publish,
  http_request, HttpRequest, now, or_throw, read, ◌>>=◌, ret, to_text, Services, Prog,
}
use aspin_partners_bridge.Effects.Run.{Event}
use aspin_partners_bridge.Effects.Logic.{Hoare}
use aspin_partners_bridge.Effects.Logic.Rules.{
  bind-Hoare, ret-Hoare, throw-Hoare, attempt-Hoare, try_catch-Hoare, weaken, given-Hoare,
  read-Hoare,
}
use aspin_partners_bridge.Adapters.PaymentHub.{
  response_of, make_http_request, query_mpesa_status, query_airtel_status,
}
use aspin_partners_bridge.Adapters.Http.{send, request_of}
use aspin_partners_bridge.Channels.{
  Channel, apa_mpesa, britam_mpesa, britam_airtel, query_transaction,
}
use aspin_partners_bridge.Channels.Callback.{channel_response}
use aspin_partners_bridge.Channels.Mpesa
use aspin_partners_bridge.Channels.Airtel
use aspin_partners_bridge.Repositories.Payments.{get_by_transaction_id}

-- How far a check has come: the payment is found, the hub has given an answer, the payment is
-- updated, or updated and its publication begun; or one of these went wrong.
pub data Check : Type 0 where
  start : Check
  found : PaymentEntity → Check
  asked : PaymentEntity → Value → Check
  written publishing : PaymentEntity → Value → Value → PartialPayment → Check
  missing : Check
  unread : Error → Check
  unanswered : PaymentEntity → Check
  unwritten : Error → Check
  broken : Check

abbrev pub advance : Check → Event → Check
advance start (find_by_transaction_id id, ok (some p)) = found p
advance start (find_by_transaction_id id, ok none) = missing
advance start (find_by_transaction_id id, err e) = unread e
advance (found p) (http_request q, ok v) = asked p v
advance (found p) (http_request q, err e) = unanswered p
advance (asked p v) (update_payment id c, ok u) = written p v id c
advance (asked p v) (update_payment id c, err e) = unwritten e
advance (written p v id c) (has_amqp_channel, b) = publishing p v id c
advance (publishing p v id c) (amqp_publish e k m, r) = publishing p v id c
advance (publishing p v id c) (http_request q, r) = publishing p v id c
advance σ (now, t) = σ
advance σ e = broken

pub advance-now : (σ : Check) (t : ℕ) → advance σ (now, t) ≡ σ
advance-now σ t = ground (arith, σ)

-- The calls of a publication that has begun.
abbrev pub IsOutgoing : Call → Type 0
IsOutgoing (http_request q) = Unit
IsOutgoing (amqp_publish e k m) = Unit
IsOutgoing _ = ⊥

-- The status that the hub's answer reports, "pending" where it reports none.
abbrev pub reported : Value → Value
reported v = or_else (optional v "status") (str "pending")

module _ (s : Services) (id : Value) where
  -- The change that a new status makes.
  abbrev pub change : Value → PartialPayment
  change status = record no_fields { status = some status }

  -- A return. The stored status is written only if the hub reports another one, and published only
  -- if that is final.
  abbrev pub Synchronized : PaymentEntity → Value → Value → Check → Type 0
  Synchronized p v status σ = σ ≡ (
      if is_text status p.status
      then asked p v
      else if is_text status "completed" || is_text status "failed"
      then publishing p v id (change status)
      else written p v id (change status))

  pub record IsChecked (r : PaymentStatusResponse) (σ : Check) : Type 0 where
    pub payment : PaymentEntity
    pub answer : Value
    pub stage : Synchronized payment answer (reported answer) σ
    pub same_status : r.status ≡ reported answer
    pub same_id : r.transaction_id ≡ id
    pub same_amount : r.amount ≡ payment.amount
    pub same_currency : r.currency ≡ str payment.currency

  -- An exception: nothing was written or published.
  abbrev pub IsAborted : Error → Check → Type 0
  IsAborted e σ =
      ((σ ≡ missing) × (e ≡ raised (transaction_not_found (to_text s.host id))))
      ⊎ (σ ≡ unread e)
      ⊎ (σ ≡ unwritten e)
      ⊎ ((p : PaymentEntity) × ((σ ≡ unanswered p) ⊎ ((v : Value) × (σ ≡ asked p v))))

  abbrev Read : Option PaymentEntity → Check → Type 0
  Read none σ = σ ≡ missing
  Read (some p) σ = σ ≡ found p

  pub find-Hoare : Hoare advance (λ σ. σ ≡ start) (get_by_transaction_id id) Read IsAborted
  unfolding get_by_transaction_id
  find-Hoare = attempt-Hoare advance (find_by_transaction_id id) _ (λ σ. elim [
    | ok none ↦ λ e. ap (λ z. advance z (find_by_transaction_id id, ok none)) e
    | ok (some p) ↦ λ e. ap (λ z. advance z (find_by_transaction_id id, ok (some p))) e
    | err f ↦ λ e. inr (inl (ap (λ z. advance z (find_by_transaction_id id, err f)) e))
  ])

  pub found-Hoare :
      (o : Option PaymentEntity)
      → Hoare advance
          (Read o)
          (or_throw o (raised (transaction_not_found (to_text s.host id))))
          (λ p σ. σ ≡ found p)
          IsAborted
  unfolding or_throw
  found-Hoare none = throw-Hoare advance _ (λ σ e. inl (e, refl))
  found-Hoare (some p) = ret-Hoare advance p (λ σ e. e)

  abbrev hub_request : String → String → Value → HttpRequest
  hub_request = request_of s "PAYMENTHUB_API_BASE_URL" "PAYMENTHUB_API_KEY"

  -- The request to the hub and its answer.
  request-Hoare :
      (p : PaymentEntity) (method path : String) (v : Value)
      → Hoare advance
          (λ σ. σ ≡ found p)
          (make_http_request s method path v)
          (λ u σ. σ ≡ asked p u)
          IsAborted
  unfolding make_http_request send
  request-Hoare p method path v =
      try_catch-Hoare advance {E' = λ _ σ. σ ≡ unanswered p} _ _
        (attempt-Hoare advance (http_request (hub_request method path v)) _ (λ σ. elim [
          | ok u ↦ λ e. ap (λ z. advance z (http_request (hub_request method path v), ok u)) e
          | err f ↦ λ e. ap (λ z. advance z (http_request (hub_request method path v), err f)) e
        ]))
        (λ e. throw-Hoare advance _ (λ σ q. inr (inr (inr (p, inl q)))))

  -- A property of the answer.
  entry-Hoare :
      {A : Type 0} (p : PaymentEntity) (v : Value) (k : String) {f : Value → Prog A}
      {Q : A → Check → Type 0}
      → ((a : Value) → a ≡ optional v k → Hoare advance (λ σ. σ ≡ asked p v) (f a) Q IsAborted)
      → Hoare advance (λ σ. σ ≡ asked p v) (read v k >>= f) Q IsAborted
  entry-Hoare p v k h =
      bind-Hoare advance
        (weaken advance (λ σ q. q) (λ a σ q. q) (λ e σ q. inr (inr (inr (p, inr (v, q)))))
          (read-Hoare advance v k))
        (λ a. given-Hoare advance (h a))

  response_of-Hoare :
      (p : PaymentEntity) (v : Value)
      → Hoare advance
          (λ σ. σ ≡ asked p v)
          (response_of v)
          (λ r σ. (r.status ≡ optional v "status") × (σ ≡ asked p v))
          IsAborted
  unfolding response_of
  response_of-Hoare p v = entry-Hoare p v "transaction_id" (λ transaction a.
      entry-Hoare p v "status" (λ status same. entry-Hoare p v "amount" (λ amount c.
        entry-Hoare p v "currency" (λ currency d.
          entry-Hoare p v "timestamp" (λ timestamp e. ret-Hoare advance _ (λ σ q. (same, q)))))))

  -- The status is the one that the hub's answer reports.
  abbrev pub Heard : PaymentEntity → Value → Check → Type 0
  Heard p status σ = (v : Value) × (status ≡ reported v) × (σ ≡ asked p v)

  -- The request and what the adapter makes of its answer.
  Heard-Hoare :
      (p : PaymentEntity) (path : String)
      → Hoare advance
          (λ σ. σ ≡ found p)
          (do
            response ← make_http_request s "GET" path undefined
            r ← response_of response
            ret (record r {
              transaction_id = or_else r.transaction_id id;
              status = or_else r.status (str "pending");
            }))
          (λ r. Heard p r.status)
          IsAborted
  Heard-Hoare p path = bind-Hoare advance (request-Hoare p "GET" path undefined) (λ v.
      bind-Hoare advance (response_of-Hoare p v)
        (λ r. ret-Hoare advance _ (λ σ q. (v, ap (λ z. or_else z (str "pending")) q.0, q.1))))

  pub query-Hoare :
      (p : PaymentEntity) (ch : Channel)
      → Hoare advance
          (λ σ. σ ≡ found p)
          (query_transaction s ch id)
          (λ r. Heard p r.status)
          IsAborted
  unfolding query_transaction Mpesa.query_transaction Airtel.query_transaction query_mpesa_status
      query_airtel_status channel_response
  query-Hoare p apa_mpesa =
      bind-Hoare advance (Heard-Hoare p _) (λ r. ret-Hoare advance _ (λ σ q. q))
  query-Hoare p britam_mpesa =
      bind-Hoare advance (Heard-Hoare p _) (λ r. ret-Hoare advance _ (λ σ q. q))
  query-Hoare p britam_airtel =
      bind-Hoare advance (Heard-Hoare p _) (λ r. ret-Hoare advance _ (λ σ q. q))
