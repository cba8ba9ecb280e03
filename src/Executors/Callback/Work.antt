-- ===== src/Executors/Callback/Work.antt =====
-- The work under the lock.
use aspin_partners_bridge.Common.{String, true, false, some, ◌==◌, ◌≡◌, ap}
use aspin_partners_bridge.Value.{Value, is_text, str}
use aspin_partners_bridge.Domain.{no_fields, PartialPayment, PaymentEntity, PaymentEvent}
use aspin_partners_bridge.Effects.{
  ok, err, find_by_transaction_id, update_payment, has_amqp_channel, amqp_publish, now, Services,
  Prog,
}
use aspin_partners_bridge.Effects.Logic.{Hoare}
use aspin_partners_bridge.Effects.Logic.Rules.{
  ret-Hoare, throw-Hoare, attempt-Hoare, or_throw-Hoare, if-Hoare, weaken, try_catch-Hoare,
  bind-Hoare, call-Hoare, given-Hoare,
}
use aspin_partners_bridge.Effects.Footprint.{Uses, call-Uses, if-Uses, bind-Uses, ret-Uses}
use aspin_partners_bridge.Repositories.Payments.{get_by_transaction_id, update}
use aspin_partners_bridge.Rabbitmq.{
  publish, publish_payment_completed, publish_payment_failed, publish_payment_pending,
}
use aspin_partners_bridge.Executors.Defs.{Executor}
use aspin_partners_bridge.Executors.Footprint.{notify_aspin-Uses, update_metric-Uses}
use aspin_partners_bridge.Executors.Publish.{publish_event, publish_payment_result}
use aspin_partners_bridge.Executors.Callback.{
  process_callback, settle, record_result, record_success,
}
use aspin_partners_bridge.Executors.Callback.Order.{
  untouched, marked, published, Phase, locked, advance, transaction_id_of, IsWritten, lock_key,
  IsFresh,
}
use aspin_partners_bridge.Executors.Callback.Signature.{is_signed-Hoare}
use aspin_partners_bridge.Executors.Callback.Reads.{extract_status-Hoare}
use aspin_partners_bridge.Executors.Callback.Phases.{IsNeutral, Held, keep-Held, keep_phase}

module _ (s : Services) (x : Executor) (payload : Value) where
  -- A marked payment is published at most once, and nothing that goes wrong is thrown.
  module _ (id : Value) (c : PartialPayment) (w : IsWritten s x payload id c) where
    abbrev Marked : Phase → Type 0
    Marked σ = σ ≡ locked (lock_key s x payload) (marked id c)

    publish-Hoare :
        (exchange key : String) (v : Value)
        → Hoare advance Marked
            (publish s exchange key v)
            (λ _. Held s x payload)
            (λ _. Held s x payload)
    unfolding publish
    publish-Hoare exchange key v =
        try_catch-Hoare advance _ _
          (bind-Hoare advance
            (call-Hoare advance has_amqp_channel
              (λ σ r e. ap (λ z. advance z (has_amqp_channel, r)) e))
            (λ ready.
              if-Hoare advance ready
                (λ _. attempt-Hoare advance _ _ (λ σ. elim [
                  | ok b ↦ λ e. (
                    published id c,
                    ap (λ z. advance z (amqp_publish exchange key (s.host.json_stringify v), ok b))
                        e,
                    w,
                  )
                  | err f ↦ λ e. (
                    published id c,
                    ap (λ z. advance z (amqp_publish exchange key (s.host.json_stringify v), err f))
                        e,
                    w,
                  )
                ]))
                (λ _. ret-Hoare advance false (λ σ e. (marked id c, e, w)))))
          (λ e. ret-Hoare advance false (λ σ h. h))

    publish_event-Hoare :
        (e : PaymentEvent) (status : Value)
        → Hoare advance Marked
            (publish_event s e status)
            (λ _. Held s x payload)
            (λ _. Held s x payload)
    unfolding publish_event publish_payment_completed publish_payment_failed publish_payment_pending
    publish_event-Hoare e status =
        if-Hoare advance (is_text status "completed") (λ _. publish-Hoare _ _ _)
          (λ _.
            if-Hoare advance (is_text status "failed") (λ _. publish-Hoare _ _ _)
              (λ _. publish-Hoare _ _ _))

    publish_payment_result-Hoare :
        (p : PaymentEntity) (status : Value)
        → Hoare advance Marked
            (publish_payment_result s p status)
            (λ _. Held s x payload)
            (λ _. Held s x payload)
    unfolding publish_payment_result
    publish_payment_result-Hoare p status =
        bind-Hoare advance (call-Hoare advance now (λ σ r e. ap (λ z. advance z (now, r)) e))
          (λ time. bind-Hoare advance (publish_event-Hoare _ _) (λ _.
            try_catch-Hoare advance _ _
              (keep-Held s x payload (notify_aspin-Uses s (λ q _. tt) p status _))
              (λ e. ret-Hoare advance tt (λ σ h. h))))

  record_success-Uses :
      (p : PaymentEntity) (status : String) → Uses IsNeutral (record_success p status)
  unfolding record_success
  record_success-Uses p status =
      if-Uses (status == "completed")
        (bind-Uses (update_metric-Uses _ tt)
          (λ _. bind-Uses (call-Uses now tt) (λ time. update_metric-Uses _ tt)))
        (ret-Uses tt)

  -- An exception before the update leaves the lock held and nothing done.
  error-Held :
      {A : Type 0} {m : Prog A} {Q : A → Phase → Type 0}
      → Hoare advance (IsFresh s x payload) m Q (λ _. IsFresh s x payload)
      → Hoare advance (IsFresh s x payload) m Q (λ _. Held s x payload)
  error-Held h = weaken advance (λ σ e. e) (λ a σ q. q) (λ e σ q. (untouched, q, tt)) h

  update-Hoare :
      (id : Value) (c : PartialPayment)
      → Hoare advance
          (IsFresh s x payload)
          (update id c)
          (λ _ σ. σ ≡ locked (lock_key s x payload) (marked id c))
          (λ _. Held s x payload)
  unfolding update
  update-Hoare id c = attempt-Hoare advance (update_payment id c) _ (λ σ. elim [
    | ok u ↦ λ e. ap (λ z. advance z (update_payment id c, ok u)) e
    | err f ↦ λ e. (untouched, ap (λ z. advance z (update_payment id c, err f)) e, tt)
  ])

  record_result-Hoare :
      (id : Value) (p : PaymentEntity) (status : String)
      → IsWritten s x payload id
          (record no_fields { status = some (str status); processed = some true })
      → Hoare advance
          (IsFresh s x payload)
          (record_result s x id p status)
          (λ _. Held s x payload)
          (λ _. Held s x payload)
  unfolding record_result
  record_result-Hoare id p status w = bind-Hoare advance (update-Hoare id _) (λ _.
      bind-Hoare advance (publish_payment_result-Hoare id _ w p (str status)) (λ _.
        keep-Held s x payload (
          bind-Uses (update_metric-Uses _ tt) (λ _.
            bind-Uses (record_success-Uses p status)
              (λ _. bind-Uses (call-Uses now tt) (λ time. ret-Uses _))))))

  settle-Hoare :
      (id : Value) (p : PaymentEntity)
      → id ≡ transaction_id_of payload
      → Hoare advance
          (IsFresh s x payload)
          (settle s x payload id p)
          (λ _. Held s x payload)
          (λ _. Held s x payload)
  unfolding settle
  settle-Hoare id p same =
      bind-Hoare advance (error-Held (is_signed-Hoare advance s x payload)) (λ valid.
        given-Hoare advance (λ authentic.
          if-Hoare advance valid
            (λ yes_valid.
              bind-Hoare advance (error-Held (extract_status-Hoare advance payload)) (λ status.
                given-Hoare advance (λ e. record_result-Hoare id p status (record {
                  transaction = same;
                  changes =
                      λ i. record no_fields { status = some (str (e i)); processed = some true };
                  authentic = authentic yes_valid;
                }))))
            (λ _. throw-Hoare advance _ (λ σ q. (untouched, q, tt)))))

  find-IsFresh :
      (id : Value)
      → Hoare advance
          (IsFresh s x payload)
          (get_by_transaction_id id)
          (λ _. IsFresh s x payload)
          (λ _. Held s x payload)
  unfolding get_by_transaction_id
  find-IsFresh id = attempt-Hoare advance (find_by_transaction_id id) _ (λ σ. elim [
    | ok o ↦ λ e. ap (λ z. advance z (find_by_transaction_id id, ok o)) e
    | err f ↦ λ e. (untouched, ap (λ z. advance z (find_by_transaction_id id, err f)) e, tt)
  ])

  pub process_callback-Hoare :
      (id : Value)
      → id ≡ transaction_id_of payload
      → Hoare advance
          (IsFresh s x payload)
          (process_callback s x payload id)
          (λ _. Held s x payload)
          (λ _. Held s x payload)
  unfolding process_callback
  process_callback-Hoare id same = bind-Hoare advance (find-IsFresh id) (λ found.
      bind-Hoare advance (or_throw-Hoare advance found _ (λ σ e. (untouched, e, tt)) (λ p _ σ e. e))
        (λ p.
          bind-Hoare advance
            (error-Held (keep_phase s x payload untouched (update_metric-Uses _ tt)))
            (λ _.
              if-Hoare advance p.processed (λ _. ret-Hoare advance _ (λ σ e. (untouched, e, tt)))
                (λ _. settle-Hoare id p same))))
