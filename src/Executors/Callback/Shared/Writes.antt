-- ===== src/Executors/Callback/Shared/Writes.antt =====
-- What a callback stores and publishes once it has read an unprocessed row.
use aspin_partners_bridge.Common.{String, true, false, ◌&&◌, some, ◌==◌, ◌≡◌, ap, if◌then◌else◌}
use aspin_partners_bridge.Value.{Value, str, is_text}
use aspin_partners_bridge.Domain.{no_fields, PaymentEntity, PaymentEvent}
use aspin_partners_bridge.Effects.{ok, err, has_amqp_channel, now, Services, Prog}
use aspin_partners_bridge.Effects.Run.{Event}
use aspin_partners_bridge.Effects.Logic.{Hoare}
use aspin_partners_bridge.Effects.Logic.Rules.{
  ret-Hoare, throw-Hoare, attempt-Hoare, if-Hoare, weaken, try_catch-Hoare, bind-Hoare, call-Hoare,
  given-Hoare,
}
use aspin_partners_bridge.Effects.Footprint.{Uses, call-Uses, if-Uses, bind-Uses, ret-Uses}
use aspin_partners_bridge.Repositories.Payments.{update}
use aspin_partners_bridge.Rabbitmq.{
  publish, publish_payment_completed, publish_payment_failed, publish_payment_pending,
}
use aspin_partners_bridge.Executors.Defs.{Executor}
use aspin_partners_bridge.Executors.Footprint.{notify_aspin-Uses, update_metric-Uses}
use aspin_partners_bridge.Executors.Publish.{publish_event, publish_payment_result}
use aspin_partners_bridge.Executors.Callback.{settle, record_result, record_success}
use aspin_partners_bridge.Executors.Callback.Order.{transaction_id_of}
use aspin_partners_bridge.Executors.Callback.Signature.{is_signed-Hoare}
use aspin_partners_bridge.Executors.Callback.Reads.{extract_status-Hoare}
use aspin_partners_bridge.Executors.Callback.Shared
use aspin_partners_bridge.Executors.Callback.Shared.Steps.{IsQuiet, Under, quiet-Hoare, is_mine_lem}
use aspin_partners_bridge.Executors.Callback.Shared.{
  IsAbout, Turn, outside, entered, open_row, settled, announced, spent, left, under_lock, judge,
  next, neutral,
}

module _ (s : Services) (partner transaction : String) where
  abbrev step : Turn → Event → Turn
  step = judge s.host partner transaction

  module _ (x : Executor) (payload : Value) (about : IsAbout partner transaction s x payload) where
    publish-Hoare :
        (exchange k : String) (v : Value)
        → Hoare step (λ τ. τ ≡ settled) (publish s exchange k v) (λ _. Under) (λ _. Under)
    unfolding publish
    publish-Hoare exchange k v =
        try_catch-Hoare step _ _
          (bind-Hoare step (call-Hoare step has_amqp_channel (λ τ r e. e)) (λ ready.
            if-Hoare step ready
              (λ _. attempt-Hoare step _ _ (λ τ. elim [
                | ok b ↦ λ e. ap (λ z. under_lock (next z Shared.published)) e
                | err f ↦ λ e. ap (λ z. under_lock (next z Shared.published)) e
              ]))
              (λ _. ret-Hoare step false (λ τ e. ap under_lock e))))
          (λ e. ret-Hoare step false (λ τ h. h))

    publish_event-Hoare :
        (e : PaymentEvent) (status : Value)
        → Hoare step (λ τ. τ ≡ settled) (publish_event s e status) (λ _. Under) (λ _. Under)
    unfolding publish_event publish_payment_completed publish_payment_failed publish_payment_pending
    publish_event-Hoare e status =
        if-Hoare step (is_text status "completed") (λ _. publish-Hoare _ _ _)
          (λ _.
            if-Hoare step (is_text status "failed") (λ _. publish-Hoare _ _ _)
              (λ _. publish-Hoare _ _ _))

    publish_payment_result-Hoare :
        (p : PaymentEntity) (status : Value)
        → Hoare step
            (λ τ. τ ≡ settled)
            (publish_payment_result s p status)
            (λ _. Under)
            (λ _. Under)
    unfolding publish_payment_result
    publish_payment_result-Hoare p status =
        bind-Hoare step (call-Hoare step now (λ τ r e. e)) (λ time.
          bind-Hoare step (publish_event-Hoare _ _) (λ _.
            try_catch-Hoare step _ _
              (quiet-Hoare s partner transaction Under (notify_aspin-Uses s (λ q _. tt) p status _))
              (λ e. ret-Hoare step tt (λ τ h. h))))

    record_success-Uses :
        (p : PaymentEntity) (status : String) → Uses IsQuiet (record_success p status)
    unfolding record_success
    record_success-Uses p status =
        if-Uses (status == "completed")
          (bind-Uses (update_metric-Uses _ tt)
            (λ _. bind-Uses (call-Uses now tt) (λ time. update_metric-Uses _ tt)))
          (ret-Uses tt)

    -- An exception where the row is open leaves the lock held.
    while_open :
        {A : Type 0} {m : Prog A} {Q : A → Turn → Type 0}
        → Hoare step (λ τ. τ ≡ open_row) m Q (λ _ τ. τ ≡ open_row)
        → Hoare step (λ τ. τ ≡ open_row) m Q (λ _. Under)
    while_open h = weaken step (λ τ e. e) (λ a τ q. q) (λ e τ q. ap under_lock q) h

    update-Hoare :
        (id : Value) (status : String)
        → id ≡ transaction_id_of payload
        → Hoare step
            (λ τ. τ ≡ open_row)
            (update id (record no_fields { status = some (str status); processed = some true }))
            (λ _ τ. τ ≡ settled)
            (λ _. Under)
    unfolding update
    update-Hoare id status same = attempt-Hoare step _ _ (λ τ. elim [
      | ok u ↦ λ e. λ i. next (e i) (
          if is_mine_lem s partner transaction x payload about id same i && true
          then Shared.stored
          else Shared.elsewhere)
      | err f ↦ λ e. λ i. under_lock (
          next (e i) (
            if is_mine_lem s partner transaction x payload about id same i && true
            then Shared.attempted
            else Shared.elsewhere))
    ])

    record_result-Hoare :
        (id : Value) (p : PaymentEntity) (status : String)
        → id ≡ transaction_id_of payload
        → Hoare step (λ τ. τ ≡ open_row) (record_result s x id p status) (λ _. Under) (λ _. Under)
    unfolding record_result
    record_result-Hoare id p status same = bind-Hoare step (update-Hoare id status same) (λ _.
        bind-Hoare step (publish_payment_result-Hoare p (str status)) (λ _.
          quiet-Hoare s partner transaction Under (
            bind-Uses (update_metric-Uses _ tt) (λ _.
              bind-Uses (record_success-Uses p status)
                (λ _. bind-Uses (call-Uses now tt) (λ time. ret-Uses _))))))

    pub settle-Hoare :
        (id : Value) (p : PaymentEntity)
        → id ≡ transaction_id_of payload
        → Hoare step (λ τ. τ ≡ open_row) (settle s x payload id p) (λ _. Under) (λ _. Under)
    unfolding settle
    settle-Hoare id p same =
        bind-Hoare step (while_open (is_signed-Hoare step s x payload)) (λ valid.
          given-Hoare step (λ authentic.
            if-Hoare step valid
              (λ _.
                bind-Hoare step (while_open (extract_status-Hoare step payload))
                  (λ status. given-Hoare step (λ e. record_result-Hoare id p status same)))
              (λ _. throw-Hoare step _ (λ τ q. ap under_lock q))))
