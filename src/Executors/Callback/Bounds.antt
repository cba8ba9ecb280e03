-- ===== src/Executors/Callback/Bounds.antt =====
-- How many calls `handleCallback` makes at most.
use aspin_partners_bridge.Common.{String, ◌==◌, arith}
use aspin_partners_bridge.Value.{Value}
use aspin_partners_bridge.Domain.{PaymentEntity}
use aspin_partners_bridge.Effects.{now, Services}
use aspin_partners_bridge.Effects.Footprint.{or_throw-Uses, ret-Uses}
use aspin_partners_bridge.Effects.Bound.{
  Within, fits, ret-Within, throw-Within, attempt-Within, call-Within, if-Within, try_catch-Within,
  try_finally-Within, bind-Within, silent-bind, bind-silent,
}
use aspin_partners_bridge.Repositories.Payments.{get_by_transaction_id, update}
use aspin_partners_bridge.Executors.Defs.{Executor}
use aspin_partners_bridge.Executors.Footprint.{
  is_signed-Uses, extract_transaction_id-Uses, extract_status-Uses,
}
use aspin_partners_bridge.Executors.Bounds.{update_metric-Within, publish_payment_result-Within}
use aspin_partners_bridge.Executors.Lock.{acquire_callback_lock, release_callback_lock}
use aspin_partners_bridge.Executors.Callback.{
  handle_callback, locked_callback, process_callback, settle, record_result, record_success,
  answer_without_lock, report_failure,
}

record_success-Within : (p : PaymentEntity) (status : String) → Within 3 (record_success p status)
unfolding record_success
record_success-Within p status =
    if-Within (status == "completed")
      (bind-Within (update_metric-Within _)
        (λ _. bind-Within (call-Within now) (λ time. update_metric-Within _)))
      (fits 3 (ret-Within _) (omega arith))

module _ (s : Services) (x : Executor) where
  record_result-Within :
      (id : Value) (p : PaymentEntity) (status : String) → Within 10 (record_result s x id p status)
  unfolding record_result update
  record_result-Within id p status = bind-Within (attempt-Within _ _) (λ _.
      bind-Within (publish_payment_result-Within s p _) (λ _.
        bind-Within (update_metric-Within _) (λ _.
          bind-Within (record_success-Within p status)
            (λ _. bind-Within (call-Within now) (λ time. ret-Within _)))))

  settle-Within : (payload id : Value) (p : PaymentEntity) → Within 10 (settle s x payload id p)
  unfolding settle
  settle-Within payload id p = silent-bind (is_signed-Uses s x payload) (λ valid.
      if-Within valid
        (silent-bind (extract_status-Uses payload) (λ status. record_result-Within id p status))
        (fits 10 (throw-Within _) (omega arith)))

  process_callback-Within : (payload id : Value) → Within 12 (process_callback s x payload id)
  unfolding process_callback get_by_transaction_id
  process_callback-Within payload id = bind-Within (attempt-Within _ _) (λ found.
      silent-bind (or_throw-Uses found _) (λ p. bind-Within (update_metric-Within _) (λ _.
        if-Within p.processed (fits 10 (ret-Within _) (omega arith)) (settle-Within payload id p))))

  locked_callback-Within : (payload : Value) → Within 14 (locked_callback s x payload)
  unfolding locked_callback acquire_callback_lock release_callback_lock answer_without_lock
      get_by_transaction_id
  locked_callback-Within payload = silent-bind (extract_transaction_id-Uses payload) (λ id.
      bind-Within (bind-silent (attempt-Within _ _) (λ o. ret-Uses _)) (λ acquired.
        if-Within acquired
          (try_finally-Within (process_callback-Within payload id) (attempt-Within _ _))
          (fits 13
            (bind-Within (attempt-Within _ _)
              (λ o. silent-bind (or_throw-Uses o _) (λ p. ret-Within _)))
            (omega arith))))

  pub handle_callback-Within : (payload : Value) → Within 15 (handle_callback s x payload)
  unfolding handle_callback report_failure
  handle_callback-Within payload =
      try_catch-Within (locked_callback-Within payload)
        (λ e. bind-Within (update_metric-Within _) (λ _. throw-Within e))
