-- ===== src/Queue/Worker/Bounds.antt =====
-- How many calls the jobs and the executors' other operations make at most.
use aspin_partners_bridge.Common.{ℕ, String, Option, none, some, arith}
use aspin_partners_bridge.Value.{Value, is_text}
use aspin_partners_bridge.Errors.{Error, error_response_status, error_connection_code}
use aspin_partners_bridge.Domain.{PaymentEntity, PaymentInitiationPayload}
use aspin_partners_bridge.Domain.PaymentChannel
use aspin_partners_bridge.Effects.{now, Services}
use aspin_partners_bridge.Effects.Footprint.{footprint, or_throw-Uses, read-Uses}
use aspin_partners_bridge.Effects.Bound.{
  Within, fits, ret-Within, throw-Within, attempt-Within, call-Within, if-Within, try_catch-Within,
  idle-Within, bind-Within, silent-bind,
}
use aspin_partners_bridge.Repositories.Payments.{
  get_by_transaction_id, get_by_reference, create, update, update_status,
}
use aspin_partners_bridge.Executors.{Executor}
use aspin_partners_bridge.Executors.Footprint.{status_of-Uses}
use aspin_partners_bridge.Executors.Builder.Footprint.{get_executor-Uses}
use aspin_partners_bridge.Executors.Bounds.{
  update_metric-Within, publish_payment_result-Within, query_transaction-Within, stk_push-Within,
  direct_debit-Within,
}
use aspin_partners_bridge.Executors.Initiate.{initiate}
use aspin_partners_bridge.Executors.StatusCheck.{synchronize, status_check}
use aspin_partners_bridge.Queue.Producer.{add_status_check_job, add_payment_initiation_job}
use aspin_partners_bridge.Queue.Worker.{
  Job, count_response_error, count_connection_error, count_error, process_status_check_job,
  push_payment, push_order, process_payment_initiation_job,
}

pub initiate-Within : (x : Executor) (p : PaymentInitiationPayload) → Within 5 (initiate x p)
unfolding initiate get_by_reference create add_payment_initiation_job
initiate-Within x p = bind-Within (update_metric-Within _) (λ _.
    bind-Within (attempt-Within _ _) (λ existing. silent-bind (search footprint) (λ _.
      bind-Within (attempt-Within _ _) (λ _.
        bind-Within (attempt-Within _ _)
          (λ _. bind-Within (call-Within now) (λ time. ret-Within _))))))

count_response_error-Within : (p c : Value) (n : ℕ) → Within 1 (count_response_error p c n)
unfolding count_response_error
count_response_error-Within p c n =
    search (footprint, if-Within, idle-Within, update_metric-Within) depth 9

count_connection_error-Within :
    (p c : Value) (o : Option String) → Within 1 (count_connection_error p c o)
unfolding count_connection_error
count_connection_error-Within p c none = fits 1 (ret-Within _) (omega arith)
count_connection_error-Within p c (some code) =
    search (footprint, if-Within, idle-Within, update_metric-Within) depth 9

count_error-Within : (p c : Value) (e : Error) → Within 1 (count_error p c e)
unfolding count_error
count_error-Within p c e =
    elim (error_response_status e)
      as (λ o. Within 1 (elim o [
        | some status ↦ count_response_error p c status
        | none ↦ count_connection_error p c (error_connection_code e)
      ])) [
        | some status ↦ count_response_error-Within p c status
        | none ↦ count_connection_error-Within p c (error_connection_code e)
      ]

module _ (s : Services) where
  add_status_check_job-Within :
      (v : Value) (delay : Option ℕ) → Within 1 (add_status_check_job s v delay)
  unfolding add_status_check_job
  add_status_check_job-Within v delay = silent-bind (read-Uses v _) (λ id. attempt-Within _ _)

  synchronize-Within :
      (id : Value) (p : PaymentEntity) (status : Value) → Within 5 (synchronize s id p status)
  unfolding synchronize update_status update
  synchronize-Within id p status =
      if-Within _
        (bind-Within (attempt-Within _ _) (λ _.
          if-Within _ (publish_payment_result-Within s p status)
            (fits 4 (ret-Within _) (omega arith))))
        (fits 5 (ret-Within _) (omega arith))

  pub status_check-Within : (x : Executor) (id : Value) → Within 8 (status_check s x id)
  unfolding status_check get_by_transaction_id
  status_check-Within x id = bind-Within (attempt-Within _ _) (λ found.
      silent-bind (or_throw-Uses found _) (λ p. bind-Within (query_transaction-Within s _ id) (λ r.
        silent-bind (status_of-Uses r) (λ status.
          bind-Within (synchronize-Within id p status)
            (λ _. bind-Within (call-Within now) (λ time. ret-Within _))))))

  pub process_status_check_job-Within : (job : Job) → Within 9 (process_status_check_job s job)
  unfolding process_status_check_job
  process_status_check_job-Within job = silent-bind (read-Uses _ _) (λ id.
      silent-bind (read-Uses _ _) (λ partner_id. silent-bind (read-Uses _ _) (λ channel.
        silent-bind (get_executor-Uses s.host partner_id channel) (λ x.
          bind-Within (status_check-Within x id) (λ r.
            bind-Within
              (if-Within _ (add_status_check_job-Within _ _) (fits 1 (ret-Within _) (omega arith)))
              (λ _. ret-Within r))))))

  push_payment-Within :
      (x : Executor) (partner_id channel : Value) (p : PaymentEntity)
      → Within 1 (push_payment s x partner_id channel p)
  unfolding push_payment
  push_payment-Within x partner_id channel p =
      if-Within (is_text channel PaymentChannel.mpesa) (stk_push-Within s _ _) (
        if-Within (is_text channel PaymentChannel.airtel) (direct_debit-Within s _ _)
          (fits 1 (throw-Within _) (omega arith)))

  push_order-Within :
      (reference partner_id channel : Value) → Within 4 (push_order s reference partner_id channel)
  unfolding push_order get_by_reference
  push_order-Within reference partner_id channel = bind-Within (attempt-Within _ _) (λ found.
      silent-bind (or_throw-Uses found _) (λ order. bind-Within (update_metric-Within _) (λ _.
        silent-bind (get_executor-Uses s.host partner_id channel) (λ x.
          bind-Within (push_payment-Within x partner_id channel order)
            (λ r. add_status_check_job-Within _ _)))))

  pub process_payment_initiation_job-Within :
      (job : Job) → Within 5 (process_payment_initiation_job s job)
  unfolding process_payment_initiation_job
  process_payment_initiation_job-Within job = silent-bind (read-Uses _ _) (λ reference.
      silent-bind (read-Uses _ _) (λ partner_id. silent-bind (read-Uses _ _) (λ channel.
        try_catch-Within (push_order-Within reference partner_id channel)
          (λ e. bind-Within (count_error-Within partner_id channel e) (λ _. throw-Within e)))))
