-- ===== src/Presentation/Calls.antt =====
-- What the handlers of the three routes and the two jobs ask of the outside.
pub mod Sound
use aspin_partners_bridge.Common.{ℕ, String, Bool, true, Option, none, some, ◌≡◌, refl}
use aspin_partners_bridge.Value.{Value, str}
use aspin_partners_bridge.Errors.{Error}
use aspin_partners_bridge.Domain.{
  PaymentEntity, PartialPayment, no_fields, PaymentInitiationPayload, PaymentHubWebhookPayload,
  InitiatePaymentPayload,
}
use aspin_partners_bridge.Effects.{
  Call, find_by_transaction_id, find_by_reference, save_payment, update_payment, redis_set_nx,
  redis_del, add_job, has_amqp_channel, amqp_publish, http_request, metric, MetricUpdate, call, now,
  HttpRequest, Services,
}
use aspin_partners_bridge.Effects.Footprint.{
  Uses, footprint, attempt-Uses, call-Uses, bind-Uses, ret-Uses, read-Uses,
}
use aspin_partners_bridge.Monitoring.{update_metric}
use aspin_partners_bridge.Monitoring.Labels.{is_declared, declared}
use aspin_partners_bridge.Repositories.Payments.{
  create, update, update_status, get_by_transaction_id, get_by_reference,
}
use aspin_partners_bridge.Executors.{Executor}
use aspin_partners_bridge.Channels.{Channel, stk_push, direct_debit, query_transaction}
use aspin_partners_bridge.Executors.Footprint.{
  Publishes, update_metric-Uses, is_signed-Uses, extract_transaction_id-Uses, extract_status-Uses,
  status_of-Uses, query_transaction-Uses, stk_push-Uses, direct_debit-Uses,
  publish_payment_result-Uses,
}
use aspin_partners_bridge.Executors.Builder.{get_executor, get_executor_key, upper_case_of}
use aspin_partners_bridge.Executors.Lock.{acquire_callback_lock, release_callback_lock}
use aspin_partners_bridge.Executors.Initiate.{initiate, pending_payment}
use aspin_partners_bridge.Executors.Publish.{publish_payment_result}
use aspin_partners_bridge.Executors.StatusCheck.{status_check}
use aspin_partners_bridge.Executors.StatusCheck.Calls.{Checks, status_check-Uses}
use aspin_partners_bridge.Executors.Callback.{
  handle_callback, locked_callback, process_callback, answer_without_lock, settle, record_result,
  record_success, report_failure,
}
use aspin_partners_bridge.Queue.Producer.{add_status_check_job, add_payment_initiation_job}
use aspin_partners_bridge.Queue.Worker.{
  Job, process_status_check_job, process_payment_initiation_job, push_order, push_payment,
}
use aspin_partners_bridge.Queue.Worker.Initiation.{count_error-Uses}
use aspin_partners_bridge.UseCases.{
  determine_channel_from_payload, initiate_payment, handle_webhook, check_payment,
}

-- A new payment is pending, unprocessed and has no identifier of the hub; an update touches the
-- status and the processed flag only; the lock lasts thirty seconds; an event goes to the one
-- exchange; a request has a time limit of ten seconds; a metric is declared with its labels.
abbrev pub IsSound : Call → Type 0
IsSound (save_payment p) =
    (p.status ≡ some (str "pending")) × (p.processed ≡ some Bool.false) × (p.transaction_id ≡ none)
IsSound (update_payment id c) = c ≡ record no_fields { status = c.status; processed = c.processed }
IsSound (redis_set_nx key v ttl) = (v ≡ "1") × (ttl ≡ 30)
IsSound (amqp_publish exchange key content) = exchange ≡ "payment.events"
IsSound (http_request q) = q.timeout ≡ 10000
IsSound (metric u) = is_declared u ≡ true
IsSound _ = Unit

publishes : Publishes IsSound
publishes = record { clock = tt; ready = tt; event = λ key content. refl; http = λ q e. e }

pub http-IsSound : (q : HttpRequest) → q.timeout ≡ 10000 → IsSound (http_request q)
http-IsSound q e = e

pub find_id-Uses : (id : Value) → Uses IsSound (get_by_transaction_id id)
unfolding get_by_transaction_id
find_id-Uses id = attempt-Uses _ _ tt

pub find_reference-Uses : (reference : Value) → Uses IsSound (get_by_reference reference)
unfolding get_by_reference
find_reference-Uses reference = attempt-Uses _ _ tt

now-Uses : Uses IsSound (call now)
now-Uses = call-Uses now tt

pub metric-Uses : (u : MetricUpdate) → is_declared u ≡ true → Uses IsSound (update_metric u)
metric-Uses u h = update_metric-Uses u h

pub upper_case_of-Uses : (v : Value) → Uses IsSound (upper_case_of v)
unfolding upper_case_of
upper_case_of-Uses (Value.str t) = search footprint
upper_case_of-Uses _ = search footprint

module _ (s : Services) where
  pub get_executor-Uses :
      (partner channel : Value) → Uses IsSound (get_executor s.host partner channel)
  unfolding get_executor get_executor_key
  get_executor-Uses partner channel = search (footprint, upper_case_of-Uses) depth 9

  create-Uses :
      (x : Executor) (p : PaymentInitiationPayload) → Uses IsSound (create (pending_payment x p))
  unfolding create pending_payment
  create-Uses x p = attempt-Uses _ _ (refl, refl, refl)

  queue-Uses : (r : String) (d : Option ℕ) → Uses IsSound (add_payment_initiation_job r d)
  unfolding add_payment_initiation_job
  queue-Uses r d = attempt-Uses _ _ tt

  pub add_status_check_job-Uses :
      (v : Value) (d : Option ℕ) → Uses IsSound (add_status_check_job s v d)
  unfolding add_status_check_job
  add_status_check_job-Uses v d = bind-Uses (read-Uses v _) (λ id. attempt-Uses _ _ tt)

  pub initiate-Uses : (x : Executor) (p : PaymentInitiationPayload) → Uses IsSound (initiate x p)
  unfolding initiate
  initiate-Uses x p =
      search
        (footprint, metric-Uses, declared, find_reference-Uses, create-Uses, queue-Uses, now-Uses)
        depth 12

  checks : Checks IsSound
  checks = record { find = λ id. tt; store = λ id status. refl; publishes = publishes }

  publish-Uses :
      (p : PaymentEntity) (status : Value) → Uses IsSound (publish_payment_result s p status)
  publish-Uses = publish_payment_result-Uses s publishes

  pub checked-Uses : (x : Executor) (id : Value) → Uses IsSound (status_check s x id)
  checked-Uses = status_check-Uses s checks

  lock-Uses : (key : String) → Uses IsSound (acquire_callback_lock key)
  unfolding acquire_callback_lock
  lock-Uses key = bind-Uses (attempt-Uses _ _ (refl, refl)) (λ r. ret-Uses _)

  unlock-Uses : (key : String) → Uses IsSound (release_callback_lock key)
  unfolding release_callback_lock
  unlock-Uses key = attempt-Uses _ _ tt

  mark-Uses :
      (id : Value) (status : String)
      → Uses IsSound
          (update id (record no_fields { status = some (str status); processed = some true }))
  unfolding update
  mark-Uses id status = attempt-Uses _ _ refl

  record_success-Uses :
      (p : PaymentEntity) (status : String) → Uses IsSound (record_success p status)
  unfolding record_success
  record_success-Uses p status = search (footprint, metric-Uses, declared, now-Uses) depth 12

  record_result-Uses :
      (x : Executor) (id : Value) (p : PaymentEntity) (status : String)
      → Uses IsSound (record_result s x id p status)
  unfolding record_result
  record_result-Uses x id p status =
      search
        (footprint, mark-Uses, publish-Uses, metric-Uses, declared, record_success-Uses, now-Uses)
        depth 12

  settle-Uses :
      (x : Executor) (payload id : Value) (p : PaymentEntity)
      → Uses IsSound (settle s x payload id p)
  unfolding settle
  settle-Uses x payload id p =
      search (footprint, is_signed-Uses, extract_status-Uses, record_result-Uses) depth 12

  process_callback-Uses :
      (x : Executor) (payload id : Value) → Uses IsSound (process_callback s x payload id)
  unfolding process_callback
  process_callback-Uses x payload id =
      search (footprint, find_id-Uses, metric-Uses, declared, settle-Uses) depth 12

  pub handle_callback-Uses :
      (x : Executor) (payload : Value) → Uses IsSound (handle_callback s x payload)
  unfolding handle_callback locked_callback answer_without_lock report_failure
  handle_callback-Uses x payload =
      search
        (
          footprint, extract_transaction_id-Uses, lock-Uses, unlock-Uses, process_callback-Uses,
          find_id-Uses, metric-Uses, declared,
        )
        depth 20
