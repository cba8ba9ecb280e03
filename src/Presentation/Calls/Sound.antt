-- ===== src/Presentation/Calls/Sound.antt =====
-- The calls of the three routes and the two jobs.
use aspin_partners_bridge.Common.{String}
use aspin_partners_bridge.Value.{Value}
use aspin_partners_bridge.Errors.{Error}
use aspin_partners_bridge.Domain.{
  PaymentEntity, MpesaStkPushPayload, AirtelDirectDebitPayload, InitiatePaymentResponse,
  WebhookProcessingResponse, PaymentNotificationResponse,
}
use aspin_partners_bridge.Effects.{Call, Services}
use aspin_partners_bridge.Effects.Footprint.{Uses, footprint}
use aspin_partners_bridge.Monitoring.Labels.{declared}
use aspin_partners_bridge.Channels.{Channel, stk_push, direct_debit}
use aspin_partners_bridge.Executors.{Executor}
use aspin_partners_bridge.Executors.Footprint.{stk_push-Uses, direct_debit-Uses}
use aspin_partners_bridge.Queue.Worker.{
  Job, process_status_check_job, process_payment_initiation_job, push_order, push_payment,
  count_error,
}
use aspin_partners_bridge.Queue.Worker.Initiation.{count_error-Uses}
use aspin_partners_bridge.UseCases.{
  determine_channel_from_payload, initiate_payment, handle_webhook, check_payment,
}
use aspin_partners_bridge.Presentation.Controllers.{
  InitiatePaymentDto, PaymentHubWebhookDto, post_initiate, post_webhook, get_check,
}
use aspin_partners_bridge.Presentation.Calls.{
  IsSound, http-IsSound, find_id-Uses, find_reference-Uses, upper_case_of-Uses, metric-Uses,
  get_executor-Uses, initiate-Uses, checked-Uses, handle_callback-Uses, add_status_check_job-Uses,
}

channel-Uses : (v : Value) → Uses IsSound (determine_channel_from_payload v)
unfolding determine_channel_from_payload
channel-Uses v = search footprint depth 12

module _ (s : Services) where
  push-Uses : (ch : Channel) (p : MpesaStkPushPayload) → Uses IsSound (stk_push s ch p)
  push-Uses = stk_push-Uses {C = IsSound} s http-IsSound

  debit-Uses : (ch : Channel) (p : AirtelDirectDebitPayload) → Uses IsSound (direct_debit s ch p)
  debit-Uses = direct_debit-Uses {C = IsSound} s http-IsSound

  push_payment-Uses :
      (x : Executor) (partner channel : Value) (p : PaymentEntity)
      → Uses IsSound (push_payment s x partner channel p)
  unfolding push_payment
  push_payment-Uses x partner channel p = search (footprint, push-Uses, debit-Uses) depth 9

  push_order-Uses :
      (reference partner channel : Value) → Uses IsSound (push_order s reference partner channel)
  unfolding push_order
  push_order-Uses reference partner channel =
      search
        (
          footprint, find_reference-Uses, metric-Uses, declared, get_executor-Uses,
          push_payment-Uses, add_status_check_job-Uses,
        )
        depth 12

  count-Uses : (partner channel : Value) (e : Error) → Uses IsSound (count_error partner channel e)
  count-Uses = count_error-Uses {C = IsSound} (λ u h. h)

  initiation_job-Uses : (job : Job) → Uses IsSound (process_payment_initiation_job s job)
  unfolding process_payment_initiation_job
  initiation_job-Uses job = search (footprint, push_order-Uses, count-Uses) depth 12

  status_check_job-Uses : (job : Job) → Uses IsSound (process_status_check_job s job)
  unfolding process_status_check_job
  status_check_job-Uses job =
      search (footprint, get_executor-Uses, checked-Uses, add_status_check_job-Uses) depth 12

  post_initiate-Uses :
      (plain : InitiatePaymentResponse → Value) (dto : InitiatePaymentDto)
      → Uses IsSound (post_initiate s plain dto)
  unfolding post_initiate initiate_payment
  post_initiate-Uses plain dto = search (footprint, get_executor-Uses, initiate-Uses) depth 12

  post_webhook-Uses :
      (plain : WebhookProcessingResponse → Value) (dto : PaymentHubWebhookDto) (partner : Value)
      → Uses IsSound (post_webhook s plain dto partner)
  unfolding post_webhook handle_webhook
  post_webhook-Uses plain dto partner =
      search (footprint, channel-Uses, upper_case_of-Uses, get_executor-Uses, handle_callback-Uses)
        depth 12

  get_check-Uses :
      (plain : PaymentNotificationResponse → Value) (id : String)
      → Uses IsSound (get_check s plain id)
  unfolding get_check check_payment
  get_check-Uses plain id =
      search (footprint, find_id-Uses, get_executor-Uses, checked-Uses) depth 12

-- The requests of the routes and the jobs of the workers.
pub data Task : Type 0 where
  initiate_route : (InitiatePaymentResponse → Value) → InitiatePaymentDto → Task
  webhook_route : (WebhookProcessingResponse → Value) → PaymentHubWebhookDto → Value → Task
  check_route : (PaymentNotificationResponse → Value) → String → Task
  status_check_task initiation_task : Job → Task

abbrev pub CallsOnly : (Call → Type 0) → Services → Task → Type 0
CallsOnly C s (initiate_route plain dto) = Uses C (post_initiate s plain dto)
CallsOnly C s (webhook_route plain dto partner) = Uses C (post_webhook s plain dto partner)
CallsOnly C s (check_route plain id) = Uses C (get_check s plain id)
CallsOnly C s (status_check_task job) = Uses C (process_status_check_job s job)
CallsOnly C s (initiation_task job) = Uses C (process_payment_initiation_job s job)

-- Whatever the outside answers, each route and each job makes sound calls only. A stored new
-- payment has status "pending", is not processed and has no transaction id. An update of a
-- payment changes its status and its processed flag only, so no handler ever fills in a
-- transaction id. A lock has the value "1" and lasts 30 seconds. An event goes to the exchange
-- payment.events. An HTTP request has a time limit of 10000 ms. A metric is one that the
-- monitoring module declares, with that module's labels, in a way that its kind allows.
pub calls_are-IsSound : (s : Services) (task : Task) → CallsOnly IsSound s task
calls_are-IsSound s (initiate_route plain dto) = post_initiate-Uses s plain dto
calls_are-IsSound s (webhook_route plain dto partner) = post_webhook-Uses s plain dto partner
calls_are-IsSound s (check_route plain id) = get_check-Uses s plain id
calls_are-IsSound s (status_check_task job) = status_check_job-Uses s job
calls_are-IsSound s (initiation_task job) = initiation_job-Uses s job
