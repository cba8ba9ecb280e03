-- ===== src/Queue/Worker.antt =====
-- queue.service.impl.ts: the workers' jobs.
pub mod Bounds
pub mod Ends
pub mod Initiation
pub mod Polling
pub mod HubFailure
use aspin_partners_bridge.Common.{
  ℕ, String, ◌+◌, ◌*◌, ◌&&◌, Option, none, some, ltb, leb, ◌==◌, if◌then◌else◌,
}
use aspin_partners_bridge.Value.{Value, is_text}
use aspin_partners_bridge.Errors.{
  Error, raised, type_error, transaction_not_found, error_response_status, error_connection_code,
}
use aspin_partners_bridge.Domain.{PaymentEntity, PaymentStatusResponse, ChannelResponse}
use aspin_partners_bridge.Domain.PaymentChannel
use aspin_partners_bridge.Effects.{
  or_throw, Prog, ret, throw, ◌>>=◌, ◌>>◌, read, try_catch, Services, to_text,
}
use aspin_partners_bridge.Monitoring.{
  update_metric, increment_api_call, increment_api_error_4xx, increment_api_error_5xx,
  increment_connection_refused, increment_api_timeout,
}
use aspin_partners_bridge.Repositories.Payments.{get_by_reference}
use aspin_partners_bridge.Channels.{stk_push, direct_debit}
use aspin_partners_bridge.Executors.{Executor, get_channel_implementation}
use aspin_partners_bridge.Executors.Builder.{get_executor}
use aspin_partners_bridge.Executors.StatusCheck.{status_check}
use aspin_partners_bridge.Queue.Producer.{status_check_data, add_status_check_job}

-- The parts of a BullMQ job that the workers read.
pub record Job : Type 0 where
  pub job_data : Value
  pub attempts_made : ℕ

-- The metric for an error of the initiation, if it is one that is counted.
unfoldable pub count_response_error : Value → Value → ℕ → Prog (Unit {0})
count_response_error partner_id channel status =
    if leb 400 status && ltb status 500
    then update_metric (increment_api_error_4xx partner_id channel status)
    else if leb 500 status
    then update_metric (increment_api_error_5xx partner_id channel status)
    else ret tt

unfoldable pub count_connection_error : Value → Value → Option String → Prog (Unit {0})
count_connection_error partner_id channel none = ret tt
count_connection_error partner_id channel (some code) =
    if code == "ECONNREFUSED"
    then update_metric (increment_connection_refused partner_id channel)
    else if code == "ETIMEDOUT"
    then update_metric (increment_api_timeout partner_id channel)
    else ret tt

unfoldable pub count_error : Value → Value → Error → Prog (Unit {0})
count_error partner_id channel error = elim (error_response_status error) [
  | some status ↦ count_response_error partner_id channel status
  | none ↦ count_connection_error partner_id channel (error_connection_code error)
]

module _ (s : Services) where
  unfoldable pub process_status_check_job : Job → Prog PaymentStatusResponse
  process_status_check_job job = do
    transaction_id ← read job.job_data "transactionId"
    partner_id ← read job.job_data "partnerId"
    channel ← read job.job_data "channel"
    executor ← get_executor s.host partner_id channel
    result ← status_check s executor transaction_id
    (if is_text result.status "pending" && ltb job.attempts_made 5
        then add_status_check_job s job.job_data (some (5000 * (job.attempts_made + 1)))
        else ret tt)
    ret result

  -- The push or the debit; a channel that is neither leaves the response undefined, and the read
  -- of its identifier throws.
  unfoldable pub push_payment : Executor → Value → Value → PaymentEntity → Prog ChannelResponse
  push_payment executor partner_id channel order =
      if is_text channel PaymentChannel.mpesa
      then stk_push s (get_channel_implementation executor) (record {
        amount = order.amount;
        phone_number = order.phone_number;
        account_reference = order.reference;
        transaction_desc = none;
        partner_id = partner_id;
      })
      else if is_text channel PaymentChannel.airtel
      then direct_debit s (get_channel_implementation executor) (record {
        amount = order.amount;
        phone_number = order.phone_number;
        reference = order.reference;
        partner_id = partner_id;
      })
      else throw (type_error "Cannot read properties of undefined (reading 'transactionId')")

  -- The body of the try block.
  unfoldable pub push_order : Value → Value → Value → Prog (Unit {0})
  push_order reference partner_id channel = do
    found ← get_by_reference reference
    order ← or_throw found (raised (transaction_not_found (to_text s.host reference)))
    update_metric (increment_api_call partner_id channel)
    executor ← get_executor s.host partner_id channel
    response ← push_payment executor partner_id channel order
    add_status_check_job s
        (status_check_data (record {
          transaction_id = response.transaction_id;
          partner_id = partner_id;
          channel = channel;
        }))
        (some 10000)

  unfoldable pub process_payment_initiation_job : Job → Prog (Unit {0})
  process_payment_initiation_job job = do
    reference ← read job.job_data "reference"
    partner_id ← read job.job_data "partnerId"
    channel ← read job.job_data "channel"
    try_catch (push_order reference partner_id channel)
        (λ error. count_error partner_id channel error >> throw error)
