-- ===== src/Executors/StatusCheck.antt =====
-- base.payment.executor.ts: `statusCheck`.
pub mod Calls
pub mod Synchronized
pub mod Stages
use aspin_partners_bridge.Common.{Bool, not, none, some, ◌||◌, if◌then◌else◌}
use aspin_partners_bridge.Value.{Value, str, is_text}
use aspin_partners_bridge.Errors.{raised, transaction_not_found, unknown_payment_status}
use aspin_partners_bridge.Domain.{PaymentEntity, PaymentStatusResponse, ChannelResponse}
use aspin_partners_bridge.Effects.{
  or_throw, Prog, ret, throw, ◌>>=◌, ◌>>◌, call, now, Services, to_text,
}
use aspin_partners_bridge.Repositories.Payments.{get_by_transaction_id, update_status}
use aspin_partners_bridge.Channels.{query_transaction}
use aspin_partners_bridge.Channels.Callback.{response_value, has_key}
use aspin_partners_bridge.Executors.Defs.{Executor, get_channel_implementation}
use aspin_partners_bridge.Executors.Publish.{publish_payment_result}

-- `['completed', 'failed'].includes(status)`
unfoldable pub is_final : Value → Bool
is_final status = is_text status "completed" || is_text status "failed"

-- `'status' in statusResponse`
unfoldable pub status_of : ChannelResponse → Prog Value
status_of r =
    if has_key (response_value r) "status"
    then ret r.status
    else throw (raised unknown_payment_status)

module _ (s : Services) where
  -- What follows when the hub reports another status than the stored one.
  unfoldable pub synchronize : Value → PaymentEntity → Value → Prog (Unit {0})
  synchronize transaction_id payment status =
      if not (is_text status payment.status)
      then (update_status transaction_id status
          >> (if is_final status then publish_payment_result s payment status else ret tt))
      else ret tt

  unfoldable pub status_check : Executor → Value → Prog PaymentStatusResponse
  status_check x transaction_id = do
    found ← get_by_transaction_id transaction_id
    payment ← or_throw found (raised (transaction_not_found (to_text s.host transaction_id)))
    response ← query_transaction s (get_channel_implementation x) transaction_id
    status ← status_of response
    synchronize transaction_id payment status
    time ← call now
    ret (record {
      transaction_id = transaction_id;
      status = status;
      amount = payment.amount;
      currency = str payment.currency;
      timestamp = time;
    })
