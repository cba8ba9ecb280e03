-- ===== src/Executors/StatusCheck/Calls.antt =====
-- What `statusCheck` calls, for any set C of calls that has the ones it needs.
use aspin_partners_bridge.Common.{some}
use aspin_partners_bridge.Value.{Value}
use aspin_partners_bridge.Domain.{PaymentEntity, no_fields}
use aspin_partners_bridge.Effects.{
  Call, find_by_transaction_id, update_payment, call, now, Services,
}
use aspin_partners_bridge.Effects.Footprint.{Uses, footprint, attempt-Uses, call-Uses}
use aspin_partners_bridge.Repositories.Payments.{get_by_transaction_id, update, update_status}
use aspin_partners_bridge.Channels.{Channel, query_transaction}
use aspin_partners_bridge.Executors.Defs.{Executor}
use aspin_partners_bridge.Executors.Footprint.{
  Publishes, status_of-Uses, query_transaction-Uses, publish_payment_result-Uses,
}
use aspin_partners_bridge.Executors.Publish.{publish_payment_result}
use aspin_partners_bridge.Executors.StatusCheck.{synchronize, status_check}

pub record Checks (C : Call → Type 0) : Type 0 where
  pub find : (id : Value) → C (find_by_transaction_id id)
  pub store :
      (id status : Value) → C (update_payment id (record no_fields { status = some status }))
  pub publishes : Publishes C

module _ {C : Call → Type 0} (s : Services) (calls : Checks C) where
  find-Uses : (id : Value) → Uses C (get_by_transaction_id id)
  unfolding get_by_transaction_id
  find-Uses id = attempt-Uses _ _ (calls.find id)

  store-Uses : (id status : Value) → Uses C (update_status id status)
  unfolding update_status update
  store-Uses id status = attempt-Uses _ _ (calls.store id status)

  now-Uses : Uses C (call now)
  now-Uses = call-Uses now calls.publishes.clock

  publish-Uses : (p : PaymentEntity) (status : Value) → Uses C (publish_payment_result s p status)
  publish-Uses = publish_payment_result-Uses s calls.publishes

  query-Uses : (ch : Channel) (id : Value) → Uses C (query_transaction s ch id)
  query-Uses = query_transaction-Uses {C = C} s calls.publishes.http

  synchronize-Uses :
      (id : Value) (p : PaymentEntity) (status : Value) → Uses C (synchronize s id p status)
  unfolding synchronize
  synchronize-Uses id p status = search (footprint, store-Uses, publish-Uses) depth 12

  pub status_check-Uses : (x : Executor) (id : Value) → Uses C (status_check s x id)
  unfolding status_check
  status_check-Uses x id =
      search (footprint, find-Uses, query-Uses, status_of-Uses, synchronize-Uses, now-Uses) depth 12
