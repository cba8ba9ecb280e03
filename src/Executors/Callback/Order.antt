-- ===== src/Executors/Callback/Order.antt =====
-- The order of a callback's calls: lock, find, mark as processed, publish, release. A monitor
-- keeps the data with which each of them was made.
use aspin_partners_bridge.Common.{String, ◌++◌, to_lower_case, true, some, ◌≡◌, ◌⊎◌, if◌then◌else◌}
use aspin_partners_bridge.Value.{Value, str, optional, or_else, rest_of, is_text}
use aspin_partners_bridge.Domain.{PartialPayment, no_fields}
use aspin_partners_bridge.Effects.{
  ok, err, find_by_transaction_id, update_payment, redis_set_nx, redis_del, has_amqp_channel,
  amqp_publish, http_request, metric, now, Services,
}
use aspin_partners_bridge.Effects.Run.{Event}
use aspin_partners_bridge.Executors.Defs.{Executor, get_partner, get_channel}
use aspin_partners_bridge.Executors.Lock.{is_ok, build_callback_lock_key}
use aspin_partners_bridge.Executors.Payload.{normalize_status}

-- How far the work under the lock has come: nothing is written, or the payment is updated with
-- these changes, or its result is published as well.
pub data Progress : Type 0 where
  untouched : Progress
  marked published : Value → PartialPayment → Progress

-- The lock is not taken, held on a key, or given back on a key; a call out of order breaks all.
pub data Phase : Type 0 where
  idle : Phase
  locked : String → Progress → Phase
  released : String → String → Progress → Phase
  broken : Phase

-- The phase after a call and its reply.
abbrev pub advance : Phase → Event → Phase
advance idle (redis_set_nx k v ttl, ok o) = if is_ok o then locked k untouched else idle
advance idle (redis_set_nx k v ttl, err e) = idle
advance (locked k untouched) (update_payment id c, ok u) = locked k (marked id c)
advance (locked k untouched) (update_payment id c, err e) = locked k untouched
advance (locked k (marked id c)) (amqp_publish ex key m, r) = locked k (published id c)
advance (locked k p) (redis_del j, r) = released k j p
advance p (find_by_transaction_id id, r) = p
advance p (has_amqp_channel, r) = p
advance p (http_request q, r) = p
advance p (metric m, r) = p
advance p (now, r) = p
advance p e = broken

-- The transaction and the status that a payload names.
abbrev pub transaction_id_of : Value → Value
transaction_id_of p =
    or_else (or_else (optional p "transaction_id") (optional p "transactionId"))
      (optional p "TransactionID")

abbrev pub status_of : Value → String
status_of p =
    normalize_status
      (or_else (or_else (optional p "status") (optional p "Status")) (optional p "ResultCode"))

-- The payload carries the HMAC, under the webhook secret of the partner's configuration, of what
-- is left of it without its signature.
pub record IsAuthentic (s : Services) (x : Executor) (payload : Value) : Type 0 where
  pub config : Value
  pub loaded : s.get_secret (get_partner x ++ "_" ++ to_lower_case (get_channel x)) ≡ ok config
  pub key : String
  pub secret : optional config "webhookSecret" ≡ str key
  pub signature :
      is_text
        (optional payload "signature")
        (s.host.hmac_sha256_hex key (s.host.json_stringify (rest_of payload "signature")))
      ≡ true

-- What a callback may write: its own transaction, its own status, and that it is processed.
pub record IsWritten (s : Services) (x : Executor) (payload id : Value) (c : PartialPayment)
    : Type 0 where
  pub transaction : id ≡ transaction_id_of payload
  pub changes :
      c ≡ record no_fields { status = some (str (status_of payload)); processed = some true }
  pub authentic : IsAuthentic s x payload

module _ (s : Services) (x : Executor) (payload : Value) where
  abbrev pub IsProper : Progress → Type 0
  IsProper untouched = Unit
  IsProper (marked id c) = IsWritten s x payload id c
  IsProper (published id c) = IsWritten s x payload id c

  abbrev pub lock_key : String
  lock_key = build_callback_lock_key s x (transaction_id_of payload)

  -- The lock was not taken and nothing was done, or it was given back after proper work.
  abbrev pub IsSettled : Phase → Type 0
  IsSettled σ = (σ ≡ idle) ⊎ ((p : Progress) × (σ ≡ released lock_key lock_key p) × IsProper p)

  abbrev pub IsHeld : Phase → Type 0
  IsHeld σ = (p : Progress) × (σ ≡ locked lock_key p) × IsProper p

  abbrev pub IsFresh : Phase → Type 0
  IsFresh σ = σ ≡ locked lock_key untouched

  abbrev pub IsMarked : Phase → Type 0
  IsMarked σ =
      (id : Value) × (c : PartialPayment) × (σ ≡ locked lock_key (marked id c))
      × IsWritten s x payload id c
