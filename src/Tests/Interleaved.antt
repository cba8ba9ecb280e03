-- ===== src/Tests/Interleaved.antt =====
-- Two deliveries of one callback over one Redis and one database.
use aspin_partners_bridge.Common.{
  String, eqb, ℕ, ◌≤◌, Bool, true, false, ◌&&◌, none, some, List, [], ◌∷◌, ◌==◌, ◌≡◌, refl,
  to_lower_case, if◌then◌else◌,
}
use aspin_partners_bridge.Effects.{
  ok, Call, Reply, find_by_transaction_id, find_by_reference, save_payment, update_payment,
  redis_set_nx, redis_del, add_job, has_amqp_channel, amqp_publish, http_request, metric, now, call,
  attempt, or_throw, read, lift, to_text,
}
use aspin_partners_bridge.Effects.Run.{Environment}
use aspin_partners_bridge.Executors.{
  britam_mpesa, apa_mpesa, get_partner, get_channel, get_channel_implementation,
}
use aspin_partners_bridge.Effects.Threads.{move, play}
use aspin_partners_bridge.Executors.Callback.{
  answer_without_lock, handle_callback, locked_callback, process_callback, settle, is_signed,
  record_result, record_success,
}
use aspin_partners_bridge.Executors.Payload.{
  extract_transaction_id, extract_status_from_callback, normalize_status,
}
use aspin_partners_bridge.Executors.Lock.{
  is_ok, acquire_callback_lock, build_callback_lock_key, release_callback_lock,
}
use aspin_partners_bridge.Repositories.Payments.{get_by_transaction_id, update}
use aspin_partners_bridge.Monitoring.{update_metric}
use aspin_partners_bridge.Channels.{load_config}
use aspin_partners_bridge.Repositories.PartnerConfigurations.{get_config, configuration}
use aspin_partners_bridge.Channels.Callback.{validate_callback, hmac_hex}
use aspin_partners_bridge.Adapters.Aspin.{make_http_request, notify_payment_status}
use aspin_partners_bridge.Adapters.Http.{send}
use aspin_partners_bridge.Executors.Publish.{
  aspin_status, event_of, notify_aspin, publish_event, publish_payment_result,
}
use aspin_partners_bridge.Rabbitmq.{publish, publish_payment_completed}
use aspin_partners_bridge.Channels.Mpesa
use aspin_partners_bridge.Executors.Callback.Shared.{
  IsAbout, Deed, granted, neutral, elsewhere, saw_open, stored, gave_back, marks, is_mine, key,
  deed, stores, publications, Promise, SharedStore,
}
use aspin_partners_bridge.Executors.Callback.Shared.Once.{
  Delivery, callback_history, callbacks_settle_once,
}
use aspin_partners_bridge.Tests.{host, services, payment, callback, reply}
use native.Mathlib.Decide.{ℕ_discrete}

-- The lock, and whether the row is processed.
record Store : Type 0 where
  taken : Bool
  processed : Bool

abbrev answer : (c : Call) → Store → Reply c
answer (find_by_transaction_id id) w = ok (some (record payment { processed = w.processed }))
answer (redis_set_nx k v ttl) w = ok (if w.taken then none else some "OK")
answer c w = reply c 0

abbrev after : Call → Store → Store
after (redis_set_nx k v ttl) w = record w { taken = true }
after (redis_del k) w = record w { taken = false }
after (update_payment id c) w = record w { processed = true }
after c w = w

abbrev store : Environment Store
store = record { answer = answer; after = after }

abbrev Kept : Deed → Store → Store → Type 0
Kept = Promise (λ w. w.taken) (λ w. w.processed)

kept : (c : Call) (w : Store) → Kept (deed host "BRITAM" "tx-7" (c, answer c w)) w (after c w)
kept (find_by_transaction_id id) w = read_back (is_mine host "BRITAM" "tx-7" id) w.processed refl
  where
    read_back :
        (b p : Bool)
        → w.processed ≡ p
        → Kept (if b then (if p then neutral else saw_open) else elsewhere) w w
    read_back false p e = tt
    read_back true true e = (λ h. h, refl)
    read_back true false e = (λ h. h, refl, e)
kept (redis_set_nx k v ttl) w = asked (k == key host "BRITAM" "tx-7") w.taken refl
  where
    asked :
        (b t : Bool)
        → w.taken ≡ t
        → Kept
            (if b
              then (if is_ok (if t then none else some "OK") then granted else neutral)
              else elsewhere)
            w
            (record w { taken = true })
    asked false t e = tt
    asked true true e = (λ h. refl, refl)
    asked true false e = (e, refl, refl)
kept (update_payment id c) w = written (is_mine host "BRITAM" "tx-7" id && marks c.processed)
  where
    written : (b : Bool) → Kept (if b then stored else elsewhere) w (record w { processed = true })
    written true = (λ h. h, refl)
    written false = tt
kept (redis_del k) w = given (k == key host "BRITAM" "tx-7")
  where
    given : (b : Bool) → Kept (if b then gave_back else elsewhere) w (record w { taken = false })
    given true = refl
    given false = tt
kept (find_by_reference r) w = tt
kept (save_payment p) w = tt
kept (add_job j) w = tt
kept has_amqp_channel w = (λ h. h, refl)
kept (amqp_publish e k m) w = (λ h. h, refl)
kept (http_request q) w = (λ h. h, refl)
kept (metric m) w = (λ h. h, refl)
kept now w = (λ h. h, refl)

shared_store : SharedStore store host "BRITAM" "tx-7"
shared_store = record { taken = λ w. w.taken; processed = λ w. w.processed; promise = kept }

abbrev deliveries : ℕ → Delivery
deliveries j = record { executor = britam_mpesa; payload = callback }

ours : IsAbout "BRITAM" "tx-7" services britam_mpesa callback
unfolding get_partner to_text
ours = record { same_partner = refl; same_transaction = refl }

abbrev fresh : Store
fresh = record { taken = false; processed = false }

-- The second delivery asks for the lock while the first one works.
abbrev turns : List ℕ
turns = 0 ∷ 0 ∷ 1 ∷ 0 ∷ 0 ∷ 1 ∷ 0 ∷ 0 ∷ 0 ∷ []

callbacks_settle_once_example :
    (stores host "BRITAM" "tx-7" (callback_history store services deliveries fresh turns) ≤ 1)
    × (publications host "BRITAM" "tx-7" (callback_history store services deliveries fresh turns)
        ≤ stores host "BRITAM" "tx-7" (callback_history store services deliveries fresh turns))
unfolding shared_store
callbacks_settle_once_example =
    callbacks_settle_once store services "BRITAM" "tx-7" shared_store deliveries (λ j. ours) fresh
      turns

counts :
    (stores host "BRITAM" "tx-7" (callback_history store services deliveries fresh turns) ≡ 1)
    × (publications host "BRITAM" "tx-7" (callback_history store services deliveries fresh turns)
        ≡ 1)
unfolding play move ℕ_discrete answer_without_lock handle_callback Mpesa.load_config locked_callback
    extract_transaction_id read acquire_callback_lock attempt process_callback get_by_transaction_id
    or_throw update_metric settle is_signed load_config get_channel_implementation get_config
    configuration validate_callback make_http_request notify_payment_status send hmac_hex
    to_lower_case call lift to_text record_result record_success get_partner get_channel
    build_callback_lock_key release_callback_lock extract_status_from_callback normalize_status
    aspin_status event_of notify_aspin publish_event publish_payment_result publish
    publish_payment_completed update
counts = (refl, refl)

-- A lock that expires between the read and the update, as a slow callback's does after 30
-- seconds, lets a second delivery store the payment again.
abbrev expired : Call → Store → Store
expired (metric m) w = record w { taken = false }
expired c w = after c w

abbrev slow : Environment Store
slow = record { answer = answer; after = expired }

stored_twice :
    stores host "BRITAM" "tx-7"
      (callback_history slow services deliveries fresh (0 ∷ 0 ∷ 0 ∷ 1 ∷ 1 ∷ 1 ∷ 0 ∷ 1 ∷ []))
    ≡ 2
unfolding play move ℕ_discrete answer_without_lock handle_callback Mpesa.load_config locked_callback
    extract_transaction_id read acquire_callback_lock attempt process_callback get_by_transaction_id
    or_throw update_metric settle is_signed load_config get_channel_implementation get_config
    configuration validate_callback make_http_request notify_payment_status send hmac_hex
    to_lower_case call lift to_text record_result record_success get_partner get_channel
    build_callback_lock_key release_callback_lock extract_status_from_callback normalize_status
    aspin_status event_of notify_aspin publish_event publish_payment_result publish
    publish_payment_completed update
stored_twice = refl

-- The locks of two partners, whose keys stay taken until a DEL, and one row.
record Locks : Type 0 where
  first : Bool
  second : Bool
  stored_row : Bool

abbrev is_first : String → Bool
is_first k = k == "callback:BRITAM:tx-7"

abbrev lock_answer : (c : Call) → Locks → Reply c
lock_answer (find_by_transaction_id id) w = ok (some (record payment { processed = w.stored_row }))
lock_answer (redis_set_nx k v ttl) w =
    ok (if (if is_first k then w.first else w.second) then none else some "OK")
lock_answer c w = reply c 0

abbrev lock_after : Call → Locks → Locks
lock_after (redis_set_nx k v ttl) w =
    if is_first k then record w { first = true } else record w { second = true }
lock_after (redis_del k) w =
    if is_first k then record w { first = false } else record w { second = false }
lock_after (update_payment id c) w = record w { stored_row = true }
lock_after c w = w

abbrev two_locks : Environment Locks
two_locks = record { answer = lock_answer; after = lock_after }

-- One callback that arrives for two partners.
abbrev two_partners : ℕ → Delivery
two_partners j = record {
  executor = if eqb j 0 then britam_mpesa else apa_mpesa;
  payload = callback;
}

stored_for_two :
    stores host "BRITAM" "tx-7" (
      callback_history two_locks services two_partners
        (record { first = false; second = false; stored_row = false })
        (0 ∷ 0 ∷ 1 ∷ 1 ∷ 0 ∷ 1 ∷ 0 ∷ 1 ∷ []))
    ≡ 2
unfolding play move ℕ_discrete answer_without_lock handle_callback Mpesa.load_config locked_callback
    extract_transaction_id read acquire_callback_lock attempt process_callback get_by_transaction_id
    or_throw update_metric settle is_signed load_config get_channel_implementation get_config
    configuration validate_callback make_http_request notify_payment_status send hmac_hex
    to_lower_case call lift to_text record_result record_success get_partner get_channel
    build_callback_lock_key release_callback_lock extract_status_from_callback normalize_status
    aspin_status event_of notify_aspin publish_event publish_payment_result publish
    publish_payment_completed update
stored_for_two = refl
