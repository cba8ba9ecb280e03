-- ===== src/Executors/Callback/Reads.antt =====
-- What the payload says of its status and of its transaction.
use aspin_partners_bridge.Common.{◌≡◌}
use aspin_partners_bridge.Value.{Value, or_else}
use aspin_partners_bridge.Effects.Run.{Event}
use aspin_partners_bridge.Effects.Logic.{Hoare}
use aspin_partners_bridge.Effects.Logic.Rules.{ret-Hoare, bind-Hoare, given-Hoare, read-Hoare}
use aspin_partners_bridge.Executors.Payload.{
  normalize_status, extract_status_from_callback, extract_transaction_id,
}
use aspin_partners_bridge.Executors.Callback.Order.{transaction_id_of, status_of}

module _ {S : Type 0} (advance : S → Event → S) (payload : Value) {P : S → Type 0} where
  pub extract_status-Hoare :
      Hoare advance P
        (extract_status_from_callback payload)
        (λ a σ. (a ≡ status_of payload) × P σ)
        (λ _. P)
  unfolding extract_status_from_callback
  extract_status-Hoare = bind-Hoare advance (read-Hoare advance payload "status") (λ lower.
      given-Hoare advance (λ p. bind-Hoare advance (read-Hoare advance payload "Status") (λ upper.
        given-Hoare advance (λ q.
          bind-Hoare advance (read-Hoare advance payload "ResultCode") (λ code.
            given-Hoare advance (λ r.
              ret-Hoare advance _
                (λ σ h. (λ i. normalize_status (or_else (or_else (p i) (q i)) (r i)), h))))))))

  pub extract_transaction_id-Hoare :
      Hoare advance P
        (extract_transaction_id payload)
        (λ a σ. (a ≡ transaction_id_of payload) × P σ)
        (λ _. P)
  unfolding extract_transaction_id
  extract_transaction_id-Hoare =
      bind-Hoare advance (read-Hoare advance payload "transaction_id") (λ snake.
        given-Hoare advance (λ p.
          bind-Hoare advance (read-Hoare advance payload "transactionId") (λ camel.
            given-Hoare advance (λ q.
              bind-Hoare advance (read-Hoare advance payload "TransactionID") (λ pascal.
                given-Hoare advance (λ r.
                  ret-Hoare advance _ (λ σ h. (λ i. or_else (or_else (p i) (q i)) (r i), h))))))))
