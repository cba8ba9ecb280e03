-- ===== src/Executors/Callback/Replayed.antt =====
-- A callback for a payment that is processed already.
use aspin_partners_bridge.Common.{
  String, true, false, ◌≡◌, refl, ◌∙◌, ap, inl, inr, Bool-cases, if◌then◌else◌,
}
use aspin_partners_bridge.Value.{Value}
use aspin_partners_bridge.Domain.{PaymentEntity}
use aspin_partners_bridge.Effects.{Prog, MetricUpdate, Services}
use aspin_partners_bridge.Effects.Run.{Environment, run, trace}
use aspin_partners_bridge.Effects.Logic.{Hoare, Hoare-run, Post, observe}
use aspin_partners_bridge.Effects.Logic.Rules.{
  ret-Hoare, throw-Hoare, if-Hoare, weaken, try_catch-Hoare, bind-Hoare, given-Hoare,
  try_finally-Hoare,
}
use aspin_partners_bridge.Effects.Footprint.{
  Uses, Uses-Hoare, any-Uses, attempt-Uses, bind-Uses, ret-Uses,
}
use aspin_partners_bridge.Monitoring.{update_metric}
use aspin_partners_bridge.Executors.Defs.{Executor}
use aspin_partners_bridge.Executors.Footprint.{update_metric-Uses}
use aspin_partners_bridge.Executors.Lock.{
  build_callback_lock_key, acquire_callback_lock, release_callback_lock,
}
use aspin_partners_bridge.Executors.Callback.{
  handle_callback, locked_callback, process_callback, answer_without_lock, report_failure,
  stored_response, settle,
}
use aspin_partners_bridge.Executors.Callback.Order.{transaction_id_of}
use aspin_partners_bridge.Executors.Callback.Reads.{extract_transaction_id-Hoare}
use aspin_partners_bridge.Executors.Callback.Replay.{
  Replay, unread, answered, unprocessed, advance, IsEarly, IsLate, late-known, early-unread,
  IsReplayed, stored_answer, IsStopped, keep-IsReplayed, IsRead, keep-IsRead, Known, find-Hoare,
  Known-Hoare,
}

module _ (s : Services) (x : Executor) (payload : Value) where
  -- The two cases of a payment that was found.
  processed :
      (p : PaymentEntity) (σ : Replay)
      → p.processed ≡ true
      → (Known s x payload) p σ
      → σ ≡ answered p
  processed p σ t e = e ∙ ap (λ b. if b then answered p else unprocessed) t

  open_payment :
      (p : PaymentEntity) (σ : Replay)
      → p.processed ≡ false
      → (Known s x payload) p σ
      → σ ≡ unprocessed
  open_payment p σ f e = e ∙ ap (λ b. if b then answered p else unprocessed) f

  Known-IsRead : (p : PaymentEntity) (σ : Replay) → (Known s x payload) p σ → (IsRead s x payload) σ
  Known-IsRead p σ e = elim (Bool-cases p.processed) [
    | inl t ↦ inr (inr (p, t, processed p σ t e))
    | inr f ↦ inr (inl (open_payment p σ f e))
  ]

  stored-answer :
      (id : Value) (p : PaymentEntity)
      → id ≡ transaction_id_of payload
      → stored_response id p ≡ stored_answer s x payload p
  unfolding stored_response
  stored-answer id p same =
      ap (λ i. record (stored_answer s x payload p) { transaction_id = i }) same

  metric-Hoare :
      {A : Type 0} (p : PaymentEntity) {m : Prog A}
      → Uses IsLate m
      → Hoare advance
          ((Known s x payload) p)
          m
          (λ _. (Known s x payload) p)
          (λ _. (IsRead s x payload))
  metric-Hoare p u =
      weaken advance (λ σ q. q) (λ a σ q. q) (λ e σ q. Known-IsRead p σ q)
        (Uses-Hoare advance IsLate
          (λ c n a σ e. ap (λ z. advance z (c, a)) e ∙ late-known p p.processed c a n) u)

  process_callback-Hoare :
      (id : Value)
      → id ≡ transaction_id_of payload
      → Hoare advance
          (λ σ. σ ≡ unread)
          (process_callback s x payload id)
          (IsReplayed s x payload)
          (λ _. (IsRead s x payload))
  unfolding process_callback
  process_callback-Hoare id same = bind-Hoare advance ((find-Hoare s x payload) id) (λ o.
      bind-Hoare advance ((Known-Hoare s x payload) o _) (λ p.
        bind-Hoare advance (metric-Hoare p (update_metric-Uses _ tt)) (λ _.
          if-Hoare advance p.processed
            (λ t.
              ret-Hoare advance _ (λ σ e. inr (p, t, processed p σ t e, stored-answer id p same)))
            (λ f.
              weaken advance (λ σ e. open_payment p σ f e) (λ a σ e. inl e) (λ e σ q. inr (inl q))
                (Uses-Hoare advance (λ c. Unit {0}) (λ c u r σ e. ap (λ z. advance z (c, r)) e)
                  (any-Uses (settle s x payload id p)))))))

  answer_without_lock-Hoare :
      (id : Value)
      → id ≡ transaction_id_of payload
      → Hoare advance
          (λ σ. σ ≡ unread)
          (answer_without_lock s x id)
          (IsReplayed s x payload)
          (λ _. (IsStopped s x payload))
  unfolding answer_without_lock
  answer_without_lock-Hoare id same =
      weaken advance (λ σ e. e) (λ a σ q. q) (λ e σ q. inr q)
        (bind-Hoare advance ((find-Hoare s x payload) id) (λ o.
          bind-Hoare advance ((Known-Hoare s x payload) o _) (λ p. ret-Hoare advance _ (λ σ e.
            elim (Bool-cases p.processed) [
              | inl t ↦ inr (p, t, processed p σ t e, stored-answer id p same)
              | inr f ↦ inl (open_payment p σ f e)
            ]))))

  -- Before the payment is asked for.
  early-Hoare :
      {A : Type 0} {m : Prog A}
      → Uses IsEarly m
      → Hoare advance (λ σ. σ ≡ unread) m (λ _ σ. σ ≡ unread) (λ _. (IsStopped s x payload))
  early-Hoare u =
      weaken advance (λ σ e. e) (λ a σ e. e) (λ e σ q. inl q)
        (Uses-Hoare advance IsEarly (λ c n r σ e. ap (λ z. advance z (c, r)) e ∙ early-unread c r n)
          u)

  acquire-Uses : (key : String) → Uses IsEarly (acquire_callback_lock key)
  unfolding acquire_callback_lock
  acquire-Uses key = bind-Uses (attempt-Uses _ _ tt) (λ r. ret-Uses _)

  release-Uses : (key : String) → Uses IsLate (release_callback_lock key)
  unfolding release_callback_lock
  release-Uses key = attempt-Uses _ _ tt

  locked_callback-Hoare :
      Hoare advance
        (λ σ. σ ≡ unread)
        (locked_callback s x payload)
        (IsReplayed s x payload)
        (λ _. (IsStopped s x payload))
  unfolding locked_callback
  locked_callback-Hoare =
      bind-Hoare advance
        (weaken advance (λ σ e. e) (λ a σ q. q) (λ e σ q. inl q)
          (extract_transaction_id-Hoare advance payload))
        (λ id. given-Hoare advance (λ same.
          bind-Hoare advance (early-Hoare (acquire-Uses (build_callback_lock_key s x id))) (λ b.
            if-Hoare advance b
              (λ _.
                try_finally-Hoare advance _ _ (process_callback-Hoare id same)
                  (λ r. (keep-IsReplayed s x payload) r (release-Uses _))
                  (λ e.
                    weaken advance (λ σ q. q) (λ u σ q. inr q) (λ f σ q. inr q)
                      ((keep-IsRead s x payload) (release-Uses _))))
              (λ _. answer_without_lock-Hoare id same))))

  metric-IsStopped :
      (u : MetricUpdate)
      → Hoare advance
          (IsStopped s x payload)
          (update_metric u)
          (λ _. (IsStopped s x payload))
          (λ _. (IsStopped s x payload))
  metric-IsStopped u = record {
    from = λ σ. elim [
      | inl q ↦
          (weaken advance (λ σ e. e) (λ a σ e. inl e) (λ e σ q. q)
              (early-Hoare (update_metric-Uses u tt))).from
            σ q
      | inr q ↦
          (weaken advance (λ σ e. e) (λ a σ e. inr e) (λ e σ q. inr q)
              ((keep-IsRead s x payload) (update_metric-Uses u tt))).from
            σ q
    ];
  }

  handle_callback-Hoare :
      Hoare advance
        (λ σ. σ ≡ unread)
        (handle_callback s x payload)
        (IsReplayed s x payload)
        (λ _. (IsStopped s x payload))
  unfolding handle_callback report_failure
  handle_callback-Hoare =
      try_catch-Hoare advance _ _ locked_callback-Hoare
        (λ e. bind-Hoare advance (metric-IsStopped _) (λ _. throw-Hoare advance e (λ σ q. q)))

-- A callback for a payment that the handler reads as processed changes nothing, in every
-- environment, whether it took the lock or not: after the payment is read, only the lock is given
-- back and metrics are counted, so nothing is written, published or told to Aspin. If the handler
-- returns, it returns the status, the amount, the currency and the time of the last update that
-- the row holds, as valid, under the transaction that the payload names.
pub processed_callback-IsReplayed :
    {W : Type 0} (env : Environment W) (w : W) (s : Services) (x : Executor) (payload : Value)
    → Post
        (IsReplayed s x payload)
        (λ _. IsStopped s x payload)
        (run env (handle_callback s x payload) w)
        (observe advance unread (trace env (handle_callback s x payload) w))
processed_callback-IsReplayed env w s x payload =
    Hoare-run advance env (handle_callback s x payload) w unread (handle_callback-Hoare s x payload)
      refl
