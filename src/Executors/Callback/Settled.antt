-- ===== src/Executors/Callback/Settled.antt =====
-- `handleCallback`: the lock, and the order of its calls as a whole.
use aspin_partners_bridge.Common.{Bool, true, false, ◌≡◌, refl, ◌∙◌, ap, inl, inr, if◌then◌else◌}
use aspin_partners_bridge.Value.{Value}
use aspin_partners_bridge.Domain.{PaymentCallbackResponse}
use aspin_partners_bridge.Effects.{
  Result, ok, err, redis_set_nx, redis_del, Services, Prog, try_finally,
}
use aspin_partners_bridge.Effects.Run.{Environment, run, trace}
use aspin_partners_bridge.Effects.Logic.{Hoare, Hoare-run, Post, observe}
use aspin_partners_bridge.Effects.Logic.Rules.{
  ret-Hoare, attempt-Hoare, weaken, try_catch-Hoare, bind-Hoare, given-Hoare, try_finally-Hoare,
}
use aspin_partners_bridge.Effects.Footprint.{
  Uses, attempt-Uses, bind-Uses, ret-Uses, throw-Uses, or_throw-Uses,
}
use aspin_partners_bridge.Repositories.Payments.{get_by_transaction_id}
use aspin_partners_bridge.Executors.Defs.{Executor}
use aspin_partners_bridge.Executors.Footprint.{update_metric-Uses}
use aspin_partners_bridge.Executors.Lock.{
  ttl_seconds, is_ok, build_callback_lock_key, acquire_callback_lock, release_callback_lock,
}
use aspin_partners_bridge.Executors.Callback.{
  handle_callback, locked_callback, process_callback, answer_without_lock, report_failure,
}
use aspin_partners_bridge.Executors.Callback.Order.{
  untouched, Phase, idle, locked, released, advance, transaction_id_of, lock_key, IsSettled,
  IsFresh,
}
use aspin_partners_bridge.Executors.Callback.Reads.{extract_transaction_id-Hoare}
use aspin_partners_bridge.Executors.Callback.Phases.{
  IsNeutral, Held, Settled, keep_idle, keep-Settled, advance-redis_del,
}
use aspin_partners_bridge.Executors.Callback.Work.{process_callback-Hoare}

module _ (s : Services) (x : Executor) (payload : Value) where
  -- Giving the lock back settles what was done under it.
  release-Hoare :
      (id : Value)
      → id ≡ transaction_id_of payload
      → Hoare advance
          (Held s x payload)
          (release_callback_lock (build_callback_lock_key s x id))
          (λ _. Settled s x payload)
          (λ _. Settled s x payload)
  unfolding release_callback_lock
  release-Hoare id same = attempt-Hoare advance (redis_del _) _ (λ σ. elim [
    | ok u ↦ λ h. inr (h.0, given_back σ (ok u) h, h.2)
    | err f ↦ λ h. inr (h.0, given_back σ (err f) h, h.2)
  ])
    where
      given_back :
          (σ : Phase) (r : Result (Unit {0}))
          → (h : Held s x payload σ)
          → advance σ (redis_del (build_callback_lock_key s x id), r)
            ≡ released (lock_key s x payload) (lock_key s x payload) h.0
      given_back σ r h =
          ap (λ z. advance z (redis_del (build_callback_lock_key s x id), r)) h.1
          ∙ advance-redis_del _ _ h.0 r
          ∙ ap (λ t. released (lock_key s x payload) (build_callback_lock_key s x t) h.0) same

  -- What the phase is once the lock has been asked for.
  abbrev Asked : Bool → Phase → Type 0
  Asked true σ = IsFresh s x payload σ
  Asked false σ = σ ≡ idle

  asked :
      (b : Bool) {id : Value} {σ : Phase}
      → id ≡ transaction_id_of payload
      → σ ≡ (if b then locked (build_callback_lock_key s x id) untouched else idle)
      → Asked b σ
  asked true same e = e ∙ ap (λ t. locked (build_callback_lock_key s x t) untouched) same
  asked false same e = e

  acquire-Hoare :
      (id : Value)
      → id ≡ transaction_id_of payload
      → Hoare advance
          (λ σ. σ ≡ idle)
          (acquire_callback_lock (build_callback_lock_key s x id))
          Asked
          (λ _ σ. σ ≡ idle)
  unfolding acquire_callback_lock
  acquire-Hoare id same =
      bind-Hoare advance {R = λ o. Asked (is_ok o)}
        (attempt-Hoare advance (redis_set_nx (build_callback_lock_key s x id) "1" ttl_seconds) _
          (λ σ. elim [
            | ok o ↦ λ e. asked (is_ok o) same (
                ap
                  (λ z.
                    advance z (redis_set_nx (build_callback_lock_key s x id) "1" ttl_seconds, ok o))
                  e)
            | err f ↦ λ e.
                ap
                  (λ z.
                    advance z
                      (redis_set_nx (build_callback_lock_key s x id) "1" ttl_seconds, err f))
                  e
          ]))
        (λ o. ret-Hoare advance (is_ok o) (λ σ e. e))

  answer_without_lock-Uses : (id : Value) → Uses IsNeutral (answer_without_lock s x id)
  unfolding answer_without_lock get_by_transaction_id
  answer_without_lock-Uses id =
      bind-Uses (attempt-Uses _ _ tt) (λ o. bind-Uses (or_throw-Uses o _) (λ p. ret-Uses _))

  locked_callback-Hoare :
      Hoare advance
        (λ σ. σ ≡ idle)
        (locked_callback s x payload)
        (λ _. Settled s x payload)
        (λ _. Settled s x payload)
  unfolding locked_callback
  locked_callback-Hoare =
      bind-Hoare advance (unlocked (extract_transaction_id-Hoare advance payload)) (λ id.
        given-Hoare advance
          (λ same. bind-Hoare advance (unlocked (acquire-Hoare id same)) (λ b. under id same b)))
    where
      unlocked :
          {A : Type 0} {m : Prog A} {Q : A → Phase → Type 0}
          → Hoare advance (λ σ. σ ≡ idle) m Q (λ _ σ. σ ≡ idle)
          → Hoare advance (λ σ. σ ≡ idle) m Q (λ _. Settled s x payload)
      unlocked h = weaken advance (λ σ e. e) (λ a σ q. q) (λ e σ q. inl q) h

      under :
          (id : Value)
          → id ≡ transaction_id_of payload
          → (b : Bool)
          → Hoare advance
              (Asked b)
              (if b
                then try_finally
                    (process_callback s x payload id)
                    (release_callback_lock (build_callback_lock_key s x id))
                else answer_without_lock s x id)
              (λ _. Settled s x payload)
              (λ _. Settled s x payload)
      under id same true =
          try_finally-Hoare advance _ _ (process_callback-Hoare s x payload id same)
            (λ _. release-Hoare id same) (λ _. release-Hoare id same)
      under id same false =
          weaken advance (λ σ e. e) (λ a σ q. inl q) (λ e σ q. inl q)
            (keep_idle s x payload (answer_without_lock-Uses id))

  -- Every path of the handler ends settled, from before the lock is asked for.
  pub handle_callback-Hoare :
      Hoare advance
        (λ σ. σ ≡ idle)
        (handle_callback s x payload)
        (λ _. Settled s x payload)
        (λ _. Settled s x payload)
  unfolding handle_callback report_failure
  handle_callback-Hoare =
      try_catch-Hoare advance _ _ locked_callback-Hoare
        (λ e. keep-Settled s x payload (bind-Uses (update_metric-Uses _ tt) (λ _. throw-Uses e)))

-- A callback does its work in order. Whatever the environment answers, failures included: either
-- the lock was not taken and nothing was written or published, or it was taken on this
-- transaction's key and asked back on the same key, and in between at most one update of the
-- payment succeeded and at most one event was published, after that update; the update is of the
-- transaction that the payload names, to the status that the payload stands for, with `processed`
-- set, and only where the payload's signature is authentic.
pub handle_callback-IsSettled :
    {W : Type 0} (env : Environment W) (w : W) (s : Services) (x : Executor) (payload : Value)
    → IsSettled s x payload (observe advance idle (trace env (handle_callback s x payload) w))
handle_callback-IsSettled env w s x payload = either (run env (handle_callback s x payload) w) _ (
    Hoare-run advance env (handle_callback s x payload) w idle (handle_callback-Hoare s x payload)
      refl)
  where
    either :
        (r : Result PaymentCallbackResponse) (σ : Phase)
        → Post (λ _. IsSettled s x payload) (λ _. IsSettled s x payload) r σ
        → IsSettled s x payload σ
    either (ok a) σ h = h
    either (err e) σ h = h
