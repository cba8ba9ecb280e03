-- ===== src/Queue/Worker/Initiation.antt =====
-- The jobs that `initiate` queues, as the worker of the same queue processes them.
use aspin_partners_bridge.Common.{
  ℕ, String, Bool, true, false, Option, none, some, ◌≡◌, refl, ◌||◌, arith,
}
use aspin_partners_bridge.Value.{Value, str, undefined}
use aspin_partners_bridge.Errors.{Error, error_response_status, error_connection_code}
use aspin_partners_bridge.Effects.{
  Call, MetricUpdate, http_request, add_job, metric, err, Prog, Services, read,
}
use aspin_partners_bridge.Effects.Run.{Event, Environment, run, trace}
use aspin_partners_bridge.Effects.Logic.{Hoare, throws-run, observe}
use aspin_partners_bridge.Effects.Logic.Rules.{bind-Hoare, throw-Hoare, try_catch-Hoare}
use aspin_partners_bridge.Effects.Footprint.{
  Uses, Uses-Hoare, footprint, attempt-Uses, ret-Uses, or_throw-Uses,
}
use aspin_partners_bridge.Monitoring.Labels.{is_declared, declared}
use aspin_partners_bridge.Repositories.Payments.{get_by_reference}
use aspin_partners_bridge.Executors.Builder.{get_executor, get_executor_key, upper_case_of}
use aspin_partners_bridge.Executors.Footprint.{update_metric-Uses}
use aspin_partners_bridge.Queue.Producer.{payment_initiation_job}
use aspin_partners_bridge.Queue.Worker.{
  Job, process_payment_initiation_job, push_order, count_error, count_response_error,
  count_connection_error,
}

-- The calls by which a job gets anywhere: a request to the hub, or a further job.
abbrev pub is_progress : Call → Bool
is_progress (http_request q) = true
is_progress (add_job j) = true
is_progress _ = false

abbrev pub made_progress : Bool → Event → Bool
made_progress b (c, r) = b || is_progress c

abbrev Idle : Call → Type 0
Idle c = is_progress c ≡ false

keep-Idle :
    {A : Type 0} {m : Prog A}
    → Uses Idle m
    → Hoare made_progress (λ b. b ≡ false) m (λ _ b. b ≡ false) (λ _ b. b ≡ false)
keep-Idle = Uses-Hoare made_progress Idle (λ c h r b e. ground arith)

module _ {C : Call → Type 0}
    (metrics : (u : MetricUpdate) → is_declared u ≡ true → C (metric u)) where
  count_response_error-Uses :
      (partner channel : Value) (status : ℕ) → Uses C (count_response_error partner channel status)
  unfolding count_response_error
  count_response_error-Uses partner channel status =
      search (footprint, update_metric-Uses, metrics, declared) depth 9

  count_connection_error-Uses :
      (partner channel : Value) (code : Option String)
      → Uses C (count_connection_error partner channel code)
  unfolding count_connection_error
  count_connection_error-Uses partner channel none = ret-Uses tt
  count_connection_error-Uses partner channel (some code) =
      search (footprint, update_metric-Uses, metrics, declared) depth 9

  pub count_error-Uses :
      (partner channel : Value) (e : Error) → Uses C (count_error partner channel e)
  unfolding count_error
  count_error-Uses partner channel e =
      elim (error_response_status e)
        as (λ o. Uses C (elim o [
          | some status ↦ count_response_error partner channel status
          | none ↦ count_connection_error partner channel (error_connection_code e)
        ])) [
          | some status ↦ count_response_error-Uses partner channel status
          | none ↦ count_connection_error-Uses partner channel (error_connection_code e)
        ]

module _ (s : Services) where
  -- With no partner the registry is not even asked.
  no_partner-Hoare :
      (channel : Value)
      → Hoare made_progress
          (λ b. b ≡ false)
          (get_executor s.host undefined channel)
          (λ _ _. ⊥)
          (λ _ b. b ≡ false)
  unfolding get_executor get_executor_key upper_case_of
  no_partner-Hoare channel = throw-Hoare made_progress _ (λ σ e. e)

  push_order-Hoare :
      (reference channel : Value)
      → Hoare made_progress
          (λ b. b ≡ false)
          (push_order s reference undefined channel)
          (λ _ _. ⊥)
          (λ _ b. b ≡ false)
  unfolding push_order get_by_reference
  push_order-Hoare reference channel =
      bind-Hoare made_progress (keep-Idle (attempt-Uses _ _ refl)) (λ found.
        bind-Hoare made_progress (keep-Idle (or_throw-Uses found _)) (λ order.
          bind-Hoare made_progress (keep-Idle (update_metric-Uses _ refl)) (λ _.
            bind-Hoare made_progress (no_partner-Hoare channel)
              (λ x. record { from = λ σ p. absurd p }))))

  process-Hoare :
      (reference : String) (delay : Option ℕ) (attempts : ℕ)
      → Hoare made_progress
          (λ b. b ≡ false)
          (process_payment_initiation_job s (record {
            job_data = (payment_initiation_job reference delay).job_data;
            attempts_made = attempts;
          }))
          (λ _ _. ⊥)
          (λ _ b. b ≡ false)
  unfolding process_payment_initiation_job payment_initiation_job read
  process-Hoare reference delay attempts =
      try_catch-Hoare made_progress _ _ (push_order-Hoare (str reference) undefined) (λ e.
        bind-Hoare made_progress (keep-Idle (count_error-Uses (λ u _. refl) undefined undefined e))
          (λ _. throw-Hoare made_progress e (λ σ p. p)))

-- The job that `initiate` queues for a payment never sends it: in every environment, whatever the
-- reference, the delay and the number of attempts, the worker throws, and it has made no request
-- to the hub and queued no status check. The data of the job holds the reference alone, while the
-- worker looks up the executor by the partner in it.
pub queued_initiation_fails :
    {W : Type 0} (env : Environment W) (w : W) (s : Services) (reference : String)
    (delay : Option ℕ) (attempts : ℕ)
    → let job : Job = record {
      job_data = (payment_initiation_job reference delay).job_data;
      attempts_made = attempts;
    } in
      (e : Error) × (run env (process_payment_initiation_job s job) w ≡ err e)
      × (observe made_progress false (trace env (process_payment_initiation_job s job) w) ≡ false)
queued_initiation_fails env w s reference delay attempts =
    throws-run made_progress env _ w false (process-Hoare s reference delay attempts) refl
