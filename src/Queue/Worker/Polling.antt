-- ===== src/Queue/Worker/Polling.antt =====
-- How often a payment's status is asked for: `processStatusCheckJob`.
use aspin_partners_bridge.Common.{
  ℕ, ◌≤◌, ◌++◌, true, ◌&&◌, ◌+◌, ◌*◌, ltb, List, [], ◌∷◌, some, ◌≡◌, refl, sym, ap, ap₂, ◌∙◌, ◌⊎◌,
  inl, inr, arith, if◌then◌else◌,
}
use aspin_partners_bridge.Value.{Value, is_text, optional}
use aspin_partners_bridge.Errors.{Error}
use aspin_partners_bridge.Domain.{PaymentStatusResponse}
use aspin_partners_bridge.Effects.{ok, err, Call, JobSpec, add_job, Services, to_text, Prog, ret}
use aspin_partners_bridge.Effects.Run.{Event, Environment, run, trace}
use aspin_partners_bridge.Effects.Logic.{Hoare, Hoare-run, Post, observe}
use aspin_partners_bridge.Effects.Logic.Rules.{
  bind-Hoare, ret-Hoare, attempt-Hoare, if-Hoare, weaken, read-Hoare, given-Hoare,
}
use aspin_partners_bridge.Effects.Footprint.{Uses, Uses-Hoare, read-Uses}
use aspin_partners_bridge.Executors.Builder.Footprint.{get_executor-Uses}
use aspin_partners_bridge.Executors.StatusCheck.Calls.{Checks, status_check-Uses}
use aspin_partners_bridge.Queue.Producer.{delay_or_default, status_check_job, add_status_check_job}
use aspin_partners_bridge.Queue.Worker.{Job, process_status_check_job}

-- The jobs that were queued, the last one first.
abbrev pub queue : List JobSpec → Event → List JobSpec
queue q (add_job j, r) = j ∷ q
queue q (c, r) = q

abbrev NoJob : Call → Type 0
NoJob (add_job j) = ⊥
NoJob _ = Unit

keep_queue :
    {A : Type 0} {m : Prog A} (q : List JobSpec)
    → Uses NoJob m
    → Hoare queue (λ σ. σ ≡ q) m (λ _ σ. σ ≡ q) (λ _ σ. σ ≡ q)
keep_queue q = Uses-Hoare queue NoJob (λ c h r σ e. ground (arith, c, h, e))

checks : Checks NoJob
checks = record {
  find = λ id. tt;
  store = λ id status. tt;
  publishes = record { clock = tt; ready = tt; event = λ key content. tt; http = λ q e. tt };
}

-- A delay that is not zero is not replaced by the default.
kept : (d : ℕ) → 1 ≤ d → delay_or_default (some d) ≡ d
kept d h = ground (arith, h)

module _ (s : Services) where
  -- The job that follows a pending answer: five seconds later for each attempt.
  abbrev check_of : Job → Value → JobSpec
  check_of job id = record {
    queue = "payments-status-check";
    name = "payment-status-check";
    job_data = job.job_data;
    delay = some (5000 * (job.attempts_made + 1));
    job_id = "status-check-" ++ to_text s.host id;
  }

  abbrev pub next_check : Job → JobSpec
  next_check job = check_of job (optional job.job_data "transactionId")

  job-check_of :
      (job : Job) (id : Value)
      → status_check_job s job.job_data id (some (5000 * (job.attempts_made + 1))) ≡ check_of job id
  unfolding status_check_job
  job-check_of job id =
      ap (λ d. record (check_of job id) { delay = some d })
        (kept (5000 * (job.attempts_made + 1)) (omega arith))

  abbrev pub IsPolled : Job → PaymentStatusResponse → List JobSpec → Type 0
  IsPolled job r q =
      q
      ≡ (if is_text r.status "pending" && ltb job.attempts_made 5 then next_check job ∷ [] else [])

  abbrev pub IsFailed : Job → Error → List JobSpec → Type 0
  IsFailed job e q = (q ≡ []) ⊎ ((q ≡ next_check job ∷ []) × (ltb job.attempts_made 5 ≡ true))

  queued_one :
      (job : Job) (id : Value) (q : List JobSpec)
      → id ≡ optional job.job_data "transactionId"
      → q ≡ []
      → status_check_job s job.job_data id (some (5000 * (job.attempts_made + 1))) ∷ q
        ≡ next_check job ∷ []
  queued_one job id q same e =
      ap (λ z. z ∷ q) (job-check_of job id) ∙ ap₂ (λ z r. check_of job z ∷ r) same e

  -- The further job, where there is one.
  reschedule-Hoare :
      (job : Job) (r : PaymentStatusResponse)
      → Hoare queue
          (λ q. q ≡ [])
          (if is_text r.status "pending" && ltb job.attempts_made 5
            then add_status_check_job s job.job_data (some (5000 * (job.attempts_made + 1)))
            else ret tt)
          (λ _. IsPolled job r)
          (IsFailed job)
  unfolding add_status_check_job
  reschedule-Hoare job r =
      if-Hoare queue (is_text r.status "pending" && ltb job.attempts_made 5)
        (λ yes.
          bind-Hoare queue
            (weaken queue (λ σ p. p) (λ a σ q. q) (λ e σ q. inl q)
              (read-Hoare queue job.job_data "transactionId"))
            (λ id. given-Hoare queue (λ same.
              attempt-Hoare queue
                (add_job
                  (status_check_job s job.job_data id (some (5000 * (job.attempts_made + 1)))))
                _
                (λ σ. elim [
                  | ok u ↦ λ e.
                      queued_one job id σ same e
                      ∙ sym (ap (λ b. if b then next_check job ∷ [] else []) yes)
                  | err f ↦ λ e. inr (queued_one job id σ same e, ground (arith, yes))
                ]))))
        (λ no.
          ret-Hoare queue tt (λ σ e. e ∙ sym (ap (λ b. if b then next_check job ∷ [] else []) no)))

  quiet :
      {A : Type 0} (job : Job) {m : Prog A}
      → Uses NoJob m
      → Hoare queue (λ q. q ≡ []) m (λ _ q. q ≡ []) (IsFailed job)
  quiet job u = weaken queue (λ σ p. p) (λ a σ q. q) (λ e σ q. inl q) (keep_queue [] u)

  process-Hoare :
      (job : Job)
      → Hoare queue (λ q. q ≡ []) (process_status_check_job s job) (IsPolled job) (IsFailed job)
  unfolding process_status_check_job
  process-Hoare job = bind-Hoare queue (quiet job (read-Uses job.job_data "transactionId")) (λ id.
      bind-Hoare queue (quiet job (read-Uses job.job_data "partnerId")) (λ partner.
        bind-Hoare queue (quiet job (read-Uses job.job_data "channel")) (λ channel.
          bind-Hoare queue (quiet job (get_executor-Uses s.host partner channel)) (λ x.
            bind-Hoare queue (quiet job (status_check-Uses s checks x id)) (λ r.
              bind-Hoare queue (reschedule-Hoare job r) (λ _. ret-Hoare queue r (λ σ q. q)))))))

-- In every environment a job that checks a status queues at most one further job. When it returns
-- a status, it has queued the next check exactly if that status is "pending" and the job has made
-- fewer than five attempts: with the same data, for the transaction of the data, delayed by 5000 ms
-- times one more than the attempts made. When it throws, it has queued nothing, or it asked the
-- queue for that same next check, with fewer than five attempts made.
pub status_checks_are_bounded :
    {W : Type 0} (env : Environment W) (w : W) (s : Services) (job : Job)
    → Post
        (IsPolled s job)
        (IsFailed s job)
        (run env (process_status_check_job s job) w)
        (observe queue [] (trace env (process_status_check_job s job) w))
status_checks_are_bounded env w s job =
    Hoare-run queue env (process_status_check_job s job) w [] (process-Hoare s job) refl
