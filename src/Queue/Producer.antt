-- ===== src/Queue/Producer.antt =====
-- queue.service.impl.ts: what adds a job to a queue.
use aspin_partners_bridge.Common.{ℕ, String, ◌++◌, Option, none, some, eqb, [], ◌∷◌, if◌then◌else◌}
use aspin_partners_bridge.Value.{Value, str, object}
use aspin_partners_bridge.Domain.QueueType
use aspin_partners_bridge.Domain.JobType
use aspin_partners_bridge.Effects.{Prog, ◌>>=◌, read, attempt, add_job, JobSpec, Services, to_text}

-- `StatusCheckJobData`
pub record StatusCheckJobData : Type 0 where
  pub transaction_id : Value
  pub partner_id : Value
  pub channel : Value

abbrev pub status_check_data : StatusCheckJobData → Value
status_check_data d = object (
    ("transactionId", d.transaction_id) ∷ ("partnerId", d.partner_id) ∷ ("channel", d.channel) ∷ [])

-- `options?.delay || 5000`
abbrev pub delay_or_default : Option ℕ → ℕ
delay_or_default none = 5000
delay_or_default (some d) = if eqb d 0 then 5000 else d

unfoldable pub status_check_job : Services → Value → Value → Option ℕ → JobSpec
status_check_job s job_data transaction_id delay = record {
  queue = QueueType.payment_status_check;
  name = JobType.payment_status_check;
  job_data = job_data;
  delay = some (delay_or_default delay);
  job_id = "status-check-" ++ to_text s.host transaction_id;
}

unfoldable pub add_status_check_job : Services → Value → Option ℕ → Prog (Unit {0})
add_status_check_job s job_data delay = do
  transaction_id ← read job_data "transactionId"
  attempt (add_job (status_check_job s job_data transaction_id delay)) (λ r. r)

-- The job's data is the reference alone.
unfoldable pub payment_initiation_job : String → Option ℕ → JobSpec
payment_initiation_job reference delay = record {
  queue = QueueType.payment_initiation;
  name = JobType.payment_initiation;
  job_data = object (("reference", str reference) ∷ []);
  delay = delay;
  job_id = "payment-check-" ++ reference;
}

unfoldable pub add_payment_initiation_job : String → Option ℕ → Prog (Unit {0})
add_payment_initiation_job reference delay =
    attempt (add_job (payment_initiation_job reference delay)) (λ r. r)
