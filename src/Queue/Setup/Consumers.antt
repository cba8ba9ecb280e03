-- ===== src/Queue/Setup/Consumers.antt =====
-- queue.service.impl.ts: which worker takes the jobs that the producers queue.
use aspin_partners_bridge.Common.{ℕ, String, Option, [], ◌∷◌, ◌≡◌, refl}
use aspin_partners_bridge.Value.{Value}
use aspin_partners_bridge.Effects.{Services}
use aspin_partners_bridge.Queue.Producer.{status_check_job, payment_initiation_job}
use aspin_partners_bridge.Queue.Setup.{initialize_queues, consumers, payment_initiation_processor}

-- Where a worker takes the jobs of the queue with its own name, no worker takes a status check,
-- whatever its data and its delay, and the jobs of initiations are taken by the worker that
-- processes them and by no other.
pub status_checks_are_not_consumed :
    (s : Services) (job_data transaction_id : Value) (delay later : Option ℕ) (reference : String)
    → (consumers (initialize_queues s) (status_check_job s job_data transaction_id delay).queue
        ≡ [])
      × (consumers (initialize_queues s) (payment_initiation_job reference later).queue
          ≡ payment_initiation_processor ∷ [])
unfolding initialize_queues status_check_job payment_initiation_job
status_checks_are_not_consumed s job_data transaction_id delay later reference = (refl, refl)
