-- ===== src/Queue/Worker/Ends.antt =====
-- The calls of the workers and of `handleCallback`, counted together (Queue/Worker, Executors).
use aspin_partners_bridge.Common.{◌≤◌, length}
use aspin_partners_bridge.Value.{Value}
use aspin_partners_bridge.Domain.{PaymentInitiationPayload}
use aspin_partners_bridge.Effects.{Services}
use aspin_partners_bridge.Effects.Run.{Environment, trace}
use aspin_partners_bridge.Effects.Bound.{length-trace}
use aspin_partners_bridge.Executors.{Executor}
use aspin_partners_bridge.Executors.Initiate.{initiate}
use aspin_partners_bridge.Executors.StatusCheck.{status_check}
use aspin_partners_bridge.Executors.Callback.{handle_callback}
use aspin_partners_bridge.Executors.Callback.Bounds.{handle_callback-Within}
use aspin_partners_bridge.Queue.Worker.{
  Job, process_status_check_job, process_payment_initiation_job,
}
use aspin_partners_bridge.Queue.Worker.Bounds.{
  initiate-Within, status_check-Within, process_status_check_job-Within,
  process_payment_initiation_job-Within,
}

-- Every handler ends after a bounded number of calls, whatever they are answered: a callback after
-- at most fifteen, an initiation after five, a status check after eight, the job of a status check
-- after nine and the job of an initiation after five.
pub handlers_end :
    {W : Type 0} (env : Environment W) (w : W) (s : Services) (x : Executor)
    (payload transaction_id : Value) (order : PaymentInitiationPayload) (job : Job)
    → (length (trace env (handle_callback s x payload) w) ≤ 15)
      × (length (trace env (initiate x order) w) ≤ 5)
      × (length (trace env (status_check s x transaction_id) w) ≤ 8)
      × (length (trace env (process_status_check_job s job) w) ≤ 9)
      × (length (trace env (process_payment_initiation_job s job) w) ≤ 5)
handlers_end env w s x payload transaction_id order job = (
  length-trace env _ w (handle_callback-Within s x payload),
  length-trace env _ w (initiate-Within x order),
  length-trace env _ w (status_check-Within s x transaction_id),
  length-trace env _ w (process_status_check_job-Within s job),
  length-trace env _ w (process_payment_initiation_job-Within s job),
)
