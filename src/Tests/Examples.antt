-- ===== src/Tests/Examples.antt =====
-- The theorems at the examples.
use aspin_partners_bridge.Common.{◌++◌, some, [], ◌≡◌, ◌⊎◌, false}
use aspin_partners_bridge.Value.{Value, str, whole, undefined}
use aspin_partners_bridge.Errors.{Error, raised, partner_executor_not_found}
use aspin_partners_bridge.Domain.{PaymentHubWebhookPayload, PartnerConfigurationEntity}
use aspin_partners_bridge.Domain.PaymentChannel
use aspin_partners_bridge.Effects.{ok, err, ret, throw}
use aspin_partners_bridge.Effects.Run.{run, trace}
use aspin_partners_bridge.Effects.Logic.{Post, observe}
use aspin_partners_bridge.Repositories.Secrets.{mock_secret}
use aspin_partners_bridge.Repositories.Secrets.Gaps.{validate_config-mock_secret}
use aspin_partners_bridge.Channels.Mpesa
use aspin_partners_bridge.Channels.Airtel
use aspin_partners_bridge.Executors.{Executor, britam_mpesa, get_partner, get_channel}
use aspin_partners_bridge.Executors.Builder.{executor_key, get_executor}
use aspin_partners_bridge.Executors.Builder.Lookup.{get_executor_lem}
use aspin_partners_bridge.Executors.Initiate.{initiate}
use aspin_partners_bridge.Executors.Initiate.Outcome
use aspin_partners_bridge.Executors.Initiate.Outcome.{IsInitiated, IsRefused, initiate_outcome}
use aspin_partners_bridge.Executors.Publish.{publish_payment_result}
use aspin_partners_bridge.Executors.Publish.Notices
use aspin_partners_bridge.Executors.Publish.Announced.{publish_payment_result_returns}
use aspin_partners_bridge.Executors.Publish.Notices.{IsTold}
use aspin_partners_bridge.Executors.StatusCheck.Stages
use aspin_partners_bridge.Executors.Callback.{handle_callback}
use aspin_partners_bridge.Executors.Callback.Order
use aspin_partners_bridge.Executors.Callback.Order.{IsSettled, lock_key}
use aspin_partners_bridge.Executors.Callback.Settled.{handle_callback-IsSettled}
use aspin_partners_bridge.Executors.Callback.Replay
use aspin_partners_bridge.Executors.Callback.Replayed.{processed_callback-IsReplayed}
use aspin_partners_bridge.Executors.Callback.Replay.{IsReplayed, IsStopped}
use aspin_partners_bridge.Executors.Callback.Mocked.{mocked, mocked_callback-untouched}
use aspin_partners_bridge.Queue.Producer.{payment_initiation_job}
use aspin_partners_bridge.Queue.Worker.{
  Job, process_status_check_job, process_payment_initiation_job,
}
use aspin_partners_bridge.Queue.Worker.Polling.{
  queue, IsPolled, IsFailed, status_checks_are_bounded,
}
use aspin_partners_bridge.Queue.Worker.Initiation.{made_progress, queued_initiation_fails}
use aspin_partners_bridge.Queue.Worker.HubFailure
use aspin_partners_bridge.Queue.Worker.HubFailure.{IsPushError, hub_failures_are_not_counted}
use aspin_partners_bridge.UseCases.{determine_channel_from_payload, webhook_value}
use aspin_partners_bridge.UseCases.Routing.{determine_channel-webhook_value}
use aspin_partners_bridge.Presentation.Controllers.Answers.{answered}
use aspin_partners_bridge.Presentation.Calls.{IsSound}
use aspin_partners_bridge.Presentation.Calls.Sound.{status_check_task, CallsOnly, calls_are-IsSound}
use aspin_partners_bridge.Tests.{
  host, services, payment, outside, settled_outside, refusing_outside, push_job, callback,
  initiation, status_job,
}

handle_callback-IsSettled_example : IsSettled services britam_mpesa callback (
    observe Order.advance Order.idle
      (trace outside (handle_callback services britam_mpesa callback) 0))
handle_callback-IsSettled_example =
    handle_callback-IsSettled outside 0 services britam_mpesa callback

initiate_outcome_example :
    Post
      (IsInitiated britam_mpesa initiation)
      (IsRefused britam_mpesa initiation)
      (run outside (initiate britam_mpesa initiation) 0)
      (observe Outcome.advance Outcome.start (trace outside (initiate britam_mpesa initiation) 0))
initiate_outcome_example = initiate_outcome outside 0 britam_mpesa initiation

publish_payment_result_returns_example :
    (u : Unit {0}) × (run outside (publish_payment_result services payment (str "completed")) 0
      ≡ ok u)
    × IsTold services payment (str "completed") (
        observe Notices.advance Notices.waiting
          (trace outside (publish_payment_result services payment (str "completed")) 0))
publish_payment_result_returns_example =
    publish_payment_result_returns outside 0 services payment (str "completed")

status_checks_are_bounded_example :
    Post
      (IsPolled services status_job)
      (IsFailed services status_job)
      (run outside (process_status_check_job services status_job) 0)
      (observe queue [] (trace outside (process_status_check_job services status_job) 0))
status_checks_are_bounded_example = status_checks_are_bounded outside 0 services status_job

calls_are-IsSound_example : CallsOnly IsSound services (status_check_task status_job)
calls_are-IsSound_example = calls_are-IsSound services (status_check_task status_job)

get_executor_lem_example :
    ((x : Executor) × (executor_key "britam" "MPESA" ≡ executor_key (get_partner x) (get_channel x))
      × (get_executor host (str "britam") (str "MPESA") ≡ ret x))
    ⊎ (((x : Executor)
          → ¬ (executor_key "britam" "MPESA" ≡ executor_key (get_partner x) (get_channel x)))
        × (get_executor host (str "britam") (str "MPESA")
            ≡ throw (
                raised (
                  partner_executor_not_found
                    ("No executor found for partner " ++ "britam" ++ " and channel " ++ "MPESA")))))
get_executor_lem_example = get_executor_lem host "britam" "MPESA"

queued_initiation_fails_example :
    let job : Job = record {
      job_data = (payment_initiation_job "policy-7" (some 0)).job_data;
      attempts_made = 0;
    } in
    (e : Error) × (run outside (process_payment_initiation_job services job) 0 ≡ err e)
    × (observe made_progress false (trace outside (process_payment_initiation_job services job) 0)
        ≡ false)
queued_initiation_fails_example = queued_initiation_fails outside 0 services "policy-7" (some 0) 0

mocked_callback-untouched_example :
    let s = mocked host (λ key. undefined) in
    let σ =
      observe Order.advance Order.idle
        (trace outside (handle_callback s britam_mpesa callback) 0) in
    (σ ≡ Order.idle)
    ⊎ (σ
        ≡ Order.released
            (lock_key s britam_mpesa callback)
            (lock_key s britam_mpesa callback)
            Order.untouched)
mocked_callback-untouched_example =
    mocked_callback-untouched outside 0 host (λ key. undefined) britam_mpesa callback

abbrev webhook : PaymentHubWebhookPayload
webhook = record {
  transaction_id = "tx-7";
  status = "completed";
  amount = whole 250;
  currency = "KES";
  timestamp = "2024-01-01T00:00:00.000Z";
  signature = "secret:{}";
  partner_id = str "BRITAM";
}

determine_channel-webhook_value_example :
    determine_channel_from_payload (webhook_value webhook) ≡ ret PaymentChannel.mpesa
determine_channel-webhook_value_example = determine_channel-webhook_value webhook

validate_config-mock_secret_example :
    let c : PartnerConfigurationEntity = record {
      partner_id = str "BRITAM";
      channel = "MPESA";
      config = mock_secret "BRITAM_mpesa";
    } in
    (Mpesa.validate_config c ≡ ret false) × (Airtel.validate_config c ≡ ret false)
validate_config-mock_secret_example =
    validate_config-mock_secret "BRITAM_mpesa" "MPESA" (str "BRITAM")

processed_callback-IsReplayed_example :
    Post
      (IsReplayed services britam_mpesa callback)
      (λ _. IsStopped services britam_mpesa callback)
      (run settled_outside (handle_callback services britam_mpesa callback) 0)
      (observe Replay.advance Replay.unread
        (trace settled_outside (handle_callback services britam_mpesa callback) 0))
processed_callback-IsReplayed_example =
    processed_callback-IsReplayed settled_outside 0 services britam_mpesa callback

hub_failures_are_not_counted_example :
    Post
      (λ _ σ. σ ≡ HubFailure.answered)
      IsPushError
      (run refusing_outside (process_payment_initiation_job services push_job) 0)
      (observe HubFailure.advance HubFailure.unasked
        (trace refusing_outside (process_payment_initiation_job services push_job) 0))
hub_failures_are_not_counted_example =
    hub_failures_are_not_counted refusing_outside 0 services push_job
