-- ===== src/Tests/Queues.antt =====
-- The queues and the broker at examples.
use aspin_partners_bridge.Common.{true, some, [], ◌∷◌, ◌≡◌, refl}
use aspin_partners_bridge.Value.{str}
use aspin_partners_bridge.Queue.Producer.{
  StatusCheckJobData, status_check_data, status_check_job, payment_initiation_job,
}
use aspin_partners_bridge.Queue.Setup.{initialize_queues, consumers, payment_initiation_processor}
use aspin_partners_bridge.Queue.Setup.Consumers.{status_checks_are_not_consumed}
use aspin_partners_bridge.Rabbitmq.Connection.{
  Broker, connected, connect, close, initial, lose, set_timer, Reach, starts, later, closes,
}
use aspin_partners_bridge.Rabbitmq.Connection.Revival.{IsAlive, service_never_gives_up}
use aspin_partners_bridge.Tests.{services}

abbrev check_data : StatusCheckJobData
check_data = record {
  transaction_id = str "tx-7";
  partner_id = str "BRITAM";
  channel = str "MPESA";
}

status_checks_are_not_consumed_example :
    (consumers
        (initialize_queues services)
        (status_check_job services (status_check_data check_data) (str "tx-7") (some 10000)).queue
      ≡ [])
    × (consumers (initialize_queues services) (payment_initiation_job "policy-7" (some 0)).queue
        ≡ payment_initiation_processor ∷ [])
status_checks_are_not_consumed_example =
    status_checks_are_not_consumed services (status_check_data check_data) (str "tx-7") (some 10000)
      (some 0) "policy-7"

-- A service that connected and was closed waits to connect again.
abbrev closed : Broker
closed = close true true (connect (connected 1 1) initial)

closed-Reach : Reach closed
closed-Reach = later (starts (connected 1 1)) (closes true true)

closed_reconnects :
    closed ≡ record { connection = some 1; channel = some 1; links = []; timers = 1 }
unfolding close connect lose set_timer
closed_reconnects = refl

service_never_gives_up_example : IsAlive closed
service_never_gives_up_example = service_never_gives_up closed closed-Reach
