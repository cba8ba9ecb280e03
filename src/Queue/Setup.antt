-- ===== src/Queue/Setup.antt =====
-- queue.service.impl.ts: `initializeQueues`, `getQueueStats` and `close`. BullMQ's Queue and
-- Worker are constructed from a name and options; a worker takes the jobs of the queue that has
-- its name.
pub mod Consumers
use aspin_partners_bridge.Common.{
  ℕ, ◌+◌, String, Option, none, some, List, [], ◌∷◌, ◌==◌, if◌then◌else◌,
}
use aspin_partners_bridge.Value.{Value, str, num, whole, or_else}
use aspin_partners_bridge.Domain.QueueType
use aspin_partners_bridge.Domain.JobType
use aspin_partners_bridge.Domain.{PaymentStatusResponse}
use aspin_partners_bridge.Effects.{Result, Prog, ret, ◌>>=◌, ◌>>◌, lift, Services}
use aspin_partners_bridge.Queue.Worker.{
  Job, process_status_check_job, process_payment_initiation_job,
}

pub record RedisConnection : Type 0 where
  pub host : Value
  pub port : Value

-- `attempts`, `backoff: { type: 'exponential', delay }`, `removeOnComplete` and `removeOnFail`
pub record JobOptions : Type 0 where
  pub attempts : ℕ
  pub backoff_type : String
  pub backoff_delay : Option ℕ
  pub remove_on_complete : ℕ
  pub remove_on_fail : ℕ

pub record JobQueue : Type 0 where
  pub name : String
  pub connection : RedisConnection
  pub default_job_options : JobOptions

-- The method that a worker runs a job with.
pub data Processor : Type 0 where
  status_check_processor payment_initiation_processor : Processor

pub record JobWorker : Type 0 where
  pub name : String
  pub processor : Processor
  pub connection : RedisConnection
  pub concurrency : ℕ

-- The four fields of the service.
pub record Queues : Type 0 where
  pub status_check_queue : JobQueue
  pub status_check_worker : JobWorker
  pub payment_initiation_queue : JobQueue
  pub payment_initiation_worker : JobWorker

-- What `close` is called on.
pub data Handle : Type 0 where
  queue_handle : JobQueue → Handle
  worker_handle : JobWorker → Handle

pub record QueueStats : Type 0 where
  pub waiting : ℕ
  pub active : ℕ
  pub completed : ℕ
  pub failed : ℕ
  pub total : ℕ

module _ (s : Services) where
  abbrev pub queue_connection : RedisConnection
  queue_connection = record {
    host = or_else (s.config_get "REDIS_HOST") (str "localhost");
    port = or_else (s.config_get "REDIS_PORT") (num (whole 6379));
  }

  unfoldable pub initialize_queues : Queues
  initialize_queues = record {
    status_check_queue = record {
      name = QueueType.payment_status_check;
      connection = queue_connection;
      default_job_options = record {
        attempts = 3;
        backoff_type = "exponential";
        backoff_delay = some 180000;
        remove_on_complete = 100;
        remove_on_fail = 500;
      };
    };
    status_check_worker = record {
      name = JobType.payment_status_check;
      processor = status_check_processor;
      connection = queue_connection;
      concurrency = 10;
    };
    payment_initiation_queue = record {
      name = QueueType.payment_initiation;
      connection = queue_connection;
      default_job_options = record {
        attempts = 3;
        backoff_type = "exponential";
        backoff_delay = none;
        remove_on_complete = 100;
        remove_on_fail = 500;
      };
    };
    payment_initiation_worker = record {
      name = JobType.payment_initiation;
      processor = payment_initiation_processor;
      connection = queue_connection;
      concurrency = 10;
    };
  }

  -- A job in the hands of a worker.
  unfoldable pub process : Processor → Job → Prog (Unit {0})
  process status_check_processor job = process_status_check_job s job >> ret tt
  process payment_initiation_processor job = process_payment_initiation_job s job

-- The workers of a service.
abbrev pub workers : Queues → List JobWorker
workers q = q.status_check_worker ∷ q.payment_initiation_worker ∷ []

-- The workers that take the jobs of a queue.
abbrev pub consumers_among : List JobWorker → String → List Processor
consumers_among [] name = []
consumers_among (w ∷ l) name =
    if w.name == name then w.processor ∷ consumers_among l name else consumers_among l name

abbrev pub consumers : Queues → String → List Processor
consumers q name = consumers_among (workers q) name

-- `getQueueStats`, from what the four counts of the status check queue resolve to.
unfoldable pub get_queue_stats : (waiting active completed failed : Result ℕ) → Prog QueueStats
get_queue_stats waiting_count active_count completed_count failed_count = do
  waiting ← lift waiting_count
  active ← lift active_count
  completed ← lift completed_count
  failed ← lift failed_count
  ret (record {
    waiting = waiting;
    active = active;
    completed = completed;
    failed = failed;
    total = waiting + active;
  })

-- `close`: what it closes, in this order.
unfoldable pub close : Queues → List Handle
close q = worker_handle q.status_check_worker ∷ queue_handle q.status_check_queue ∷ []
