-- ===== src/Lib.antt =====
-- aspin-partners-bridge: a NestJS service between Aspin, the payment hub of the partners APA and
-- Britam, and their mobile-money channels. A request for a payment is stored and queued
-- (POST initiate); a worker of the queue pushes it to the hub and polls its status; the hub calls
-- back (POST webhook); a result is written to the payment, published on RabbitMQ and told to Aspin.
--
-- The parts and where they are modelled, with the files of the repository:
--   Value, Errors, Domain: JavaScript values, the exceptions of src/shared/exceptions, the
--     entities, transfer objects and enums (src/domain/entities, src/application/dto,
--     src/shared/constants).
--   Effects: what the program asks of the outside, and programs over it. `Call` has one
--     constructor for each call on TypeORM, Redis, BullMQ, amqplib, axios, prom-client and the
--     clock; `Reply` is its answer, an error where the call can reject. `Prog` is a program that
--     returns, throws or makes a call and goes on with any answer; try_catch and try_finally are
--     those of JavaScript. Effects/Run runs a program in an environment and keeps the trace of its
--     calls. Effects/Logic is a program logic over monitors, which read the trace;
--     Effects/Footprint says which calls a program makes at all, Effects/Bound
--     how many at most, and Effects/Threads runs programs at the same time, a call at a time in
--     the order of a schedule.
--   Monitoring, Monitoring/Labels: MetricsService and the declarations of MonitoringModule
--     (src/infrastructure/monitoring).
--   Repositories: PaymentRepositoryImpl, PartnerConfigurationsRepositoryImpl and the
--     MockSecretsManagerService that is bound (src/infrastructure/repositories, services).
--   Adapters, Rabbitmq: the HTTP adapters of the hub and of Aspin, and RabbitMQService: the
--     publication of events, and its connection, channel and timers as they change with each
--     attempt to connect, each connection that closes and each close (Rabbitmq/Connection)
--     (src/infrastructure/adapters, rabbitmq).
--   Channels: BaseMpesaChannel and BaseAirtelChannel with the partners' subclasses
--     (src/infrastructure/channels).
--   Executors: BasePaymentExecutor (src/infrastructure/executors/base.payment.executor.ts), its
--     handlers initiate (Initiate), statusCheck (StatusCheck), handleCallback (Callback) with the
--     lock (Lock), what is read from a payload (Payload) and publishPaymentResult (Publish); the
--     partners' subclasses (Defs) and PaymentExecutorBuilder (Builder). Modules under these hold
--     the proofs; Callback/Shared has the callbacks of one partner and one transaction over one
--     store.
--   Queue: QueueServiceImpl, its queues and workers (Setup), its producers and its two jobs
--     (src/infrastructure/queue).
--   UseCases, Presentation: PaymentsUseCaseImpl, determineChannelFromPayload and
--     PaymentsController (src/application/usecases, src/shared/utils, src/presentation), the
--     decorators of the request bodies and ValidationFilter (Presentation/Validation).
--   Bootstrap: the origins that main.ts allows, and the address of Redis (src/main.ts,
--     src/infrastructure/database/redis.provider.ts).
--   Tests: a payment, a runtime and an outside. Tests/Store is a database of rows with the law
--     that Executors/Initiate/Durable relies on, Tests/Interleaved a store for two callbacks at
--     once, with a lock that lasts, one that expires and one for each of two partners, Tests/Validated a validator that follows
--     the documentation, Tests/Queues a service that was closed, Tests/Outside a list of origins
--     and a payment that goes to the hub.
--
-- Choices. Every external call is answered by the environment, so a theorem for every environment
-- covers each failure of a call at each place. HMAC-SHA256, JSON.stringify, the texts of numbers
-- and dates, the configuration and the secrets are parameters (Host, Services). A handler of the
-- source is one function here, its blocks named; logging is left out. Where a
-- result needs the environment to keep a law, the law is a parameter: a database that keeps what
-- it saved (Executors/Initiate/Durable) or that requires the columns of the entity
-- (Executors/Initiate/Columns), a Redis and a database that callbacks share
-- (SharedStore in Executors/Callback/Shared), where a lock stays until it is deleted, so that its
-- expiry after 30 seconds is outside that law. Which bodies class-validator accepts is a parameter
-- with the documented meaning of its decorators (Validator in Presentation/Validation), which
-- Tests/Validated fills. A schedule may name any number of callbacks in
-- any order. There is no loop and no fuel: a program is a finite tree, and Effects/Bound counts
-- the calls on its longest path.
--
-- Not modelled: the wiring of modules and what the framework does at the start of the process, the
-- connections to Postgres and Redis, the health check and the filter of Sentry, which only forward,
-- and the responses of customers, which nothing uses. toUpperCase is that of the ASCII letters, so
-- a partner whose name has other letters that JavaScript maps to these is not found here. The
-- result on interleaved requests is about callbacks of one transaction for one partner, whose
-- lock is one: a second partner's callbacks take another lock. BullMQ's own order of jobs, its
-- retries and its removal of jobs are not modelled.
pub mod Common
pub mod Value
pub mod Errors
pub mod Domain
pub mod Effects
pub mod Monitoring
pub mod Repositories
pub mod Adapters
pub mod Rabbitmq
pub mod Channels
pub mod Executors
pub mod Queue
pub mod UseCases
pub mod Presentation
pub mod Bootstrap
pub mod Tests
