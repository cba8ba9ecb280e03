-- ===== src/Queue.antt =====
-- infrastructure/queue/queue.service.impl.ts: the BullMQ queues, their producers and workers.
pub mod Producer
pub mod Worker
pub mod Setup
