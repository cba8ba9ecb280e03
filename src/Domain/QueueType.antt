-- ===== src/Domain/QueueType.antt =====
-- shared/constants/queue.ts: `enum QueueTYPE`, a string enum.
use aspin_partners_bridge.Common.{String}

abbrev pub payment_status_check : String
payment_status_check = "payments-status-check"

abbrev pub payment_initiation : String
payment_initiation = "payment-initiation"
