-- ===== src/Domain/JobType.antt =====
-- shared/constants/queue.ts: `enum JobTYPE`, a string enum.
use aspin_partners_bridge.Common.{String}

abbrev pub payment_notification : String
payment_notification = "payment-notifications"

abbrev pub payment_status_check : String
payment_status_check = "payment-status-check"

abbrev pub payment_initiation : String
payment_initiation = "payment-initiation"
