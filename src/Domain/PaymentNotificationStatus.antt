-- ===== src/Domain/PaymentNotificationStatus.antt =====
-- shared/constants/payments.ts: `enum PaymentNotificationStatus`, a string enum.
use aspin_partners_bridge.Common.{String}

abbrev pub pending : String
pending = "pending"

abbrev pub success : String
success = "completed"

abbrev pub failed : String
failed = "failed"
