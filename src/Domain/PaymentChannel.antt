-- ===== src/Domain/PaymentChannel.antt =====
-- shared/constants/payments.ts: `enum PaymentChannel`, a string enum.
use aspin_partners_bridge.Common.{String}

abbrev pub mpesa : String
mpesa = "MPESA"

abbrev pub airtel : String
airtel = "AIRTEL"
