-- ===== src/Executors/Defs.antt =====
-- infrastructure/executors/partners: what the three subclasses override.
use aspin_partners_bridge.Common.{String}
use aspin_partners_bridge.Domain.PaymentChannel
use aspin_partners_bridge.Channels.{Channel}

pub data Executor : Type 0 where
  apa_mpesa britam_mpesa britam_airtel : Executor

unfoldable pub get_partner : Executor → String
get_partner apa_mpesa = "APA"
get_partner britam_mpesa = "BRITAM"
get_partner britam_airtel = "BRITAM"

unfoldable pub get_channel : Executor → String
get_channel apa_mpesa = PaymentChannel.mpesa
get_channel britam_mpesa = PaymentChannel.mpesa
get_channel britam_airtel = PaymentChannel.airtel

unfoldable pub get_channel_implementation : Executor → Channel
get_channel_implementation apa_mpesa = Channel.apa_mpesa
get_channel_implementation britam_mpesa = Channel.britam_mpesa
get_channel_implementation britam_airtel = Channel.britam_airtel
