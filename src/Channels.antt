-- ===== src/Channels.antt =====
-- infrastructure/channels: the mobile-money channels of each partner. BaseMpesaChannel and
-- BaseAirtelChannel differ in what they push; the partner classes only name them.
pub mod Callback
pub mod Pushes
pub mod Mpesa
pub mod Airtel
use aspin_partners_bridge.Common.{String}
use aspin_partners_bridge.Value.{Value}
use aspin_partners_bridge.Errors.{type_error}
use aspin_partners_bridge.Domain.{
  ChannelResponse, PartnerConfigurationEntity, MpesaStkPushPayload, AirtelDirectDebitPayload,
}
use aspin_partners_bridge.Domain.PaymentChannel
use aspin_partners_bridge.Effects.{Prog, throw, Services}

-- A constructor for each class of channels/partners.
pub data Channel : Type 0 where
  apa_mpesa britam_mpesa britam_airtel : Channel

unfoldable pub get_channel_type : Channel → String
get_channel_type apa_mpesa = PaymentChannel.mpesa
get_channel_type britam_mpesa = PaymentChannel.mpesa
get_channel_type britam_airtel = PaymentChannel.airtel

module _ (s : Services) where
  unfoldable pub load_config : Channel → Value → Prog PartnerConfigurationEntity
  load_config apa_mpesa partner_id = Mpesa.load_config s partner_id
  load_config britam_mpesa partner_id = Mpesa.load_config s partner_id
  load_config britam_airtel partner_id = Airtel.load_config s partner_id

  unfoldable pub query_transaction : Channel → Value → Prog ChannelResponse
  query_transaction apa_mpesa id = Mpesa.query_transaction s id
  query_transaction britam_mpesa id = Mpesa.query_transaction s id
  query_transaction britam_airtel id = Airtel.query_transaction s id

  -- A call of a method that only the other kind of channel has.
  unfoldable pub stk_push : Channel → MpesaStkPushPayload → Prog ChannelResponse
  stk_push apa_mpesa payload = Mpesa.stk_push s payload
  stk_push britam_mpesa payload = Mpesa.stk_push s payload
  stk_push britam_airtel payload = throw (type_error "channelImpl.stkPush is not a function")

  unfoldable pub direct_debit : Channel → AirtelDirectDebitPayload → Prog ChannelResponse
  direct_debit apa_mpesa payload = throw (type_error "channelImpl.directDebit is not a function")
  direct_debit britam_mpesa payload = throw (type_error "channelImpl.directDebit is not a function")
  direct_debit britam_airtel payload = Airtel.direct_debit s payload
