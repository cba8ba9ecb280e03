-- ===== src/Channels/Airtel.antt =====
-- infrastructure/channels/base/airtel.base.channel.ts
use aspin_partners_bridge.Common.{◌++◌, Bool, ◌&&◌, [], ◌∷◌}
use aspin_partners_bridge.Value.{Value, str, object, truthy}
use aspin_partners_bridge.Errors.{raised, partner_configuration_not_found}
use aspin_partners_bridge.Domain.{
  PartnerConfigurationEntity, AirtelDirectDebitPayload, ChannelResponse,
}
use aspin_partners_bridge.Domain.PaymentChannel
use aspin_partners_bridge.Effects.{or_throw, Prog, ret, ◌>>=◌, read, Services, to_text}
use aspin_partners_bridge.Repositories.PartnerConfigurations.{get_config}
use aspin_partners_bridge.Adapters.PaymentHub.{initiate_airtel_payment, query_airtel_status}
use aspin_partners_bridge.Channels.Callback.{channel_response}

-- `required.every((field) => configData[field])`
unfoldable pub validate_config : PartnerConfigurationEntity → Prog Bool
validate_config config = do
  client_id ← read config.config "clientId"
  client_secret ← read config.config "clientSecret"
  merchant_id ← read config.config "merchantId"
  ret (truthy client_id && truthy client_secret && truthy merchant_id)

-- The request to the hub.
abbrev pub debit_request : Value → Value → Value → Value → AirtelDirectDebitPayload → Value
debit_request client_id client_secret merchant_id callback_url p = object (
    ("partnerId", p.partner_id)
    ∷ ("channel", str PaymentChannel.airtel)
    ∷ (
      "credentials",
      object (
          ("clientId", client_id)
          ∷ ("clientSecret", client_secret)
          ∷ ("merchantId", merchant_id)
          ∷ []),
    )
    ∷ (
      "payment",
      object (
          ("phoneNumber", str p.phone_number)
          ∷ ("amount", p.amount)
          ∷ ("reference", str p.reference)
          ∷ ("country", str "KE")
          ∷ ("currency", str "KES")
          ∷ ("callbackUrl", callback_url)
          ∷ []),
    )
    ∷ [])

module _ (s : Services) where
  unfoldable pub load_config : Value → Prog PartnerConfigurationEntity
  load_config partner_id = do
    config ← get_config s partner_id PaymentChannel.airtel
    or_throw config (
        raised (
          partner_configuration_not_found
            ("Airtel configuration not found for partner: " ++ to_text s.host partner_id)))

  unfoldable pub direct_debit : AirtelDirectDebitPayload → Prog ChannelResponse
  direct_debit payload = do
    c ← load_config payload.partner_id
    client_id ← read c.config "clientId"
    client_secret ← read c.config "clientSecret"
    merchant_id ← read c.config "merchantId"
    callback_url ← read c.config "callbackUrl"
    response ←
        initiate_airtel_payment s
          (debit_request client_id client_secret merchant_id callback_url payload)
    ret (channel_response response)

  unfoldable pub query_transaction : Value → Prog ChannelResponse
  query_transaction transaction_id = do
    response ← query_airtel_status s transaction_id
    ret (channel_response response)
