-- ===== src/Channels/Mpesa.antt =====
-- infrastructure/channels/base/mpesa.base.channel.ts
use aspin_partners_bridge.Common.{◌++◌, Bool, ◌&&◌, [], ◌∷◌}
use aspin_partners_bridge.Value.{Value, str, object, truthy, text_or_undefined}
use aspin_partners_bridge.Errors.{raised, partner_configuration_not_found}
use aspin_partners_bridge.Domain.{PartnerConfigurationEntity, MpesaStkPushPayload, ChannelResponse}
use aspin_partners_bridge.Domain.PaymentChannel
use aspin_partners_bridge.Effects.{or_throw, Prog, ret, ◌>>=◌, read, Services, to_text}
use aspin_partners_bridge.Repositories.PartnerConfigurations.{get_config}
use aspin_partners_bridge.Adapters.PaymentHub.{initiate_mpesa_payment, query_mpesa_status}
use aspin_partners_bridge.Channels.Callback.{channel_response}

-- `required.every((field) => configData[field])`
unfoldable pub validate_config : PartnerConfigurationEntity → Prog Bool
validate_config config = do
  consumer_key ← read config.config "consumerKey"
  consumer_secret ← read config.config "consumerSecret"
  business_short_code ← read config.config "businessShortCode"
  passkey ← read config.config "passkey"
  ret (
      truthy consumer_key && truthy consumer_secret && truthy business_short_code && truthy passkey)

-- The request to the hub.
abbrev pub push_request : Value → Value → Value → Value → Value → MpesaStkPushPayload → Value
push_request consumer_key consumer_secret business_short_code passkey callback_url p = object (
    ("partnerId", p.partner_id)
    ∷ ("channel", str PaymentChannel.mpesa)
    ∷ (
      "credentials",
      object (
          ("consumerKey", consumer_key)
          ∷ ("consumerSecret", consumer_secret)
          ∷ ("businessShortCode", business_short_code)
          ∷ ("passkey", passkey)
          ∷ []),
    )
    ∷ (
      "payment",
      object (
          ("phoneNumber", str p.phone_number)
          ∷ ("amount", p.amount)
          ∷ ("accountReference", str p.account_reference)
          ∷ ("transactionDesc", text_or_undefined p.transaction_desc)
          ∷ ("callbackUrl", callback_url)
          ∷ []),
    )
    ∷ [])

module _ (s : Services) where
  unfoldable pub load_config : Value → Prog PartnerConfigurationEntity
  load_config partner_id = do
    config ← get_config s partner_id PaymentChannel.mpesa
    or_throw config (
        raised (
          partner_configuration_not_found
            ("Mpesa configuration not found for partner: " ++ to_text s.host partner_id)))

  unfoldable pub stk_push : MpesaStkPushPayload → Prog ChannelResponse
  stk_push payload = do
    c ← load_config payload.partner_id
    consumer_key ← read c.config "consumerKey"
    consumer_secret ← read c.config "consumerSecret"
    business_short_code ← read c.config "businessShortCode"
    passkey ← read c.config "passkey"
    callback_url ← read c.config "callbackUrl"
    response ←
        initiate_mpesa_payment s (
          push_request consumer_key consumer_secret business_short_code passkey callback_url
            payload)
    ret (channel_response response)

  unfoldable pub query_transaction : Value → Prog ChannelResponse
  query_transaction transaction_id = do
    response ← query_mpesa_status s transaction_id
    ret (channel_response response)
