-- ===== src/Repositories/Secrets/Gaps.antt =====
-- The secrets of the bound manager, as the channels read them.
use aspin_partners_bridge.Common.{String, false, ◌≡◌, arith}
use aspin_partners_bridge.Value.{Value, undefined, optional}
use aspin_partners_bridge.Domain.{PartnerConfigurationEntity}
use aspin_partners_bridge.Effects.{ret, read}
use aspin_partners_bridge.Repositories.Secrets.{mock_secret}
use aspin_partners_bridge.Channels.Mpesa
use aspin_partners_bridge.Channels.Airtel

-- No secret has a webhook secret.
pub mock_secret-webhook_secret :
    (id : String) → optional (mock_secret id) "webhookSecret" ≡ undefined
unfolding mock_secret
mock_secret-webhook_secret id = ground arith

-- No secret passes the check of either channel.
pub validate_config-mock_secret :
    (id channel : String) (partner : Value)
    → let c : PartnerConfigurationEntity = record {
      partner_id = partner;
      channel = channel;
      config = mock_secret id;
    } in
      (Mpesa.validate_config c ≡ ret false) × (Airtel.validate_config c ≡ ret false)
unfolding mock_secret Mpesa.validate_config Airtel.validate_config read
validate_config-mock_secret id channel partner = (ground arith, ground arith)
