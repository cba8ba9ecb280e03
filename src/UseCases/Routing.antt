-- ===== src/UseCases/Routing.antt =====
-- Which executor a webhook reaches.
use aspin_partners_bridge.Common.{◌≡◌, refl}
use aspin_partners_bridge.Domain.{PaymentHubWebhookPayload}
use aspin_partners_bridge.Domain.PaymentChannel
use aspin_partners_bridge.Effects.{ret, read}
use aspin_partners_bridge.UseCases.{determine_channel_from_payload, webhook_value}

-- The channel of every webhook that the controller passes on is M-Pesa: its payload has none of
-- the fields that the choice is made by.
pub determine_channel-webhook_value :
    (p : PaymentHubWebhookPayload)
    → determine_channel_from_payload (webhook_value p) ≡ ret PaymentChannel.mpesa
unfolding determine_channel_from_payload webhook_value read
determine_channel-webhook_value p = refl
