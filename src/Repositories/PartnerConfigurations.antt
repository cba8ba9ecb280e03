-- ===== src/Repositories/PartnerConfigurations.antt =====
-- infrastructure/repositories/partner.configurations.repository.ts, over the secrets manager.
pub mod Loaded
use aspin_partners_bridge.Common.{String, ◌++◌, Option, none, some, if◌then◌else◌, to_lower_case}
use aspin_partners_bridge.Value.{Value, str, truthy}
use aspin_partners_bridge.Domain.{PartnerConfigurationEntity}
use aspin_partners_bridge.Effects.{Prog, ret, ◌>>=◌, lift, Services, to_text}

module _ (s : Services) where
  -- The entity for a secret, or null where there is none.
  unfoldable pub configuration : Value → String → String → Prog (Option PartnerConfigurationEntity)
  configuration partner_id channel secret_id = do
    config ← lift (s.get_secret secret_id)
    if truthy config
        then ret (some (record { partner_id = partner_id; channel = channel; config = config }))
        else ret none

  unfoldable pub get_config : Value → String → Prog (Option PartnerConfigurationEntity)
  get_config partner_id channel =
      configuration partner_id channel (to_text s.host partner_id ++ "_" ++ to_lower_case channel)

  unfoldable pub get_default_config : String → Prog (Option PartnerConfigurationEntity)
  get_default_config channel =
      configuration (str "default") channel ("default_" ++ to_lower_case channel)
