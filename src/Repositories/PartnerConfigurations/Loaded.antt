-- ===== src/Repositories/PartnerConfigurations/Loaded.antt =====
-- partner.configuration.repository.ts: the configuration that is found, and its secret.
use aspin_partners_bridge.Common.{String, ◌++◌, to_lower_case, some, ◌≡◌, refl, arith}
use aspin_partners_bridge.Value.{Value, truthy}
use aspin_partners_bridge.Domain.{PartnerConfigurationEntity}
use aspin_partners_bridge.Effects.{Result, ok, err, Services, to_text}
use aspin_partners_bridge.Effects.Run.{Event}
use aspin_partners_bridge.Effects.Logic.{Hoare, Post}
use aspin_partners_bridge.Effects.Logic.Rules.{bind-Hoare, lift-Hoare, if-Hoare, ret-Hoare}
use aspin_partners_bridge.Repositories.PartnerConfigurations.{configuration, get_config}

module _ {S : Type 0} (step : S → Event → S) {P : S → Type 0} where
  pub config-Hoare :
      (s : Services) (partner : Value) (channel : String)
      → Hoare step P
          (get_config s partner channel)
          (λ o σ.
            ((c : PartnerConfigurationEntity)
              → o ≡ some c
              → s.get_secret (to_text s.host partner ++ "_" ++ to_lower_case channel) ≡ ok c.config)
            × P σ)
          (λ _. P)
  unfolding get_config configuration
  config-Hoare s partner channel =
      bind-Hoare step
        {R = λ v σ.
          (s.get_secret (to_text s.host partner ++ "_" ++ to_lower_case channel) ≡ ok v) × P σ}
        (lift-Hoare step _
          (secret (s.get_secret (to_text s.host partner ++ "_" ++ to_lower_case channel)) refl))
        (λ config.
          if-Hoare step (truthy config)
            (λ _. ret-Hoare step _ (λ σ p. (λ c e. ground (arith, p.0), p.1)))
            (λ _. ret-Hoare step _ (λ σ p. (λ c e. ground arith, p.1))))
    where
      secret :
          (r : Result Value)
          → s.get_secret (to_text s.host partner ++ "_" ++ to_lower_case channel) ≡ r
          → (σ : S) → P σ
          → Post
              (λ v σ'.
                (s.get_secret (to_text s.host partner ++ "_" ++ to_lower_case channel) ≡ ok v)
                × P σ')
              (λ _. P)
              r
              σ
      secret (ok v) e σ p = (e, p)
      secret (err e') e σ p = p
