-- ===== src/Executors/Callback/Signature.antt =====
-- `is_signed`: what its answer says of the payload.
use aspin_partners_bridge.Common.{
  String, ◌++◌, to_lower_case, Bool, true, some, ◌≡◌, refl, sym, ◌∙◌, ap₂,
}
use aspin_partners_bridge.Value.{Value, str, optional, rest_of, is_text}
use aspin_partners_bridge.Domain.{PartnerConfigurationEntity}
use aspin_partners_bridge.Effects.{ok, Services, Host, to_text}
use aspin_partners_bridge.Effects.Run.{Event}
use aspin_partners_bridge.Effects.Logic.{Hoare}
use aspin_partners_bridge.Effects.Logic.Rules.{
  read-Hoare, ret-Hoare, throw-Hoare, or_throw-Hoare, weaken, bind-Hoare,
}
use aspin_partners_bridge.Repositories.PartnerConfigurations.{get_config}
use aspin_partners_bridge.Channels.{load_config}
use aspin_partners_bridge.Channels.Mpesa
use aspin_partners_bridge.Channels.Airtel
use aspin_partners_bridge.Channels.Callback.{hmac_hex, validate_callback}
use aspin_partners_bridge.Executors.Defs.{
  Executor, apa_mpesa, britam_mpesa, britam_airtel, get_partner, get_channel,
  get_channel_implementation,
}
use aspin_partners_bridge.Repositories.PartnerConfigurations.Loaded.{config-Hoare}
use aspin_partners_bridge.Executors.Callback.{is_signed}
use aspin_partners_bridge.Executors.Callback.Order.{IsAuthentic}

module _ {S : Type 0} (step : S → Event → S) {P : S → Type 0} where
  -- The secret that the key is taken from.
  get_config-Hoare :
      (s : Services) (partner channel : String)
      → Hoare step P
          (get_config s (str partner) channel)
          (λ o σ.
            ((c : PartnerConfigurationEntity)
              → o ≡ some c
              → s.get_secret (partner ++ "_" ++ to_lower_case channel) ≡ ok c.config)
            × P σ)
          (λ _. P)
  unfolding to_text
  get_config-Hoare s partner channel = config-Hoare step s (str partner) channel

  load_config-Hoare :
      (s : Services) (x : Executor)
      → Hoare step P
          (load_config s (get_channel_implementation x) (str (get_partner x)))
          (λ c σ.
            (s.get_secret (get_partner x ++ "_" ++ to_lower_case (get_channel x)) ≡ ok c.config)
            × P σ)
          (λ _. P)
  unfolding load_config Mpesa.load_config Airtel.load_config get_channel_implementation get_channel
  load_config-Hoare s apa_mpesa =
      bind-Hoare step (get_config-Hoare s _ _)
        (λ o. or_throw-Hoare step o _ (λ σ p. p.1) (λ c e σ p. (p.0 c e, p.1)))
  load_config-Hoare s britam_mpesa =
      bind-Hoare step (get_config-Hoare s _ _)
        (λ o. or_throw-Hoare step o _ (λ σ p. p.1) (λ c e σ p. (p.0 c e, p.1)))
  load_config-Hoare s britam_airtel =
      bind-Hoare step (get_config-Hoare s _ _)
        (λ o. or_throw-Hoare step o _ (λ σ p. p.1) (λ c e σ p. (p.0 c e, p.1)))

  hmac_hex-Hoare :
      (h : Host) (secret : Value) (text : String)
      → Hoare step P
          (hmac_hex h secret text)
          (λ a σ. ((key : String) × (secret ≡ str key) × (a ≡ h.hmac_sha256_hex key text)) × P σ)
          (λ _. P)
  unfolding hmac_hex
  hmac_hex-Hoare h (str key) text = ret-Hoare step _ (λ σ p. ((key, refl, refl), p))
  hmac_hex-Hoare h _ text = throw-Hoare step _ (λ σ p. p)

module _ {S : Type 0} (step : S → Event → S) {P : S → Type 0} where
  validate_callback-Hoare :
      (s : Services) (payload secret : Value)
      → Hoare step P
          (validate_callback s payload secret)
          (λ b σ.
            ((key : String) × (secret ≡ str key)
              × (b
                  ≡ is_text (optional payload "signature") (
                      s.host.hmac_sha256_hex key
                        (s.host.json_stringify (rest_of payload "signature")))))
            × P σ)
          (λ _. P)
  unfolding validate_callback
  validate_callback-Hoare s payload secret =
      bind-Hoare step (read-Hoare step payload "signature") (λ signature.
        bind-Hoare step
          (weaken step (λ σ p. p) (λ a σ q. q) (λ e σ q. q.1)
            (hmac_hex-Hoare step {P = λ σ. (signature ≡ optional payload "signature") × P σ} s.host
              secret (s.host.json_stringify (rest_of payload "signature"))))
          (λ expected. ret-Hoare step _ (λ σ q. ((q.0.0, q.0.1, ap₂ is_text q.1.0 q.0.2), q.1.1))))

module _ {S : Type 0} (step : S → Event → S) {P : S → Type 0} where
  pub is_signed-Hoare :
      (s : Services) (x : Executor) (payload : Value)
      → Hoare step P
          (is_signed s x payload)
          (λ b σ. (b ≡ true → IsAuthentic s x payload) × P σ)
          (λ _. P)
  unfolding is_signed
  is_signed-Hoare s x payload = bind-Hoare step (load_config-Hoare step s x) (λ c.
      bind-Hoare step
        (weaken step (λ σ p. p) (λ a σ q. q) (λ e σ q. q.1)
          (read-Hoare step {P = λ σ. Loaded c.config × P σ} c.config "webhookSecret"))
        (λ secret.
          weaken step (λ σ p. p)
            (λ b σ q. (λ valid. authentic c.config secret b q.1.1.0 q.1.0 q.0 valid, q.1.1.1))
            (λ e σ q. q.1.1)
            (validate_callback-Hoare step
              {P = λ σ. (secret ≡ optional c.config "webhookSecret") × (Loaded c.config × P σ)} s
              payload secret)))
    where
      Loaded : Value → Type 0
      Loaded config =
          s.get_secret (get_partner x ++ "_" ++ to_lower_case (get_channel x)) ≡ ok config

      authentic :
          (config secret : Value) (b : Bool)
          → Loaded config
          → secret ≡ optional config "webhookSecret"
          → ((key : String) × (secret ≡ str key)
              × (b
                  ≡ is_text (optional payload "signature") (
                      s.host.hmac_sha256_hex key
                        (s.host.json_stringify (rest_of payload "signature")))))
          → b ≡ true
          → IsAuthentic s x payload
      authentic config secret b loaded same (key, is_key, e) valid = record {
        config = config;
        loaded = loaded;
        key = key;
        secret = sym same ∙ is_key;
        signature = sym e ∙ valid;
      }
