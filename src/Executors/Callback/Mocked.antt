-- ===== src/Executors/Callback/Mocked.antt =====
-- Callbacks under the secrets manager that the program binds.
use aspin_partners_bridge.Common.{String, ◌++◌, to_lower_case, ◌≡◌, ◌∙◌, ap, ◌⊎◌, inl, inr, arith}
use aspin_partners_bridge.Value.{Value}
use aspin_partners_bridge.Effects.{Host, Services}
use aspin_partners_bridge.Effects.Run.{Environment, trace}
use aspin_partners_bridge.Effects.Logic.{observe}
use aspin_partners_bridge.Repositories.Secrets.{get_secret}
use aspin_partners_bridge.Repositories.Secrets.Gaps.{mock_secret-webhook_secret}
use aspin_partners_bridge.Executors.Defs.{Executor, get_partner, get_channel}
use aspin_partners_bridge.Executors.Callback.{handle_callback}
use aspin_partners_bridge.Executors.Callback.Order.{
  Progress, untouched, marked, published, idle, released, advance, IsAuthentic, IsProper, lock_key,
}
use aspin_partners_bridge.Executors.Callback.Settled.{handle_callback-IsSettled}

-- The services with the bound manager.
abbrev pub mocked : Host → (String → Value) → Services
mocked h config = record { host = h; config_get = config; get_secret = get_secret }

module _ (h : Host) (config : String → Value) (x : Executor) (payload : Value) where
  not-IsAuthentic : ¬ IsAuthentic (mocked h config) x payload
  unfolding get_secret
  not-IsAuthentic a = ground (
    arith,
    a.loaded,
    a.secret,
    mock_secret-webhook_secret (get_partner x ++ "_" ++ to_lower_case (get_channel x)),
  )

  untouched_only : (p : Progress) → IsProper (mocked h config) x payload p → p ≡ untouched
  untouched_only untouched q = λ i. untouched
  untouched_only (marked id c) q = absurd (not-IsAuthentic q.authentic)
  untouched_only (published id c) q = absurd (not-IsAuthentic q.authentic)

-- Under the bound secrets manager no callback of any partner is ever stored or published,
-- whatever its payload and its signature: no secret holds a webhook secret to verify it with.
pub mocked_callback-untouched :
    {W : Type 0} (env : Environment W) (w : W) (h : Host) (config : String → Value) (x : Executor)
    (payload : Value)
    → let σ = observe advance idle (trace env (handle_callback (mocked h config) x payload) w) in
      let key = lock_key (mocked h config) x payload in
      (σ ≡ idle) ⊎ (σ ≡ released key key untouched)
mocked_callback-untouched env w h config x payload =
    elim (handle_callback-IsSettled env w (mocked h config) x payload) [
      | inl e ↦ inl e
      | inr (p, e, q) ↦ inr (
          e
          ∙ ap
              (λ z.
                released (lock_key (mocked h config) x payload)
                  (lock_key (mocked h config) x payload) z)
              (untouched_only h config x payload p q))
    ]
