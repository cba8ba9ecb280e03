-- ===== src/Executors/Callback/Phases.antt =====
-- The phases of a callback, and what changes none of them.
use aspin_partners_bridge.Common.{ℕ, String, Option, ◌≡◌, refl, ◌∙◌, ap, inl, inr, if◌then◌else◌}
use aspin_partners_bridge.Value.{Value}
use aspin_partners_bridge.Effects.{
  ok, Call, find_by_transaction_id, redis_set_nx, redis_del, has_amqp_channel, http_request, metric,
  now, Reply, Services, Prog,
}
use aspin_partners_bridge.Effects.Logic.{Hoare}
use aspin_partners_bridge.Effects.Footprint.{Uses, Uses-Hoare}
use aspin_partners_bridge.Executors.Defs.{Executor}
use aspin_partners_bridge.Executors.Lock.{is_ok}
use aspin_partners_bridge.Executors.Callback.Order.{
  Progress, untouched, marked, published, Phase, idle, locked, released, advance, lock_key,
  IsSettled, IsHeld,
}

-- The calls that change no phase.
abbrev pub IsNeutral : Call → Type 0
IsNeutral (find_by_transaction_id _) = Unit
IsNeutral has_amqp_channel = Unit
IsNeutral (http_request _) = Unit
IsNeutral (metric _) = Unit
IsNeutral now = Unit
IsNeutral _ = ⊥

advance-locked :
    (k : String) (p : Progress) (c : Call) (r : Reply c)
    → IsNeutral c
    → advance (locked k p) (c, r) ≡ locked k p
advance-locked k untouched (find_by_transaction_id id) r n = refl
advance-locked k untouched has_amqp_channel r n = refl
advance-locked k untouched (http_request q) r n = refl
advance-locked k untouched (metric m) r n = refl
advance-locked k untouched now r n = refl
advance-locked k untouched _ r n = absurd n
advance-locked k (marked id d) (find_by_transaction_id _) r n = refl
advance-locked k (marked id d) has_amqp_channel r n = refl
advance-locked k (marked id d) (http_request q) r n = refl
advance-locked k (marked id d) (metric m) r n = refl
advance-locked k (marked id d) now r n = refl
advance-locked k (marked id d) _ r n = absurd n
advance-locked k (published id d) (find_by_transaction_id _) r n = refl
advance-locked k (published id d) has_amqp_channel r n = refl
advance-locked k (published id d) (http_request q) r n = refl
advance-locked k (published id d) (metric m) r n = refl
advance-locked k (published id d) now r n = refl
advance-locked k (published id d) _ r n = absurd n

advance-idle : (c : Call) (r : Reply c) → IsNeutral c → advance idle (c, r) ≡ idle
advance-idle (find_by_transaction_id id) r n = refl
advance-idle has_amqp_channel r n = refl
advance-idle (http_request q) r n = refl
advance-idle (metric m) r n = refl
advance-idle now r n = refl
advance-idle _ r n = absurd n

advance-released :
    (k j : String) (p : Progress) (c : Call) (r : Reply c)
    → IsNeutral c
    → advance (released k j p) (c, r) ≡ released k j p
advance-released k j p (find_by_transaction_id id) r n = refl
advance-released k j p has_amqp_channel r n = refl
advance-released k j p (http_request q) r n = refl
advance-released k j p (metric m) r n = refl
advance-released k j p now r n = refl
advance-released k j p _ r n = absurd n

pub advance-redis_del :
    (k j : String) (p : Progress) (r : Reply (redis_del j))
    → advance (locked k p) (redis_del j, r) ≡ released k j p
advance-redis_del k j untouched r = refl
advance-redis_del k j _ r = refl

pub advance-redis_set_nx :
    (k v : String) (ttl : ℕ) (o : Option String)
    → advance idle (redis_set_nx k v ttl, ok o) ≡ (if is_ok o then locked k untouched else idle)
advance-redis_set_nx k v ttl o = refl

module _ (s : Services) (x : Executor) (payload : Value) where
  abbrev pub Held : Phase → Type 0
  Held = IsHeld s x payload

  abbrev pub Settled : Phase → Type 0
  Settled = IsSettled s x payload

  pub keep-Held :
      {A : Type 0} {m : Prog A} → Uses IsNeutral m → Hoare advance Held m (λ _. Held) (λ _. Held)
  keep-Held =
      Uses-Hoare advance IsNeutral
        (λ c n r σ h. (h.0, ap (λ z. advance z (c, r)) h.1 ∙ advance-locked _ h.0 c r n, h.2))

  pub keep_phase :
      {A : Type 0} {m : Prog A} (p : Progress)
      → Uses IsNeutral m
      → Hoare advance
          (λ σ. σ ≡ locked (lock_key s x payload) p)
          m
          (λ _ σ. σ ≡ locked (lock_key s x payload) p)
          (λ _ σ. σ ≡ locked (lock_key s x payload) p)
  keep_phase p =
      Uses-Hoare advance IsNeutral
        (λ c n r σ e. ap (λ z. advance z (c, r)) e ∙ advance-locked _ p c r n)

  pub keep_idle :
      {A : Type 0} {m : Prog A}
      → Uses IsNeutral m
      → Hoare advance (λ σ. σ ≡ idle) m (λ _ σ. σ ≡ idle) (λ _ σ. σ ≡ idle)
  keep_idle =
      Uses-Hoare advance IsNeutral (λ c n r σ e. ap (λ z. advance z (c, r)) e ∙ advance-idle c r n)

  pub keep-Settled :
      {A : Type 0} {m : Prog A}
      → Uses IsNeutral m
      → Hoare advance Settled m (λ _. Settled) (λ _. Settled)
  keep-Settled = Uses-Hoare advance IsNeutral (λ c n r σ h. elim h [
    | inl e ↦ inl (ap (λ z. advance z (c, r)) e ∙ advance-idle c r n)
    | inr (p, e, q) ↦ inr (p, ap (λ z. advance z (c, r)) e ∙ advance-released _ _ p c r n, q)
  ])
