-- ===== src/Executors/Callback/Shared/Steps.antt =====
-- Where a callback stands, and the calls that do not move it.
use aspin_partners_bridge.Common.{
  false-true, String, ◌++◌, true, ◌==◌, ◌≡◌, refl, ◌∙◌, sym, subst, ap, ◌⊎◌, eq_iff,
}
use aspin_partners_bridge.Value.{Value}
use aspin_partners_bridge.Effects.{
  Call, Reply, has_amqp_channel, http_request, metric, now, Services, Prog, to_text,
}
use aspin_partners_bridge.Effects.Run.{Event}
use aspin_partners_bridge.Effects.Logic.{Hoare}
use aspin_partners_bridge.Effects.Footprint.{Uses, Uses-Hoare}
use aspin_partners_bridge.Executors.Defs.{Executor}
use aspin_partners_bridge.Executors.Lock.{build_callback_lock_key}
use aspin_partners_bridge.Executors.Callback.Order.{transaction_id_of}
use aspin_partners_bridge.Executors.Callback.Shared
use aspin_partners_bridge.Executors.Callback.Shared.{
  IsAbout, Turn, outside, entered, open_row, settled, announced, spent, left, under_lock, judge,
  next, neutral,
}

-- The calls that say nothing of the lock, the row or an event.
abbrev pub IsQuiet : Call → Type 0
IsQuiet has_amqp_channel = Unit
IsQuiet (http_request _) = Unit
IsQuiet (metric _) = Unit
IsQuiet now = Unit
IsQuiet _ = ⊥

-- A callback ends before it has the lock or after it.
abbrev pub IsOver : Turn → Type 0
IsOver τ = (τ ≡ outside) ⊎ (τ ≡ left)

-- Under the lock.
abbrev pub Under : Turn → Type 0
Under τ = under_lock τ ≡ true

pub leave : (τ : Turn) → Under τ → next τ Shared.gave_back ≡ left
leave entered h = refl
leave open_row h = refl
leave settled h = refl
leave announced h = refl
leave spent h = refl
leave outside h = absurd (false-true h)
leave left h = absurd (false-true h)
leave Shared.out_of_order h = absurd (false-true h)

same_text : (t u : String) → t ≡ u → (t == u) ≡ true
same_text t u e = (eq_iff t u).1 e

module _ (s : Services) (partner transaction : String) where
  abbrev step : Turn → Event → Turn
  step = judge s.host partner transaction

  quiet-next : (c : Call) (r : Reply c) (τ : Turn) → IsQuiet c → step τ (c, r) ≡ τ
  quiet-next has_amqp_channel r τ h = refl
  quiet-next (http_request q) r τ h = refl
  quiet-next (metric m) r τ h = refl
  quiet-next now r τ h = refl
  quiet-next _ r τ h = absurd h

  pub quiet-Hoare :
      (P : Turn → Type 0) {A : Type 0} {m : Prog A}
      → Uses IsQuiet m
      → Hoare step P m (λ _. P) (λ _. P)
  quiet-Hoare P = Uses-Hoare step IsQuiet (λ c q r τ h. subst P (sym (quiet-next c r τ q)) h)

  module _ (x : Executor) (payload : Value) (about : IsAbout partner transaction s x payload) where
    -- The transaction of the payload, and its lock.
    pub is_mine_lem :
        (id : Value)
        → id ≡ transaction_id_of payload
        → Shared.is_mine s.host partner transaction id ≡ true
    is_mine_lem id same = same_text _ _ (ap (to_text s.host) same ∙ about.same_transaction)

    pub key_lem :
        (id : Value)
        → id ≡ transaction_id_of payload
        → (build_callback_lock_key s x id == Shared.key s.host partner transaction) ≡ true
    unfolding build_callback_lock_key
    key_lem id same = same_text _ _ (λ i.
        "callback:"
        ++ about.same_partner i
        ++ ":"
        ++ (ap (to_text s.host) same ∙ about.same_transaction) i)
