-- ===== src/Executors/Callback/Course.antt =====
-- How far a callback comes, and what does not stop it.
use aspin_partners_bridge.Common.{
  String, false, some, ◌==◌, ◌≡◌, refl, sym, subst, ap, ◌∙◌, ◌⊎◌, inl, inr, if◌then◌else◌,
}
use aspin_partners_bridge.Value.{Value, is_text}
use aspin_partners_bridge.Errors.{Error}
use aspin_partners_bridge.Domain.{PartialPayment, PaymentEntity}
use aspin_partners_bridge.Effects.{
  ok, err, Call, MetricUpdate, Reply, find_by_transaction_id, update_payment, redis_set_nx,
  redis_del, has_amqp_channel, http_request, metric, amqp_publish, now, Services, Prog, ret, call,
}
use aspin_partners_bridge.Effects.Run.{Event}
use aspin_partners_bridge.Effects.Logic.{Hoare}
use aspin_partners_bridge.Effects.Logic.Rules.{
  ret-Hoare, if-Hoare, weaken, try_catch-Hoare, bind-Hoare, call-Hoare,
}
use aspin_partners_bridge.Effects.Footprint.{
  Uses, any-Uses, Uses-Hoare, footprint, attempt-Uses, call-Uses,
}
use aspin_partners_bridge.Monitoring.{update_metric}
use aspin_partners_bridge.Rabbitmq.{
  publish, publish_payment_completed, publish_payment_failed, publish_payment_pending,
}
use aspin_partners_bridge.Executors.Footprint.{notify_aspin-Uses}
use aspin_partners_bridge.Executors.Lock.{is_ok}
use aspin_partners_bridge.Executors.Publish.{publish_event, publish_payment_result}
use aspin_partners_bridge.Executors.Callback.{record_success}

-- How a callback goes: it has started, read an unprocessed row, stored these changes in it, or it
-- was stopped; a look-up or an update out of place leads it astray.
pub data Course : Type 0 where
  started : Course
  found : PaymentEntity → Course
  stored : PaymentEntity → Value → PartialPayment → Course
  stopped astray : Course

-- What a reply does to it. A callback is stopped where Redis fails or keeps the lock, where
-- Postgres fails, and where the row is missing or processed.
pub data Sign : Type 0 where
  neutral stops : Sign
  finds : PaymentEntity → Sign
  stores : Value → PartialPayment → Sign

abbrev pub sign : Event → Sign
sign (redis_set_nx k v ttl, ok o) = if is_ok o then neutral else stops
sign (redis_set_nx k v ttl, err e) = stops
sign (find_by_transaction_id id, ok (some p)) = if p.processed then stops else finds p
sign (find_by_transaction_id id, _) = stops
sign (update_payment id c, ok u) = stores id c
sign (update_payment id c, err e) = stops
sign (redis_del k, ok u) = neutral
sign (redis_del k, err e) = stops
sign _ = neutral

abbrev pub go_on : Course → Sign → Course
go_on σ neutral = σ
go_on astray _ = astray
go_on stopped _ = stopped
go_on _ stops = stopped
go_on started (finds p) = found p
go_on (found p) (stores id c) = stored p id c
go_on _ _ = astray

abbrev pub course : Course → Event → Course
course σ e = go_on σ (sign e)

-- The calls that stop nothing, whatever they are answered: the clock, the metrics, RabbitMQ and
-- the request to Aspin.
abbrev IsHarmless : Call → Type 0
IsHarmless has_amqp_channel = Unit
IsHarmless (amqp_publish _ _ _) = Unit
IsHarmless (http_request _) = Unit
IsHarmless (metric _) = Unit
IsHarmless now = Unit
IsHarmless _ = ⊥

harmless-course : (c : Call) (r : Reply c) (σ : Course) → IsHarmless c → course σ (c, r) ≡ σ
harmless-course has_amqp_channel r σ h = refl
harmless-course (amqp_publish _ _ _) r σ h = refl
harmless-course (http_request q) r σ h = refl
harmless-course (metric m) r σ h = refl
harmless-course now r σ h = refl
harmless-course _ r σ h = absurd h

-- What stays true through harmless calls.
module _ (s : Services) (P : Course → Type 0) where
  keep : {A : Type 0} {m : Prog A} → Uses IsHarmless m → Hoare course P m (λ _. P) (λ _. P)
  keep = Uses-Hoare course IsHarmless (λ c q r σ h. subst P (sym (harmless-course c r σ q)) h)

  pub call-keep : (c : Call) → IsHarmless c → Hoare course P (call c) (λ _. P) (λ _ _. ⊥)
  call-keep c h = call-Hoare course c (λ σ r p. subst P (sym (harmless-course c r σ h)) p)

  pub metric-keep : (u : MetricUpdate) → Hoare course P (update_metric u) (λ _. P) (λ _ _. ⊥)
  unfolding update_metric
  metric-keep u = call-keep (metric u) tt

  publish-keep :
      (exchange k : String) (v : Value)
      → Hoare course P (publish s exchange k v) (λ _. P) (λ _ _. ⊥)
  unfolding publish
  publish-keep exchange k v =
      try_catch-Hoare course _ _ (keep (search (footprint, attempt-Uses, call-Uses) depth 9))
        (λ e. ret-Hoare course false (λ σ h. h))

  pub publish_payment_result-keep :
      (p : PaymentEntity) (status : Value)
      → Hoare course P (publish_payment_result s p status) (λ _. P) (λ _ _. ⊥)
  unfolding publish_payment_result publish_event publish_payment_completed publish_payment_failed
      publish_payment_pending
  publish_payment_result-keep p status = bind-Hoare course (call-keep now tt) (λ time.
      bind-Hoare course
        (if-Hoare course (is_text status "completed") (λ _. publish-keep _ _ _)
          (λ _.
            if-Hoare course (is_text status "failed") (λ _. publish-keep _ _ _)
              (λ _. publish-keep _ _ _)))
        (λ _.
          try_catch-Hoare course _ _ (keep (notify_aspin-Uses s (λ q _. tt) p status _))
            (λ e. ret-Hoare course tt (λ σ h. h))))

  pub record_success-keep :
      (p : PaymentEntity) (status : String)
      → Hoare course P (record_success p status) (λ _. P) (λ _ _. ⊥)
  unfolding record_success
  record_success-keep p status =
      if-Hoare course (status == "completed")
        (λ _.
          bind-Hoare course (metric-keep _)
            (λ _. bind-Hoare course (call-keep now tt) (λ time. metric-keep _)))
        (λ _. ret-Hoare course tt (λ σ h. h))

-- A program that is known to return.
pub returning-Hoare :
    {A : Type 0} {P : Course → Type 0} {Q : A → Course → Type 0} {E : Error → Course → Type 0}
    {m : Prog A} (a : A)
    → m ≡ ret a
    → ((σ : Course) → P σ → Q a σ)
    → Hoare course P m Q E
returning-Hoare {P} {Q} {E} a e h = subst (λ m. Hoare course P m Q E) (sym e) (ret-Hoare course a h)

pub either-Hoare :
    {A : Type 0} {P R : Course → Type 0} {Q : A → Course → Type 0} {E : Error → Course → Type 0}
    {m : Prog A}
    → Hoare course P m Q E
    → Hoare course R m Q E
    → Hoare course (λ σ. P σ ⊎ R σ) m Q E
either-Hoare h k = record { from = λ σ. elim [ inl p ↦ h.from σ p | inr r ↦ k.from σ r ] }

stopped_stays : (g : Sign) → go_on stopped g ≡ stopped
stopped_stays neutral = refl
stopped_stays _ = refl

-- What was stopped stays so.
pub stay :
    {A : Type 0} (m : Prog A)
    → Hoare course (λ σ. σ ≡ stopped) m (λ _ σ. σ ≡ stopped) (λ _ σ. σ ≡ stopped)
stay m =
    Uses-Hoare course (λ c. Unit {0}) (λ c u r σ e. ap (λ z. course z (c, r)) e ∙ stopped_stays _)
      (any-Uses m)

-- A callback that was stopped does what is left of it.
pub halt :
    {A : Type 0} {D : A → Course → Type 0} (m : Prog A)
    → Hoare course (λ σ. σ ≡ stopped) m (λ a σ. (σ ≡ stopped) ⊎ D a σ) (λ _ σ. σ ≡ stopped)
halt m = weaken course (λ σ e. e) (λ a σ e. inl e) (λ f σ e. e) (stay m)
