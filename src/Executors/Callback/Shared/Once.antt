-- ===== src/Executors/Callback/Shared/Once.antt =====
-- base.payment.executor.ts: callbacks of one partner and one transaction that run at the same
-- time.
use aspin_partners_bridge.Common.{
  false-true, ℕ, ◌+◌, ◌≤◌, String, Bool, true, false, List, ◌≡◌, ◌≢◌, refl, subst, ap, ◌∙◌, inl,
  inr, arith, if◌then◌else◌,
}
use aspin_partners_bridge.Value.{Value}
use aspin_partners_bridge.Domain.{PaymentCallbackResponse}
use aspin_partners_bridge.Effects.{Reply, Result, ok, err, Services, Prog, ret, throw, ask}
use aspin_partners_bridge.Effects.Run.{Environment, Event}
use aspin_partners_bridge.Effects.Logic.{Wp, Wp-mono, Post}
use aspin_partners_bridge.Effects.Threads.{
  System, put, put-both, move, play, play-keeps, started, some_reply,
}
use aspin_partners_bridge.Executors.Defs.{Executor}
use aspin_partners_bridge.Executors.Callback.{handle_callback}
use aspin_partners_bridge.Executors.Callback.Shared.{
  IsAbout, Turn, outside, out_of_order, deed, judge, next, Deed, stores, publications, Promise,
  SharedStore,
}
use aspin_partners_bridge.Executors.Callback.Shared.Steps.{IsOver}
use aspin_partners_bridge.Executors.Callback.Shared.Turns.{handle_callback-Turn}
use aspin_partners_bridge.Executors.Callback.Shared.Coupled.{
  Facts, Fits, budget, facts, facts_after, owner_after, own-Fits, other-Fits, announced-tally,
  stored-tally,
}

is_end : Turn → Bool
is_end outside = true
is_end Turn.left = true
is_end _ = false

not_end : IsOver out_of_order → ⊥
unfolding is_end
not_end (inl e) = false-true (ap is_end e)
not_end (inr e) = false-true (ap is_end e)

stays_out : (d : Deed) → next out_of_order d ≡ out_of_order
stays_out Deed.neutral = refl
stays_out _ = refl

budget-le : (b : Bool) → budget b ≤ 1
budget-le true = omega arith
budget-le false = omega arith

-- One callback of the partner: its executor and its payload.
pub record Delivery : Type 0 where
  pub executor : Executor
  pub payload : Value

module _ {W : Type 0} (env : Environment W) (s : Services) (partner transaction : String)
    (shared : SharedStore env s.host partner transaction) where
  open shared use {taken, processed, promise}

  abbrev step : Turn → Event → Turn
  step = judge s.host partner transaction

  abbrev Over : Result PaymentCallbackResponse → Turn → Type 0
  Over r = IsOver

  -- A thread that was out of order would end so.
  in_order : (m : Prog PaymentCallbackResponse) (τ : Turn) → Wp step m Over τ → τ ≢ out_of_order
  in_order (ret a) τ q e = not_end (subst IsOver e q)
  in_order (throw f) τ q e = not_end (subst IsOver e q)
  in_order (ask c k) τ q e =
      in_order (k (some_reply c)) (step τ (c, some_reply c)) (q (some_reply c)) (
        ap (λ z. step z (c, some_reply c)) e
        ∙ stays_out (deed s.host partner transaction (c, some_reply c)))

  abbrev published_rows : List Event → ℕ
  published_rows = publications s.host partner transaction

  abbrev rows : List Event → ℕ
  rows = stores s.host partner transaction

  record Coupled (w₀ : W) (t : System W PaymentCallbackResponse) : Type 0 where
    turns : ℕ → Turn
    owner : ℕ
    safe : (j : ℕ) → Wp step (t.rest j) Over (turns j)
    fits :
        (j : ℕ)
        → Fits
            (facts taken processed t.world t.world
              (published_rows t.history)
              (rows t.history)
              owner)
            j
            (turns j)
    after_storing : published_rows t.history ≤ rows t.history
    once : rows t.history + budget (processed t.world) ≤ budget (processed w₀)

  -- A move of one thread.
  moved :
      (w₀ : W) (i : ℕ) (p : Prog PaymentCallbackResponse) (t : System W PaymentCallbackResponse)
      → t.rest i ≡ p
      → Coupled w₀ t
      → Coupled w₀ (move env i p t)
  unfolding move
  moved w₀ i (ret a) t same h = h
  moved w₀ i (throw e) t same h = h
  moved w₀ i (ask c k) t same h = record {
    turns = put h.turns i (next (h.turns i) (done));
    owner = owner_after (taken) processed t.world later 0 0 done i h.owner;
    safe = put-both (λ j m τ. Wp step m Over τ) t.rest h.turns i (own r) (λ j _. h.safe j);
    fits =
        put-both (λ j m. Fits after j) t.rest h.turns i {a = k r}
          (own-Fits taken processed t.world later events stored i h.owner (budget (processed w₀))
            (h.turns i) done promised (h.fits i) ordered h.after_storing h.once
            (budget-le (processed w₀)))
          (λ j apart.
            other-Fits taken processed t.world later events stored i j h.owner (h.turns i)
              (h.turns j) done apart promised (h.fits i) ordered (h.fits j));
    after_storing =
        announced-tally taken processed t.world later events stored i h.owner (h.turns i) done
          (h.fits i) ordered h.after_storing;
    once =
        stored-tally taken processed t.world later events stored i h.owner (budget (processed w₀))
          (h.turns i) done promised (h.fits i) ordered h.once;
  }
    where
      r : Reply c
      r = env.answer c t.world

      done : Deed
      done = deed s.host partner transaction (c, r)

      later : W
      later = env.after c t.world

      promised : Promise taken processed done t.world later
      promised = promise c t.world

      events : ℕ
      events = published_rows t.history

      stored : ℕ
      stored = rows t.history

      after : Facts
      after = facts_after taken processed t.world later events stored done i h.owner

      own : (r : Reply c) → Wp step (k r) Over (step (h.turns i) (c, r))
      own = subst (λ m. Wp step m Over (h.turns i)) same (h.safe i)

      ordered : next (h.turns i) done ≢ out_of_order
      ordered = in_order (k r) _ (own r)

  -- Before any call.
  initial :
      (w : W) (d : ℕ → Delivery)
      → ((j : ℕ) → IsAbout partner transaction s (d j).executor (d j).payload)
      → Coupled w (started env w (λ j. handle_callback s (d j).executor (d j).payload))
  initial w d about = record {
    turns = λ _. outside;
    owner = 0;
    safe = λ j. Wp-mono step (handle_callback s (d j).executor (d j).payload) outside ends (
        (handle_callback-Turn s partner transaction (d j).executor (d j).payload (about j)).from
          outside refl);
    fits = λ j. tt;
    after_storing = omega arith;
    once = omega arith;
  }
    where
      ends :
          (r : Result PaymentCallbackResponse) (τ : Turn)
          → Post (λ _. IsOver) (λ _. IsOver) r τ
          → IsOver τ
      ends (ok a) τ q = q
      ends (err e) τ q = q

-- The calls so far of callbacks whose calls a schedule interleaves, with their replies.
abbrev pub callback_history :
    {W : Type 0} → Environment W → Services → (ℕ → Delivery) → W → List ℕ → List Event
callback_history env s deliveries w schedule =
    (play env schedule (
      started env w
        (λ j. handle_callback s (deliveries j).executor (deliveries j).payload))).history

-- Callbacks of one transaction that arrive for one partner, and so ask for one lock, settle it
-- once, however many arrive and in whatever order their calls interleave. Of callbacks for
-- different partners nothing is said. Where a key that SET NX has taken stays taken until a DEL, a row read is the
-- row as it stands and a successful update is stored, at every moment of every schedule at most
-- one update of the payment has succeeded, none if it was processed at the start, and no more
-- events have been published than updates have succeeded.
pub callbacks_settle_once :
    {W : Type 0} (env : Environment W) (s : Services) (partner transaction : String)
    (shared : SharedStore env s.host partner transaction) (deliveries : ℕ → Delivery)
    → ((j : ℕ) → IsAbout partner transaction s (deliveries j).executor (deliveries j).payload)
    → (w : W) (schedule : List ℕ)
    → (stores s.host partner transaction (callback_history env s deliveries w schedule)
        ≤ (if shared.processed w then 0 else 1))
      × (publications s.host partner transaction (callback_history env s deliveries w schedule)
          ≤ stores s.host partner transaction (callback_history env s deliveries w schedule))
callbacks_settle_once env s partner transaction shared deliveries about w schedule =
    (omega (arith, at_end.once), at_end.after_storing)
  where
    at_end : Coupled env s partner transaction shared w (
        play env schedule
          (started env w (λ j. handle_callback s (deliveries j).executor (deliveries j).payload)))
    at_end =
        play-keeps env (Coupled env s partner transaction shared w)
          (λ i t h. moved env s partner transaction shared w i (t.rest i) t refl h) schedule _
          (initial env s partner transaction shared w deliveries about)
