-- ===== src/Executors/Callback/Shared/Turns.antt =====
-- base.payment.executor.ts: the turns that `handleCallback` takes, call by call.
use aspin_partners_bridge.Common.{
  String, Bool, true, false, Option, none, some, ◌==◌, ◌≡◌, refl, ◌∙◌, ap, inl, inr, if◌then◌else◌,
}
use aspin_partners_bridge.Value.{Value}
use aspin_partners_bridge.Domain.{PaymentEntity}
use aspin_partners_bridge.Effects.{ok, err, Services, Prog, try_finally}
use aspin_partners_bridge.Effects.Run.{Event}
use aspin_partners_bridge.Effects.Logic.{Hoare}
use aspin_partners_bridge.Effects.Logic.Rules.{
  ret-Hoare, attempt-Hoare, or_throw-Hoare, if-Hoare, weaken, try_catch-Hoare, try_finally-Hoare,
  bind-Hoare, given-Hoare,
}
use aspin_partners_bridge.Effects.Footprint.{bind-Uses, throw-Uses}
use aspin_partners_bridge.Repositories.Payments.{get_by_transaction_id}
use aspin_partners_bridge.Executors.Defs.{Executor}
use aspin_partners_bridge.Executors.Footprint.{update_metric-Uses}
use aspin_partners_bridge.Executors.Lock.{
  is_ok, build_callback_lock_key, acquire_callback_lock, release_callback_lock,
}
use aspin_partners_bridge.Executors.Callback.{
  handle_callback, locked_callback, process_callback, answer_without_lock, report_failure,
}
use aspin_partners_bridge.Executors.Callback.Order.{transaction_id_of}
use aspin_partners_bridge.Executors.Callback.Reads.{extract_transaction_id-Hoare}
use aspin_partners_bridge.Executors.Callback.Shared
use aspin_partners_bridge.Executors.Callback.Shared.Steps.{
  IsOver, Under, leave, quiet-Hoare, is_mine_lem, key_lem,
}
use aspin_partners_bridge.Executors.Callback.Shared.Writes.{settle-Hoare}
use aspin_partners_bridge.Executors.Callback.Shared.{
  IsAbout, Turn, outside, entered, open_row, settled, announced, spent, left, under_lock, judge,
  next, neutral,
}

module _ (s : Services) (partner transaction : String) where
  abbrev step : Turn → Event → Turn
  step = judge s.host partner transaction

  module _ (x : Executor) (payload : Value) (about : IsAbout partner transaction s x payload) where
    -- Where the row was read.
    abbrev read_turn : Option PaymentEntity → Turn
    read_turn none = entered
    read_turn (some p) = if p.processed then entered else open_row

    find-Hoare :
        (id : Value)
        → id ≡ transaction_id_of payload
        → Hoare step
            (λ τ. τ ≡ entered)
            (get_by_transaction_id id)
            (λ o τ. τ ≡ read_turn o)
            (λ _. Under)
    unfolding get_by_transaction_id
    find-Hoare id same = attempt-Hoare step _ _ (λ τ. elim [
      | ok none ↦ λ e. e
      | ok (some p) ↦ λ e.
          (λ i. next (e i) (
            if is_mine_lem s partner transaction x payload about id same i
            then (if p.processed then neutral else Shared.saw_open)
            else Shared.elsewhere))
          ∙ as_read p.processed
      | err f ↦ λ e. ap under_lock e
    ])
      where
        as_read :
            (b : Bool)
            → next entered (if b then neutral else Shared.saw_open)
              ≡ (if b then entered else open_row)
        as_read true = refl
        as_read false = refl

    process_callback-Hoare :
        (id : Value)
        → id ≡ transaction_id_of payload
        → Hoare step (λ τ. τ ≡ entered) (process_callback s x payload id) (λ _. Under) (λ _. Under)
    unfolding process_callback
    process_callback-Hoare id same = bind-Hoare step (find-Hoare id same) (λ found.
        bind-Hoare step
          (or_throw-Hoare step {Q = λ p τ. τ ≡ read_turn (some p)} found _
            (λ τ e. under_read found e) (λ p f τ e. e ∙ ap read_turn f))
          (λ p.
            bind-Hoare step
              (weaken step (λ τ e. e) (λ a τ q. q) (λ e τ q. under_read (some p) q)
                (quiet-Hoare s partner transaction (λ τ. τ ≡ read_turn (some p))
                  (update_metric-Uses _ tt)))
              (λ _.
                if-Hoare step p.processed (λ _. ret-Hoare step _ (λ τ e. under_read (some p) e))
                  (λ unprocessed.
                    weaken step (λ τ e. e ∙ ap (λ b. if b then entered else open_row) unprocessed)
                      (λ a τ q. q) (λ e τ q. q)
                      (settle-Hoare s partner transaction x payload about id p same)))))
      where
        under_read : (o : Option PaymentEntity) {τ : Turn} → τ ≡ read_turn o → Under τ
        under_read none e = ap under_lock e
        under_read (some p) e = ap under_lock e ∙ either p.processed
          where
            either : (b : Bool) → under_lock (if b then entered else open_row) ≡ true
            either true = refl
            either false = refl

    release-Hoare :
        (id : Value)
        → id ≡ transaction_id_of payload
        → Hoare step Under
            (release_callback_lock (build_callback_lock_key s x id))
            (λ _. IsOver)
            (λ _. IsOver)
    unfolding release_callback_lock
    release-Hoare id same =
        attempt-Hoare step _ _
          (λ τ. elim [ ok u ↦ λ h. inr (gave_back τ h) | err f ↦ λ h. inr (gave_back τ h) ])
      where
        gave_back :
            (τ : Turn)
            → Under τ
            → next τ (
                if build_callback_lock_key s x id == Shared.key s.host partner transaction
                then Shared.gave_back
                else Shared.elsewhere)
              ≡ left
        gave_back τ h =
            ap (λ b. next τ (if b then Shared.gave_back else Shared.elsewhere))
              (key_lem s partner transaction x payload about id same)
            ∙ leave τ h

    abbrev granted_turn : Bool → Turn
    granted_turn b = if b then entered else outside

    acquire-Hoare :
        (id : Value)
        → id ≡ transaction_id_of payload
        → Hoare step
            (λ τ. τ ≡ outside)
            (acquire_callback_lock (build_callback_lock_key s x id))
            (λ b τ. τ ≡ granted_turn b)
            (λ _ τ. τ ≡ outside)
    unfolding acquire_callback_lock
    acquire-Hoare id same =
        bind-Hoare step {R = λ o τ. τ ≡ granted_turn (is_ok o)}
          (attempt-Hoare step _ _ (λ τ. elim [
            | ok o ↦ λ e.
                (λ i. next (e i) (
                  if key_lem s partner transaction x payload about id same i
                  then (if is_ok o then Shared.granted else neutral)
                  else Shared.elsewhere))
                ∙ as_answered (is_ok o)
            | err f ↦ λ e. e
          ]))
          (λ o. ret-Hoare step (is_ok o) (λ τ e. e))
      where
        as_answered :
            (b : Bool) → next outside (if b then Shared.granted else neutral) ≡ granted_turn b
        as_answered true = refl
        as_answered false = refl

    answer_without_lock-Hoare :
        (id : Value)
        → id ≡ transaction_id_of payload
        → Hoare step
            (λ τ. τ ≡ outside)
            (answer_without_lock s x id)
            (λ _ τ. τ ≡ outside)
            (λ _ τ. τ ≡ outside)
    unfolding answer_without_lock get_by_transaction_id
    answer_without_lock-Hoare id same =
        bind-Hoare step {R = λ o τ. τ ≡ outside}
          (attempt-Hoare step _ _ (λ τ. elim [
            | ok none ↦ λ e. e
            | ok (some p) ↦ λ e.
                (λ i. next (e i) (
                  if is_mine_lem s partner transaction x payload about id same i
                  then (if p.processed then neutral else Shared.saw_open)
                  else Shared.elsewhere))
                ∙ unmoved p.processed
            | err f ↦ λ e. e
          ]))
          (λ o.
            bind-Hoare step
              (or_throw-Hoare step {Q = λ p τ. τ ≡ outside} o _ (λ τ e. e) (λ p f τ e. e))
              (λ p. ret-Hoare step _ (λ τ e. e)))
      where
        unmoved : (b : Bool) → next outside (if b then neutral else Shared.saw_open) ≡ outside
        unmoved true = refl
        unmoved false = refl

    locked_callback-Hoare :
        Hoare step (λ τ. τ ≡ outside) (locked_callback s x payload) (λ _. IsOver) (λ _. IsOver)
    unfolding locked_callback
    locked_callback-Hoare =
        bind-Hoare step (early (extract_transaction_id-Hoare step payload)) (λ id.
          given-Hoare step
            (λ same. bind-Hoare step (early (acquire-Hoare id same)) (λ b. under id same b)))
      where
        early :
            {A : Type 0} {m : Prog A} {Q : A → Turn → Type 0}
            → Hoare step (λ τ. τ ≡ outside) m Q (λ _ τ. τ ≡ outside)
            → Hoare step (λ τ. τ ≡ outside) m Q (λ _. IsOver)
        early h = weaken step (λ τ e. e) (λ a τ q. q) (λ e τ q. inl q) h

        under :
            (id : Value)
            → id ≡ transaction_id_of payload
            → (b : Bool)
            → Hoare step
                (λ τ. τ ≡ granted_turn b)
                (if b
                  then try_finally
                      (process_callback s x payload id)
                      (release_callback_lock (build_callback_lock_key s x id))
                  else answer_without_lock s x id)
                (λ _. IsOver)
                (λ _. IsOver)
        under id same true =
            try_finally-Hoare step _ _ (process_callback-Hoare id same) (λ _. release-Hoare id same)
              (λ _. release-Hoare id same)
        under id same false =
            weaken step (λ τ e. e) (λ a τ q. inl q) (λ e τ q. inl q)
              (answer_without_lock-Hoare id same)

    -- Whatever its calls are answered, a callback is never out of turn.
    pub handle_callback-Turn :
        Hoare step (λ τ. τ ≡ outside) (handle_callback s x payload) (λ _. IsOver) (λ _. IsOver)
    unfolding handle_callback report_failure
    handle_callback-Turn = try_catch-Hoare step _ _ locked_callback-Hoare (λ e.
        quiet-Hoare s partner transaction IsOver
          (bind-Uses (update_metric-Uses _ tt) (λ _. throw-Uses e)))
