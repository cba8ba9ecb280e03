-- ===== src/Executors/Initiate/Durable.antt =====
-- Two initiations over one database that keeps its rows.
use aspin_partners_bridge.Common.{
  String, ◌++◌, Option, none, some, List, [], ◌∷◌, ◌≡◌, refl, sym, subst, ap, arith,
}
use aspin_partners_bridge.Value.{str}
use aspin_partners_bridge.Errors.{Error, raised, duplicate_transaction_attempt}
use aspin_partners_bridge.Domain.{
  PaymentEntity, PartialPayment, PaymentInitiationPayload, PaymentInitiationResponse,
}
use aspin_partners_bridge.Effects.{
  Result, ok, err, Call, Prog, ◌>>=◌, ◌>>◌, ret, throw, ask, save_payment, find_by_reference, lift,
  call, attempt, throw_if, now, metric,
}
use aspin_partners_bridge.Effects.Run.{Event, Environment, run, world_after, trace}
use aspin_partners_bridge.Effects.Logic.{Hoare, Hoare-run, Post, observe}
use aspin_partners_bridge.Effects.Logic.Rules.{bind-Hoare, ret-Hoare, attempt-Hoare, weaken}
use aspin_partners_bridge.Effects.Footprint.{
  Uses, Uses-Hoare, attempt-Uses, call-Uses, throw_if-Uses,
}
use aspin_partners_bridge.Monitoring.{update_metric, increment_payment_initiated}
use aspin_partners_bridge.Repositories.Payments.{create, get_by_reference}
use aspin_partners_bridge.Queue.Producer.{add_payment_initiation_job}
use aspin_partners_bridge.Executors.Defs.{Executor, get_channel}
use aspin_partners_bridge.Executors.Footprint.{update_metric-Uses}
use aspin_partners_bridge.Executors.Initiate.{initiate, pending_payment}

-- What is relied on of the database: a row that was saved is found by its reference ever after.
pub record Durable {W : Type 0} (env : Environment W) : Type 1 where
  pub HasRow : String → W → Type 0
  pub saved :
      (p : PartialPayment) (r : String) (w : W)
      → p.reference ≡ some r
      → env.answer (save_payment p) w ≡ ok tt
      → HasRow r (env.after (save_payment p) w)
  pub kept : (c : Call) (r : String) (w : W) → HasRow r w → HasRow r (env.after c w)
  pub found :
      (r : String) (w : W)
      → HasRow r w
      → (p : PaymentEntity) × (env.answer (find_by_reference (str r)) w ≡ ok (some p))

-- The rows that were saved, the last one first.
abbrev pub save_rows : List PartialPayment → Event → List PartialPayment
save_rows l (save_payment p, ok u) = p ∷ l
save_rows l (c, r) = l

abbrev NoSave : Call → Type 0
NoSave (save_payment p) = ⊥
NoSave _ = Unit

keep-save_rows :
    {A : Type 0} (l : List PartialPayment) {m : Prog A}
    → Uses NoSave m
    → Hoare save_rows (λ σ. σ ≡ l) m (λ _ σ. σ ≡ l) (λ _ _. Unit {0})
keep-save_rows l u =
    weaken save_rows (λ σ e. e) (λ a σ e. e) (λ e σ q. tt)
      (Uses-Hoare save_rows NoSave (λ c n r σ e. ground (arith, c, n, e)) u)

-- An initiation that returns has saved its row.
saves-Hoare :
    (x : Executor) (payload : PaymentInitiationPayload)
    → Hoare save_rows
        (λ σ. σ ≡ [])
        (initiate x payload)
        (λ _ σ. σ ≡ pending_payment x payload ∷ [])
        (λ _ _. Unit {0})
unfolding initiate create get_by_reference add_payment_initiation_job
saves-Hoare x payload = bind-Hoare save_rows (keep-save_rows [] (update_metric-Uses _ tt)) (λ _.
    bind-Hoare save_rows (keep-save_rows [] (attempt-Uses _ _ tt)) (λ o.
      bind-Hoare save_rows (keep-save_rows [] (throw_if-Uses o _)) (λ _.
        bind-Hoare save_rows {R = λ _ σ. σ ≡ pending_payment x payload ∷ []}
          (attempt-Hoare save_rows (save_payment (pending_payment x payload)) _
            (λ σ. elim [ ok u ↦ λ e. ap (λ l. pending_payment x payload ∷ l) e | err f ↦ λ e. tt ]))
          (λ _. bind-Hoare save_rows (keep-save_rows _ (attempt-Uses _ _ tt)) (λ _.
            bind-Hoare save_rows (keep-save_rows _ (call-Uses now tt))
              (λ time. ret-Hoare save_rows _ (λ σ e. e)))))))

module _ {W : Type 0} (env : Environment W) (db : Durable env) where
  abbrev Rows : List PartialPayment → W → Type 0
  Rows [] w = Unit
  Rows (p ∷ l) w = ((r : String) → p.reference ≡ some r → db.HasRow r w) × Rows l w

  Rows-after : (l : List PartialPayment) (c : Call) (w : W) → Rows l w → Rows l (env.after c w)
  Rows-after [] c w h = tt
  Rows-after (p ∷ l) c w h = (λ r e. db.kept c r w (h.0 r e), Rows-after l c w h.1)

  Rows-save :
      (l : List PartialPayment) (p : PartialPayment) (w : W) (a : Result (Unit {0}))
      → env.answer (save_payment p) w ≡ a
      → Rows l w
      → Rows (save_rows l (save_payment p, a)) (env.after (save_payment p) w)
  Rows-save l p w (ok tt) e h = (λ r same. db.saved p r w same e, Rows-after l (save_payment p) w h)
  Rows-save l p w (err f) e h = Rows-after l (save_payment p) w h

  Rows-step :
      (l : List PartialPayment) (c : Call) (w : W)
      → Rows l w
      → Rows (save_rows l (c, env.answer c w)) (env.after c w)
  Rows-step l (save_payment p) w h = Rows-save l p w (env.answer (save_payment p) w) refl h
  Rows-step l c w h = Rows-after l c w h

  -- What a program has saved is in the database at its end.
  Rows-run :
      {A : Type 0} (m : Prog A) (l : List PartialPayment) (w : W)
      → Rows l w
      → Rows (observe save_rows l (trace env m w)) (world_after env m w)
  unfolding trace world_after
  Rows-run (ret a) l w h = h
  Rows-run (throw e) l w h = h
  Rows-run (ask c k) l w h =
      Rows-run (k (env.answer c w)) (save_rows l (c, env.answer c w)) (env.after c w)
        (Rows-step l c w h)

  HasRow-run :
      {A : Type 0} (m : Prog A) (r : String) (w : W)
      → db.HasRow r w
      → db.HasRow r (world_after env m w)
  unfolding world_after
  HasRow-run (ret a) r w h = h
  HasRow-run (throw e) r w h = h
  HasRow-run (ask c k) r w h = HasRow-run (k (env.answer c w)) r (env.after c w) (db.kept c r w h)

  saved_row :
      (x : Executor) (payload : PaymentInitiationPayload) (r : PaymentInitiationResponse) (w : W)
      → run env (initiate x payload) w ≡ ok r
      → db.HasRow payload.reference (world_after env (initiate x payload) w)
  unfolding pending_payment
  saved_row x payload r w e =
      go (run env (initiate x payload) w) (observe save_rows [] (trace env (initiate x payload) w))
        e (Hoare-run save_rows env (initiate x payload) w [] (saves-Hoare x payload) refl)
        (Rows-run (initiate x payload) [] w tt)
    where
      go :
          (a : Result PaymentInitiationResponse) (l : List PartialPayment)
          → a ≡ ok r
          → Post (λ _ σ. σ ≡ pending_payment x payload ∷ []) (λ _ _. Unit {0}) a l
          → Rows l (world_after env (initiate x payload) w)
          → db.HasRow payload.reference (world_after env (initiate x payload) w)
      go (ok a) l same q h =
          (subst (λ z. Rows z (world_after env (initiate x payload) w)) q h).0 payload.reference
            refl
      go (err f) l same q h = ground (arith, same)

  throw_if-run :
      {A : Type 0} (a : Result (Option PaymentEntity)) (q : PaymentEntity) (e : Error) (m : Prog A)
      (w : W)
      → a ≡ ok (some q)
      → run env (lift a >>= λ o. throw_if o e >> m) w ≡ err e
  unfolding run lift throw_if
  throw_if-run (ok (some p)) q e m w h = refl
  throw_if-run (ok none) q e m w h = ground (arith, h)
  throw_if-run (err f) q e m w h = ground (arith, h)

  refused :
      (x : Executor) (payload : PaymentInitiationPayload) (w : W)
      → db.HasRow payload.reference w
      → run env (initiate x payload) w
        ≡ err (
            raised (
              duplicate_transaction_attempt
                ("Duplicate transaction attempt: " ++ payload.reference)))
  unfolding initiate get_by_reference update_metric run call attempt
  refused x payload w h =
      throw_if-run (env.answer (find_by_reference (str payload.reference)) w')
        (db.found payload.reference w' h').0 _ _ _ (db.found payload.reference w' h').1
    where
      w' : W
      w' = env.after (metric (increment_payment_initiated payload.partner_id (get_channel x))) w

      h' : db.HasRow payload.reference w'
      h' =
          db.kept (metric (increment_payment_initiated payload.partner_id (get_channel x)))
            payload.reference w h

-- Over a database that keeps its rows, a reference is accepted once: after an initiation that
-- returned, and after whatever programs ran in between, a further initiation with the same
-- reference throws DuplicateTransactionAttempt, whatever its partner, its channel and the rest of
-- its payload.
pub references_are_taken_once :
    {W : Type 0} (env : Environment W) (db : Durable env) (w : W) (x y : Executor)
    (payload repeated : PaymentInitiationPayload) (r : PaymentInitiationResponse) {B : Type 0}
    (between : Prog B)
    → run env (initiate x payload) w ≡ ok r
    → repeated.reference ≡ payload.reference
    → run env
        (initiate y repeated)
        (world_after env between (world_after env (initiate x payload) w))
      ≡ err (
          raised (
            duplicate_transaction_attempt
              ("Duplicate transaction attempt: " ++ repeated.reference)))
references_are_taken_once env db w x y payload repeated r between e same =
    refused env db y repeated _ (
      HasRow-run env db between repeated.reference _ (
        subst (λ z. db.HasRow z (world_after env (initiate x payload) w)) (sym same)
          (saved_row env db x payload r w e)))
