-- ===== src/Effects/Logic.antt =====
-- A program logic. A monitor reads the calls of a program with their replies and keeps a state;
-- `Hoare P m Q E` says that from a state with `P`, whatever the calls of `m` are answered, the
-- state at its end has `Q a` if it returns `a`, and `E e` if it throws `e`.
pub mod Rules
use aspin_partners_bridge.Common.{List, [], ◌∷◌, ◌≡◌, refl}
use aspin_partners_bridge.Errors.{Error}
use aspin_partners_bridge.Effects.Defs.{
  Result, ok, err, Reply, Prog, ret, throw, ask, ◌>>=◌, ◌>>◌, try_catch, try_finally,
}
use aspin_partners_bridge.Effects.Run.{Environment, Event, run, trace}

module _ {S : Type 0} where
  abbrev pub Post : {A : Type 0} → (A → S → Type 0) → (Error → S → Type 0) → Result A → S → Type 0
  Post Q E (ok a) = Q a
  Post Q E (err e) = E e

module _ {S : Type 0} (step : S → Event → S) where
  -- The state of the monitor after a sequence of calls.
  abbrev pub observe : S → List Event → S
  observe σ [] = σ
  observe σ (e ∷ t) = observe (step σ e) t

  -- `Wp m Q σ`: on every path of `m` from the state `σ` the result and the last state have `Q`.
  abbrev pub Wp : {A : Type 0} → Prog A → (Result A → S → Type 0) → S → Type 0
  Wp (ret a) Q σ = Q (ok a) σ
  Wp (throw e) Q σ = Q (err e) σ
  Wp (ask c k) Q σ = (r : Reply c) → Wp (k r) Q (step σ (c, r))

  -- What holds on every path holds of the run in any environment.
  pub Wp-run :
      {W : Type 0} (env : Environment W) {A : Type 0} (m : Prog A) (Q : Result A → S → Type 0)
      (w : W) (σ : S)
      → Wp m Q σ
      → Q (run env m w) (observe σ (trace env m w))
  unfolding run trace
  Wp-run env (ret a) Q w σ h = h
  Wp-run env (throw e) Q w σ h = h
  Wp-run env (ask c k) Q w σ h =
      Wp-run env (k (env.answer c w)) Q (env.after c w) (step σ (c, env.answer c w))
        (h (env.answer c w))

  pub Wp-mono :
      {A : Type 0} (m : Prog A) {P Q : Result A → S → Type 0} (σ : S)
      → ((r : Result A) (σ' : S) → P r σ' → Q r σ')
      → Wp m P σ
      → Wp m Q σ
  Wp-mono (ret a) σ i h = i (ok a) σ h
  Wp-mono (throw e) σ i h = i (err e) σ h
  Wp-mono (ask c k) σ i h = λ r. Wp-mono (k r) (step σ (c, r)) i (h r)

  -- What the first part of a sequence has to establish, by how it ends.
  abbrev pub Then : {A B : Type 0} → (A → Prog B) → (Result B → S → Type 0) → Result A → S → Type 0
  Then f Q (ok a) σ = Wp (f a) Q σ
  Then f Q (err e) σ = Q (err e) σ

  pub Wp-bind :
      {A B : Type 0} (m : Prog A) (f : A → Prog B) (Q : Result B → S → Type 0) (σ : S)
      → Wp m (Then f Q) σ
      → Wp (m >>= f) Q σ
  Wp-bind (ret a) f Q σ h = h
  Wp-bind (throw e) f Q σ h = h
  Wp-bind (ask c k) f Q σ h = λ r. Wp-bind (k r) f Q (step σ (c, r)) (h r)

  abbrev pub Else :
      {A : Type 0} → (Error → Prog A) → (Result A → S → Type 0) → Result A → S → Type 0
  Else g Q (ok a) σ = Q (ok a) σ
  Else g Q (err e) σ = Wp (g e) Q σ

  pub Wp-try_catch :
      {A : Type 0} (m : Prog A) (g : Error → Prog A) (Q : Result A → S → Type 0) (σ : S)
      → Wp m (Else g Q) σ
      → Wp (try_catch m g) Q σ
  Wp-try_catch (ret a) g Q σ h = h
  Wp-try_catch (throw e) g Q σ h = h
  Wp-try_catch (ask c k) g Q σ h = λ r. Wp-try_catch (k r) g Q (step σ (c, r)) (h r)

  abbrev pub Finally :
      {A : Type 0} → Prog (Unit {0}) → (Result A → S → Type 0) → Result A → S → Type 0
  Finally f Q (ok a) σ = Wp (f >> ret a) Q σ
  Finally f Q (err e) σ = Wp (f >> throw e) Q σ

  pub Wp-try_finally :
      {A : Type 0} (m : Prog A) (f : Prog (Unit {0})) (Q : Result A → S → Type 0) (σ : S)
      → Wp m (Finally f Q) σ
      → Wp (try_finally m f) Q σ
  Wp-try_finally (ret a) f Q σ h = h
  Wp-try_finally (throw e) f Q σ h = h
  Wp-try_finally (ask c k) f Q σ h = λ r. Wp-try_finally (k r) f Q (step σ (c, r)) (h r)

  pub record Hoare {A : Type 0} (P : S → Type 0) (m : Prog A) (Q : A → S → Type 0)
      (E : Error → S → Type 0) : Type 0 where
    pub from : (σ : S) → P σ → Wp m (Post Q E) σ

  pub Hoare-run :
      {W : Type 0} (env : Environment W) {A : Type 0} {P : S → Type 0} (m : Prog A)
      {Q : A → S → Type 0} {E : Error → S → Type 0} (w : W) (σ : S)
      → Hoare P m Q E
      → P σ
      → Post Q E (run env m w) (observe σ (trace env m w))
  Hoare-run env m {Q} {E} w σ h p = Wp-run env m (Post Q E) w σ (h.from σ p)

  -- A program that cannot return throws in every environment.
  pub throws-run :
      {W : Type 0} (env : Environment W) {A : Type 0} {P : S → Type 0} (m : Prog A)
      {E : Error → S → Type 0} (w : W) (σ : S)
      → Hoare P m (λ _ _. ⊥) E
      → P σ
      → (e : Error) × (run env m w ≡ err e) × E e (observe σ (trace env m w))
  throws-run env {A} m {E} w σ h p = go (run env m w) refl (Hoare-run env m w σ h p)
    where
      go :
          (r : Result A)
          → run env m w ≡ r
          → Post (λ _ _. ⊥) E r (observe σ (trace env m w))
          → (e : Error) × (run env m w ≡ err e) × E e (observe σ (trace env m w))
      go (ok a) same q = absurd q
      go (err e) same q = (e, same, q)

  -- A program that cannot throw returns in every environment.
  pub returns-run :
      {W : Type 0} (env : Environment W) {A : Type 0} {P : S → Type 0} (m : Prog A)
      {Q : A → S → Type 0} (w : W) (σ : S)
      → Hoare P m Q (λ _ _. ⊥)
      → P σ
      → (a : A) × (run env m w ≡ ok a) × Q a (observe σ (trace env m w))
  returns-run env {A} m {Q} w σ h p = go (run env m w) refl (Hoare-run env m w σ h p)
    where
      go :
          (r : Result A)
          → run env m w ≡ r
          → Post Q (λ _ _. ⊥) r (observe σ (trace env m w))
          → (a : A) × (run env m w ≡ ok a) × Q a (observe σ (trace env m w))
      go (ok a) same q = (a, same, q)
      go (err e) same q = absurd q
