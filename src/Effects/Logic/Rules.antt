-- ===== src/Effects/Logic/Rules.antt =====
-- The rules of the logic, one for each way to put a program together.
use aspin_partners_bridge.Common.{
  String, Option, none, some, Bool, true, false, ◌≡◌, refl, if◌then◌else◌,
}
use aspin_partners_bridge.Value.{Value, is_nullish, optional}
use aspin_partners_bridge.Errors.{Error}
use aspin_partners_bridge.Effects.Defs.{
  Result, ok, err, Call, Reply, Prog, ret, throw, ◌>>=◌, lift, call, attempt, or_throw, throw_if,
  try_catch, try_finally, read,
}
use aspin_partners_bridge.Effects.Run.{Event}
use aspin_partners_bridge.Effects.Logic.{
  Post, Wp, Wp-mono, Then, Wp-bind, Else, Wp-try_catch, Finally, Wp-try_finally, Hoare,
}

module _ {S : Type 0} (step : S → Event → S) where
  module _ {A : Type 0} {P : S → Type 0} {Q : A → S → Type 0} {E : Error → S → Type 0} where
    pub ret-Hoare : (a : A) → ((σ : S) → P σ → Q a σ) → Hoare step P (ret a) Q E
    ret-Hoare a h = record { from = h }

    pub throw-Hoare : (e : Error) → ((σ : S) → P σ → E e σ) → Hoare step P (throw e) Q E
    throw-Hoare e h = record { from = h }

    pub lift-Hoare : (r : Result A) → ((σ : S) → P σ → Post Q E r σ) → Hoare step P (lift r) Q E
    unfolding lift
    lift-Hoare (ok a) h = record { from = h }
    lift-Hoare (err e) h = record { from = h }

    pub attempt-Hoare :
        (c : Call) (f : Reply c → Result A)
        → ((σ : S) (r : Reply c) → P σ → Post Q E (f r) (step σ (c, r)))
        → Hoare step P (attempt c f) Q E
    unfolding attempt
    attempt-Hoare c f h = record { from = λ σ p r. go (f r) (step σ (c, r)) (h σ r p) }
      where
        go : (r : Result A) (σ : S) → Post Q E r σ → Wp step (lift r) (Post Q E) σ
        go (ok a) σ q = q
        go (err e) σ q = q

    pub or_throw-Hoare :
        (o : Option A) (e : Error)
        → ((σ : S) → P σ → E e σ)
        → ((a : A) → o ≡ some a → (σ : S) → P σ → Q a σ)
        → Hoare step P (or_throw o e) Q E
    unfolding or_throw
    or_throw-Hoare none e h k = record { from = h }
    or_throw-Hoare (some a) e h k = record { from = k a refl }

    pub if-Hoare :
        (b : Bool) {m n : Prog A}
        → (b ≡ true → Hoare step P m Q E)
        → (b ≡ false → Hoare step P n Q E)
        → Hoare step P (if b then m else n) Q E
    if-Hoare true h k = h refl
    if-Hoare false h k = k refl

    -- A fact about the data that was established before.
    pub given-Hoare :
        {F : Type 0} {m : Prog A} → (F → Hoare step P m Q E) → Hoare step (λ σ. F × P σ) m Q E
    given-Hoare h = record { from = λ σ p. (h p.0).from σ p.1 }

    -- From a stronger state to weaker ones.
    pub weaken :
        {P' : S → Type 0} {Q' : A → S → Type 0} {E' : Error → S → Type 0} {m : Prog A}
        → ((σ : S) → P σ → P' σ)
        → ((a : A) (σ : S) → Q' a σ → Q a σ)
        → ((e : Error) (σ : S) → E' e σ → E e σ)
        → Hoare step P' m Q' E'
        → Hoare step P m Q E
    weaken {Q'} {E'} {m} pre post error h = record {
      from = λ σ p. Wp-mono step m σ go (h.from σ (pre σ p));
    }
      where
        go : (r : Result A) (σ' : S) → Post Q' E' r σ' → Post Q E r σ'
        go (ok a) = post a
        go (err e) = error e

    pub try_catch-Hoare :
        {E' : Error → S → Type 0} (m : Prog A) (g : Error → Prog A)
        → Hoare step P m Q E'
        → ((e : Error) → Hoare step (E' e) (g e) Q E)
        → Hoare step P (try_catch m g) Q E
    try_catch-Hoare {E'} m g h k = record {
      from = λ σ p. Wp-try_catch step m g (Post Q E) σ (Wp-mono step m σ go (h.from σ p));
    }
      where
        go : (r : Result A) (σ' : S) → Post Q E' r σ' → Else step g (Post Q E) r σ'
        go (ok a) σ' q = q
        go (err e) σ' q = (k e).from σ' q

  module _ {A B : Type 0} {P : S → Type 0} {Q : B → S → Type 0} {E : Error → S → Type 0} where
    pub bind-Hoare :
        {R : A → S → Type 0} {m : Prog A} {f : A → Prog B}
        → Hoare step P m R E
        → ((a : A) → Hoare step (R a) (f a) Q E)
        → Hoare step P (m >>= f) Q E
    bind-Hoare {R} {m} {f} h k = record {
      from = λ σ p. Wp-bind step m f (Post Q E) σ (Wp-mono step m σ go (h.from σ p));
    }
      where
        go : (r : Result A) (σ' : S) → Post R E r σ' → Then step f (Post Q E) r σ'
        go (ok a) σ' q = (k a).from σ' q
        go (err e) σ' q = q

  module _ {P : S → Type 0} {Q : Unit {0} → S → Type 0} {E : Error → S → Type 0} where
    pub throw_if-Hoare :
        {A : Type 0} (o : Option A) (e : Error)
        → ((a : A) → o ≡ some a → (σ : S) → P σ → E e σ)
        → (o ≡ none → (σ : S) → P σ → Q tt σ)
        → Hoare step P (throw_if o e) Q E
    unfolding throw_if
    throw_if-Hoare none e h k = record { from = k refl }
    throw_if-Hoare (some a) e h k = record { from = h a refl }

  pub call-Hoare :
      {P : S → Type 0} (c : Call) {Q : Reply c → S → Type 0} {E : Error → S → Type 0}
      → ((σ : S) (r : Reply c) → P σ → Q r (step σ (c, r)))
      → Hoare step P (call c) Q E
  unfolding call
  call-Hoare c h = record { from = λ σ p r. h σ r p }

  -- A read of a property, which throws on null and undefined.
  pub read-Hoare :
      {P : S → Type 0} (v : Value) (k : String)
      → Hoare step P (read v k) (λ a σ. (a ≡ optional v k) × P σ) (λ _. P)
  unfolding read
  read-Hoare v k =
      if-Hoare (is_nullish v) (λ _. throw-Hoare _ (λ σ p. p)) (λ _. ret-Hoare _ (λ σ p. (refl, p)))

  -- The cleanup runs after a return and after an exception.
  pub try_finally-Hoare :
      {A : Type 0} {P : S → Type 0} {Q R : A → S → Type 0} {E F : Error → S → Type 0} (m : Prog A)
      (f : Prog (Unit {0}))
      → Hoare step P m R F
      → ((a : A) → Hoare step (R a) f (λ _. Q a) E)
      → ((e : Error) → Hoare step (F e) f (λ _. E e) E)
      → Hoare step P (try_finally m f) Q E
  try_finally-Hoare {A} {Q} {R} {E} {F} m f h k l = record {
    from = λ σ p. Wp-try_finally step m f (Post Q E) σ (Wp-mono step m σ go (h.from σ p));
  }
    where
      go : (r : Result A) (σ' : S) → Post R F r σ' → Finally step f (Post Q E) r σ'
      go (ok a) σ' q = (bind-Hoare (k a) (λ u. ret-Hoare a (λ σ'' q'. q'))).from σ' q
      go (err e) σ' q = (bind-Hoare (l e) (λ u. throw-Hoare e (λ σ'' q'. q'))).from σ' q
