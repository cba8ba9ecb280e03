-- ===== src/Effects/Footprint.antt =====
-- Footprints: `Uses C m` says that `m` makes only calls with `C`, whatever they are answered.
use aspin_partners_bridge.Common.{String, Option, none, some, Bool, true, false, if◌then◌else◌}
use aspin_partners_bridge.Value.{Value, is_nullish}
use aspin_partners_bridge.Errors.{Error}
use aspin_partners_bridge.Effects.Defs.{
  Result, ok, err, Call, Reply, Prog, ret, throw, ask, ◌>>=◌, lift, call, attempt, or_throw,
  throw_if, try_catch, try_finally, read,
}
use aspin_partners_bridge.Effects.Run.{Event}
use aspin_partners_bridge.Effects.Logic.{Wp, Hoare, Post}

abbrev Each : {A : Type 0} → (Call → Type 0) → Prog A → Type 0
Each C (ret a) = Unit
Each C (throw e) = Unit
Each C (ask c k) = C c × ((r : Reply c) → Each C (k r))

pub record Uses {A : Type 0} (C : Call → Type 0) (m : Prog A) : Type 0 where
  pub each : Each C m

module _ (C : Call → Type 0) where
  Each-bind :
      {A B : Type 0} (m : Prog A) (f : A → Prog B)
      → Each C m
      → ((a : A) → Each C (f a))
      → Each C (m >>= f)
  Each-bind (ret a) f h k = k a
  Each-bind (throw e) f h k = tt
  Each-bind (ask c g) f h k = (h.0, λ r. Each-bind (g r) f (h.1 r) k)

  Each-try_catch :
      {A : Type 0} (m : Prog A) (f : Error → Prog A)
      → Each C m
      → ((e : Error) → Each C (f e))
      → Each C (try_catch m f)
  Each-try_catch (ret a) f h k = tt
  Each-try_catch (throw e) f h k = k e
  Each-try_catch (ask c g) f h k = (h.0, λ r. Each-try_catch (g r) f (h.1 r) k)

  Each-try_finally :
      {A : Type 0} (m : Prog A) (f : Prog (Unit {0}))
      → Each C m
      → Each C f
      → Each C (try_finally m f)
  Each-try_finally (ret a) f h k = Each-bind f (λ _. ret a) k (λ _. tt)
  Each-try_finally (throw e) f h k = Each-bind f (λ _. throw e) k (λ _. tt)
  Each-try_finally (ask c g) f h k = (h.0, λ r. Each-try_finally (g r) f (h.1 r) k)

module _ {C : Call → Type 0} where
  module _ {A : Type 0} where
    pub ret-Uses : (a : A) → Uses C (ret a)
    ret-Uses a = record { each = tt }

    pub throw-Uses : (e : Error) → Uses {A = A} C (throw e)
    throw-Uses e = record { each = tt }

    pub lift-Uses : (r : Result A) → Uses C (lift r)
    unfolding lift
    lift-Uses (ok a) = record { each = tt }
    lift-Uses (err e) = record { each = tt }

    pub attempt-Uses : (c : Call) (f : Reply c → Result A) → C c → Uses C (attempt c f)
    unfolding attempt
    attempt-Uses c f h = record { each = (h, λ r. (lift-Uses (f r)).each) }

    pub or_throw-Uses : (o : Option A) (e : Error) → Uses C (or_throw o e)
    unfolding or_throw
    or_throw-Uses none e = record { each = tt }
    or_throw-Uses (some a) e = record { each = tt }

    pub throw_if-Uses : (o : Option A) (e : Error) → Uses C (throw_if o e)
    unfolding throw_if
    throw_if-Uses none e = record { each = tt }
    throw_if-Uses (some a) e = record { each = tt }

    pub if-Uses : (b : Bool) {m n : Prog A} → Uses C m → Uses C n → Uses C (if b then m else n)
    if-Uses true h k = h
    if-Uses false h k = k

    pub try_catch-Uses :
        {m : Prog A} {f : Error → Prog A}
        → Uses C m
        → ((e : Error) → Uses C (f e))
        → Uses C (try_catch m f)
    try_catch-Uses {m} {f} h k = record { each = Each-try_catch C m f h.each (λ e. (k e).each) }

    pub try_finally-Uses :
        {m : Prog A} {f : Prog (Unit {0})} → Uses C m → Uses C f → Uses C (try_finally m f)
    try_finally-Uses {m} {f} h k = record { each = Each-try_finally C m f h.each k.each }

  pub bind-Uses :
      {A B : Type 0} {m : Prog A} {f : A → Prog B}
      → Uses C m
      → ((a : A) → Uses C (f a))
      → Uses C (m >>= f)
  bind-Uses {m} {f} h k = record { each = Each-bind C m f h.each (λ a. (k a).each) }

  pub call-Uses : (c : Call) → C c → Uses C (call c)
  unfolding call
  call-Uses c h = record { each = (h, λ r. tt) }

  pub read-Uses : (v : Value) (k : String) → Uses C (read v k)
  unfolding read
  read-Uses v k = if-Uses (is_nullish v) (throw-Uses _) (ret-Uses _)

-- Every program makes calls of some kind.
any-Uses-Each : {A : Type 0} (m : Prog A) → Each (λ c. Unit {0}) m
any-Uses-Each (ret a) = tt
any-Uses-Each (throw e) = tt
any-Uses-Each (ask c k) = (tt, λ r. any-Uses-Each (k r))

pub any-Uses : {A : Type 0} (m : Prog A) → Uses (λ c. Unit {0}) m
any-Uses m = record { each = any-Uses-Each m }

pub ruleset footprint = (
  ret-Uses, throw-Uses, lift-Uses, or_throw-Uses, throw_if-Uses, if-Uses, try_catch-Uses,
  try_finally-Uses, bind-Uses, read-Uses,
)

-- A program that makes no call.
abbrev pub NoCall : Call → Type 0
NoCall c = ⊥

-- A state that every call of the footprint keeps is kept by the program.
Each-Wp :
    {S : Type 0} (step : S → Event → S) (C : Call → Type 0) {A : Type 0} (m : Prog A)
    (P : S → Type 0) (σ : S)
    → ((c : Call) → C c → (r : Reply c) (σ' : S) → P σ' → P (step σ' (c, r)))
    → Each C m
    → P σ
    → Wp step m (Post (λ _. P) (λ _. P)) σ
Each-Wp step C (ret a) P σ keep h p = p
Each-Wp step C (throw e) P σ keep h p = p
Each-Wp step C (ask c k) P σ keep h p =
    λ r. Each-Wp step C (k r) P (step σ (c, r)) keep (h.1 r) (keep c h.0 r σ p)

pub Uses-Hoare :
    {S : Type 0} (step : S → Event → S) (C : Call → Type 0) {A : Type 0} {m : Prog A}
    {P : S → Type 0}
    → ((c : Call) → C c → (r : Reply c) (σ : S) → P σ → P (step σ (c, r)))
    → Uses C m
    → Hoare step P m (λ _. P) (λ _. P)
Uses-Hoare step C {m} {P} keep u = record { from = λ σ p. Each-Wp step C m P σ keep u.each p }
