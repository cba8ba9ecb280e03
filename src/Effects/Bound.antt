-- ===== src/Effects/Bound.antt =====
-- `Within n m`: on every path `m` makes at most `n` calls, and then it has ended.
use aspin_partners_bridge.Common.{
  ℕ, suc, ◌+◌, ◌≤◌, List, [], ◌∷◌, length, Bool, true, false, ◌≡◌, arith, if◌then◌else◌,
}
use aspin_partners_bridge.Errors.{Error}
use aspin_partners_bridge.Effects.Defs.{
  Result, ok, err, Call, Reply, Prog, ret, throw, ◌>>=◌, ◌>>◌, lift, call, attempt, try_catch,
  try_finally,
}
use aspin_partners_bridge.Effects.Run.{Environment, Event, trace}
use aspin_partners_bridge.Effects.Logic.{
  Wp, Wp-run, observe, Wp-mono, Post, Then, Else, Finally, Wp-bind, Wp-try_catch, Wp-try_finally,
}
use aspin_partners_bridge.Effects.Footprint.{Uses, Uses-Hoare, NoCall}

-- One more call.
abbrev pub tick : ℕ → Event → ℕ
tick n e = suc n

abbrev AtMost : {A : Type 0} → ℕ → ℕ → Result A → ℕ → Type 0
AtMost n k r k' = k' ≤ k + n

pub record Within {A : Type 0} (n : ℕ) (m : Prog A) : Type 0 where
  pub within : (k : ℕ) → Wp tick m (AtMost n k) k

pub fits : {A : Type 0} {m : Prog A} {a : ℕ} (n : ℕ) → Within a m → a ≤ n → Within n m
fits {m} {a} n h le = record {
  within = λ k. Wp-mono tick m k (λ r j q. omega (arith, q, le)) (h.within k);
}

pub bind-Within :
    {A B : Type 0} {m : Prog A} {f : A → Prog B} {a b : ℕ}
    → Within a m
    → ((x : A) → Within b (f x))
    → Within (a + b) (m >>= f)
bind-Within {A} {B} {m} {f} {a} {b} h g = record {
  within = λ k. Wp-bind tick m f (AtMost (a + b) k) k (Wp-mono tick m k (go k) (h.within k));
}
  where
    go : (k : ℕ) (r : Result A) (j : ℕ) → AtMost a k r j → Then tick f (AtMost (a + b) k) r j
    go k (ok v) j q = Wp-mono tick (f v) j (λ r i p. omega (arith, p, q)) ((g v).within j)
    go k (err e) j q = omega (arith, q)

pub call-Within : (c : Call) → Within 1 (call c)
unfolding call
call-Within c = record { within = λ k r. omega arith }

module _ {A : Type 0} where
  pub ret-Within : (a : A) → Within 0 (ret a)
  ret-Within a = record { within = λ k. omega arith }

  pub throw-Within : (e : Error) → Within {A = A} 0 (throw e)
  throw-Within e = record { within = λ k. omega arith }

  -- A program that makes no call.
  pub none-Within : {m : Prog A} → Uses NoCall m → Within 0 m
  none-Within {m} u = record {
    within = λ k.
        Wp-mono tick m k (ends k)
          ((Uses-Hoare tick NoCall {P = λ j. j ≤ k + 0} (λ c h. absurd h) u).from k (omega arith));
  }
    where
      ends :
          (k : ℕ) (r : Result A) (j : ℕ)
          → Post (λ _ j. j ≤ k + 0) (λ _ j. j ≤ k + 0) r j
          → j ≤ k + 0
      ends k (ok a) j q = q
      ends k (err e) j q = q

  pub idle-Within : {m : Prog A} {n : ℕ} → Uses NoCall m → Within n m
  idle-Within {n} u = fits n (none-Within u) (omega arith)

  pub attempt-Within : (c : Call) (f : Reply c → Result A) → Within 1 (attempt c f)
  unfolding attempt lift
  attempt-Within c f = record { within = λ k r. go k (f r) }
    where
      go : (k : ℕ) (r : Result A) → Wp tick (lift r) (AtMost 1 k) (suc k)
      go k (ok a) = omega arith
      go k (err e) = omega arith

  pub if-Within :
      (b : Bool) {m n : Prog A} {a : ℕ} → Within a m → Within a n → Within a (if b then m else n)
  if-Within true h k = h
  if-Within false h k = k

  pub try_catch-Within :
      {m : Prog A} {f : Error → Prog A} {a b : ℕ}
      → Within a m
      → ((e : Error) → Within b (f e))
      → Within (a + b) (try_catch m f)
  try_catch-Within {m} {f} {a} {b} h g = record {
    within = λ k. Wp-try_catch tick m f (AtMost (a + b) k) k (Wp-mono tick m k (go k) (h.within k));
  }
    where
      go : (k : ℕ) (r : Result A) (j : ℕ) → AtMost a k r j → Else tick f (AtMost (a + b) k) r j
      go k (ok v) j q = omega (arith, q)
      go k (err e) j q = Wp-mono tick (f e) j (λ r i p. omega (arith, p, q)) ((g e).within j)

  pub try_finally-Within :
      {m : Prog A} {f : Prog (Unit {0})} {a b : ℕ}
      → Within a m
      → Within b f
      → Within (a + b) (try_finally m f)
  try_finally-Within {m} {f} {a} {b} h g = record {
    within =
        λ k. Wp-try_finally tick m f (AtMost (a + b) k) k (Wp-mono tick m k (go k) (h.within k));
  }
    where
      cleaned :
          (k j : ℕ) (p : Prog A) → Within 0 p → j ≤ k + a → Wp tick (f >> p) (AtMost (a + b) k) j
      cleaned k j p z q =
          Wp-mono tick (f >> p) j (λ r i l. omega (arith, l, q)) ((bind-Within g (λ _. z)).within j)

      go : (k : ℕ) (r : Result A) (j : ℕ) → AtMost a k r j → Finally tick f (AtMost (a + b) k) r j
      go k (ok v) j q = cleaned k j (ret v) (ret-Within v) q
      go k (err e) j q = cleaned k j (throw e) (throw-Within e) q

-- What makes no call leaves the bound as it is, before a program and after it.
module _ {A B : Type 0} {m : Prog A} {f : A → Prog B} {n : ℕ} where
  pub silent-bind : Uses NoCall m → ((x : A) → Within n (f x)) → Within n (m >>= f)
  silent-bind u h = fits n (bind-Within (none-Within u) h) (omega arith)

  pub bind-silent : Within n m → ((x : A) → Uses NoCall (f x)) → Within n (m >>= f)
  bind-silent h u = fits n (bind-Within h (λ x. none-Within (u x))) (omega arith)

pub catch-silent :
    {A : Type 0} {m : Prog A} {f : Error → Prog A} {n : ℕ}
    → Within n m
    → ((e : Error) → Uses NoCall (f e))
    → Within n (try_catch m f)
catch-silent {n} h u = fits n (try_catch-Within h (λ e. none-Within (u e))) (omega arith)

pub ruleset silent = (silent-bind, bind-silent, catch-silent)

-- A run makes no more calls than that.
pub length-trace :
    {W : Type 0} (env : Environment W) {A : Type 0} {n : ℕ} (m : Prog A) (w : W)
    → Within n m
    → length (trace env m w) ≤ n
length-trace env {n} m w h =
    omega (arith, counted (trace env m w) 0, Wp-run tick env m (AtMost n 0) w 0 (h.within 0))
  where
    counted : (l : List Event) (k : ℕ) → observe tick k l ≡ k + length l
    counted [] k = omega arith
    counted (e ∷ l) k = omega (arith, counted l (suc k))
