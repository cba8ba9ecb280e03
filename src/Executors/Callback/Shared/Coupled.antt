-- ===== src/Executors/Callback/Shared/Coupled.antt =====
-- base.payment.executor.ts, callbacks that run at the same time: how the lock, the row and the
-- place of each callback go together.
use aspin_partners_bridge.Common.{
  false-true, ℕ, suc, ◌+◌, ◌≤◌, Bool, true, false, ◌≡◌, ◌≢◌, refl, sym, subst, ◌∙◌, arith,
  if◌then◌else◌,
}
use aspin_partners_bridge.Executors.Callback.Shared.{
  Deed, neutral, granted, saw_open, stored, attempted, published, gave_back, elsewhere, is_stored,
  is_published, Turn, outside, entered, open_row, settled, announced, spent, left, out_of_order,
  next, more, under_lock, Promise,
}

-- The owner of the lock, what the store holds, and how often the history published and stored.
pub record Facts : Type 0 where
  pub owner : ℕ
  pub is_taken : Bool
  pub is_processed : Bool
  pub events : ℕ
  pub stored_rows : ℕ

-- What a thread may rely on, by its turn.
module _ (a : Facts) where
  abbrev Owns : ℕ → Type 0
  Owns j = (j ≡ a.owner) × (a.is_taken ≡ true)

  abbrev pub Fits : ℕ → Turn → Type 0
  Fits j outside = Unit
  Fits j entered = Owns j
  Fits j open_row = Owns j × (a.is_processed ≡ false)
  Fits j settled = Owns j × (a.events ≡ 0) × (1 ≤ a.stored_rows)
  Fits j announced = Owns j
  Fits j spent = Owns j
  Fits j left = Unit
  Fits j out_of_order = ⊥

-- How often the row can still be stored.
abbrev pub budget : Bool → ℕ
budget processed = if processed then 0 else 1

-- The facts of a thread that is under the lock.
under-owner : (a : Facts) (j : ℕ) (τ : Turn) → Fits a j τ → under_lock τ ≡ true → Owns a j
under-owner a j outside f u = absurd (false-true u)
under-owner a j entered f u = f
under-owner a j open_row f u = f.0
under-owner a j settled f u = f.0
under-owner a j announced f u = f
under-owner a j spent f u = f
under-owner a j left f u = absurd (false-true u)
under-owner a j out_of_order f u = absurd f

-- A thread that is not under the lock relies on nothing.
free-Fits : (a b : Facts) (j : ℕ) (τ : Turn) → Fits a j τ → (under_lock τ ≡ true → ⊥) → Fits b j τ
free-Fits a b j outside f u = tt
free-Fits a b j left f u = tt
free-Fits a b j out_of_order f u = f
free-Fits a b j _ f u = absurd (u refl)

elsewhere-out : (τ : Turn) → next τ elsewhere ≡ out_of_order
elsewhere-out outside = refl
elsewhere-out _ = refl

-- Only the owner of the lock writes, publishes or gives back.
abbrev NeedsLock : Deed → Type 0
NeedsLock stored = Unit
NeedsLock attempted = Unit
NeedsLock published = Unit
NeedsLock gave_back = Unit
NeedsLock _ = ⊥

writer-under : (τ : Turn) (d : Deed) → NeedsLock d → next τ d ≢ out_of_order → under_lock τ ≡ true
writer-under outside neutral a ord = absurd a
writer-under outside granted a ord = absurd a
writer-under outside saw_open a ord = absurd a
writer-under outside _ a ord = absurd (ord refl)
writer-under left neutral a ord = absurd a
writer-under left _ a ord = absurd (ord refl)
writer-under out_of_order neutral a ord = absurd a
writer-under out_of_order _ a ord = absurd (ord refl)
writer-under _ d a ord = refl

module _ {W : Type 0} (taken processed : W → Bool) (w v : W) (n m : ℕ) where
  abbrev pub facts : ℕ → Facts
  facts o = record {
    owner = o;
    is_taken = taken w;
    is_processed = processed w;
    events = n;
    stored_rows = m;
  }

  abbrev pub owner_after : Deed → ℕ → ℕ → ℕ
  owner_after granted i o = i
  owner_after _ i o = o

  abbrev pub facts_after : Deed → ℕ → ℕ → Facts
  facts_after d i o = record {
    owner = owner_after d i o;
    is_taken = taken v;
    is_processed = processed v;
    events = more (is_published d) n;
    stored_rows = more (is_stored d) m;
  }

  keep-Fits :
      (o j : ℕ) (τ : Turn)
      → (taken w ≡ true → taken v ≡ true)
      → processed v ≡ processed w
      → Fits (facts o) j τ
      → Fits (facts_after neutral j o) j τ
  keep-Fits o j outside lock row f = tt
  keep-Fits o j entered lock row f = (f.0, lock f.1)
  keep-Fits o j open_row lock row f = ((f.0.0, lock f.0.1), row ∙ f.1)
  keep-Fits o j settled lock row f = ((f.0.0, lock f.0.1), f.1, f.2)
  keep-Fits o j announced lock row f = (f.0, lock f.1)
  keep-Fits o j spent lock row f = (f.0, lock f.1)
  keep-Fits o j left lock row f = tt
  keep-Fits o j out_of_order lock row f = f

  -- The thread that makes the call.
  pub own-Fits :
      (i o b : ℕ) (τ : Turn) (d : Deed)
      → Promise taken processed d w v
      → Fits (facts o) i τ
      → next τ d ≢ out_of_order
      → n ≤ m
      → m + budget (processed w) ≤ b
      → b ≤ 1
      → Fits (facts_after d i o) i (next τ d)
  own-Fits i o b τ neutral p f ord le once small = keep-Fits o i τ p.0 p.1 f
  own-Fits i o b outside granted p f ord le once small = (refl, p.1)
  own-Fits i o b outside saw_open p f ord le once small = tt
  own-Fits i o b entered saw_open p f ord le once small = ((f.0, p.0 f.1), p.1 ∙ p.2)
  own-Fits i o b open_row stored p f ord le once small = (
    (f.0.0, p.0 f.0.1),
    omega (arith, le, small, subst (λ z. m + budget z ≤ b) f.1 once),
    omega arith,
  )
  own-Fits i o b open_row attempted p f ord le once small = (f.0.0, p.0 f.0.1)
  own-Fits i o b settled published p f ord le once small = (f.0.0, p.0 f.0.1)
  own-Fits i o b entered gave_back p f ord le once small = tt
  own-Fits i o b open_row gave_back p f ord le once small = tt
  own-Fits i o b settled gave_back p f ord le once small = tt
  own-Fits i o b announced gave_back p f ord le once small = tt
  own-Fits i o b spent gave_back p f ord le once small = tt
  own-Fits i o b _ _ p f ord le once small = absurd (ord refl)

  -- Every other thread.
  pub other-Fits :
      (i j o : ℕ) (τ τ' : Turn) (d : Deed)
      → i ≢ j
      → Promise taken processed d w v
      → Fits (facts o) i τ
      → next τ d ≢ out_of_order
      → Fits (facts o) j τ'
      → Fits (facts_after d i o) j τ'
  other-Fits i j o τ τ' neutral apart p f ord g = keep-Fits o j τ' p.0 p.1 g
  other-Fits i j o τ τ' saw_open apart p f ord g = keep-Fits o j τ' p.0 p.1 g
  other-Fits i j o τ τ' granted apart p f ord g =
      free-Fits (facts o) _ j τ' g (λ u. false-true (sym p.0 ∙ (under-owner (facts o) j τ' g u).1))
  other-Fits i j o τ τ' elsewhere apart p f ord g = absurd (ord (elsewhere-out τ))
  other-Fits i j o τ τ' d apart p f ord g = free-Fits (facts o) _ j τ' g (λ u. apart (
      (under-owner (facts o) i τ f (writer-under τ d tt ord)).0
      ∙ sym (under-owner (facts o) j τ' g u).0))

  -- An event is published only after the row was stored.
  pub announced-tally :
      (i o : ℕ) (τ : Turn) (d : Deed)
      → Fits (facts o) i τ
      → next τ d ≢ out_of_order
      → n ≤ m
      → more (is_published d) n ≤ more (is_stored d) m
  announced-tally i o settled published f ord le = omega (arith, f.1, f.2)
  announced-tally i o τ stored f ord le = omega (arith, le)
  announced-tally i o outside published f ord le = absurd (ord refl)
  announced-tally i o _ published f ord le = absurd (ord refl)
  announced-tally i o τ _ f ord le = le

  -- The row is stored only where it was unprocessed.
  pub stored-tally :
      (i o b : ℕ) (τ : Turn) (d : Deed)
      → Promise taken processed d w v
      → Fits (facts o) i τ
      → next τ d ≢ out_of_order
      → m + budget (processed w) ≤ b
      → more (is_stored d) m + budget (processed v) ≤ b
  stored-tally i o b open_row stored p f ord le =
      subst (λ z. suc m + budget z ≤ b) (sym p.1)
        (omega (arith, subst (λ z. m + budget z ≤ b) f.1 le))
  stored-tally i o b τ attempted p f ord le =
      omega (arith, le, shrink (processed w) (processed v) p.1)
    where
      shrink : (c d : Bool) → (c ≡ true → d ≡ true) → budget d ≤ budget c
      shrink true d h = subst (λ z. budget z ≤ 0) (sym (h refl)) (omega arith)
      shrink false true h = omega arith
      shrink false false h = omega arith
  stored-tally i o b τ neutral p f ord le = subst (λ z. m + budget z ≤ b) (sym p.1) le
  stored-tally i o b τ granted p f ord le = subst (λ z. m + budget z ≤ b) (sym p.2) le
  stored-tally i o b τ saw_open p f ord le = subst (λ z. m + budget z ≤ b) (sym p.1) le
  stored-tally i o b τ published p f ord le = subst (λ z. m + budget z ≤ b) (sym p.1) le
  stored-tally i o b τ gave_back p f ord le = subst (λ z. m + budget z ≤ b) (sym p) le
  stored-tally i o b τ elsewhere p f ord le = absurd (ord (elsewhere-out τ))
  stored-tally i o b outside stored p f ord le = absurd (ord refl)
  stored-tally i o b _ stored p f ord le = absurd (ord refl)
