-- ===== src/Effects/Threads.antt =====
-- Programs that run at the same time over one environment, a call at a time in any order.
use aspin_partners_bridge.Common.{ℕ, none, true, List, [], ◌∷◌, ◌≢◌, subst}
use aspin_partners_bridge.Effects.Defs.{
  ok, Call, find_by_transaction_id, find_by_reference, save_payment, update_payment, redis_set_nx,
  redis_del, add_job, has_amqp_channel, amqp_publish, http_request, metric, now, Reply, Prog, ret,
  throw, ask,
}
use aspin_partners_bridge.Value.{undefined}
use aspin_partners_bridge.Effects.Run.{Environment, Event}
use mathlib.Core.Logic.{ite}
use native.Mathlib.Decide.{ℕ_discrete}

-- Every call can be answered.
abbrev pub some_reply : (c : Call) → Reply c
some_reply (find_by_transaction_id _) = ok none
some_reply (find_by_reference _) = ok none
some_reply (save_payment _) = ok tt
some_reply (update_payment _ _) = ok tt
some_reply (redis_set_nx _ _ _) = ok none
some_reply (redis_del _) = ok tt
some_reply (add_job _) = ok tt
some_reply has_amqp_channel = true
some_reply (amqp_publish _ _ _) = ok true
some_reply (http_request _) = ok undefined
some_reply (metric _) = tt
some_reply now = 0

-- A family with another member at one index.
abbrev pub put : {A : Type 0} → (ℕ → A) → ℕ → A → ℕ → A
put f i a j = ite (ℕ_discrete i j) a (f j)

-- What is left of each program, and the calls so far with their replies, the last one first.
pub record System (W A : Type 0) : Type 0 where
  pub world : W
  pub rest : ℕ → Prog A
  pub history : List Event

module _ {W A : Type 0} (env : Environment W) where
  -- The next call of thread `i`, which has `p` left; a thread that has ended stays.
  unfoldable pub move : ℕ → Prog A → System W A → System W A
  move i (ret a) s = s
  move i (throw e) s = s
  move i (ask c k) s = record {
    world = env.after c s.world;
    rest = put s.rest i (k (env.answer c s.world));
    history = (c, env.answer c s.world) ∷ s.history;
  }

  -- A schedule names the thread that makes the next call.
  unfoldable pub play : List ℕ → System W A → System W A
  unfolding move
  play [] s = s
  play (i ∷ l) s = play l (move i (s.rest i) s)

  abbrev pub started : W → (ℕ → Prog A) → System W A
  started w m = record { world = w; rest = m; history = [] }

  -- What every move keeps holds under every schedule.
  pub play-keeps :
      (P : System W A → Type 0)
      → ((i : ℕ) (s : System W A) → P s → P (move i (s.rest i) s))
      → (l : List ℕ) (s : System W A) → P s
      → P (play l s)
  unfolding play
  play-keeps P keep [] s h = h
  play-keeps P keep (i ∷ l) s h = play-keeps P keep l (move i (s.rest i) s) (keep i s h)

-- A member of two families that change at the same index.
pub put-both :
    {A B : Type 0} (P : ℕ → A → B → Type 0) (f : ℕ → A) (g : ℕ → B) (i : ℕ) {a : A} {b : B}
    → P i a b
    → ((j : ℕ) → i ≢ j → P j (f j) (g j))
    → (j : ℕ) → P j (put f i a j) (put g i b j)
put-both P f g i {a} {b} h k j =
    elim (ℕ_discrete i j) as (λ d. P j (ite d a (f j)) (ite d b (g j))) [
      | yes e ↦ subst (λ z. P z a b) e h
      | no n ↦ k j n
    ]
