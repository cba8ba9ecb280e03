-- ===== src/Effects/Run.antt =====
-- A program run in an environment: a state of the outside world, and what it answers to each call.
use aspin_partners_bridge.Common.{List, [], ◌∷◌}
use aspin_partners_bridge.Effects.Defs.{Result, ok, err, Call, Reply, Prog, ret, throw, ask}

pub record Environment (W : Type 0) : Type 0 where
  pub answer : (c : Call) → W → Reply c
  pub after : Call → W → W

-- A call with its reply.
abbrev pub Event : Type 0
Event = (c : Call) × Reply c

module _ {W : Type 0} (env : Environment W) where
  unfoldable pub run : {A : Type 0} → Prog A → W → Result A
  run (ret a) w = ok a
  run (throw e) w = err e
  run (ask c k) w = run (k (env.answer c w)) (env.after c w)

  unfoldable pub world_after : {A : Type 0} → Prog A → W → W
  world_after (ret a) w = w
  world_after (throw e) w = w
  world_after (ask c k) w = world_after (k (env.answer c w)) (env.after c w)

  unfoldable pub trace : {A : Type 0} → Prog A → W → List Event
  trace (ret a) w = []
  trace (throw e) w = []
  trace (ask c k) w = (c, env.answer c w) ∷ trace (k (env.answer c w)) (env.after c w)
