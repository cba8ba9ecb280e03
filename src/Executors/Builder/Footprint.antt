-- ===== src/Executors/Builder/Footprint.antt =====
-- executor.builder.ts: the calls that a look-up in the registry makes.
use aspin_partners_bridge.Value.{Value}
use aspin_partners_bridge.Effects.{Call, Host}
use aspin_partners_bridge.Effects.Footprint.{Uses, footprint}
use aspin_partners_bridge.Executors.Builder.{upper_case_of, get_executor_key, get_executor}

module _ {C : Call → Type 0} where
  upper_case_of-Uses : (v : Value) → Uses C (upper_case_of v)
  unfolding upper_case_of
  upper_case_of-Uses (Value.str t) = search footprint
  upper_case_of-Uses _ = search footprint

  pub get_executor-Uses :
      (h : Host) (partner channel : Value) → Uses C (get_executor h partner channel)
  unfolding get_executor get_executor_key
  get_executor-Uses h partner channel = search (footprint, upper_case_of-Uses) depth 9
