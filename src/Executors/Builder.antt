-- ===== src/Executors/Builder.antt =====
-- executors/builder/payment.executor.builder.ts: the registry of executors, a Map in insertion
-- order, by the key PARTNER_CHANNEL.
pub mod Footprint
pub mod Lookup
use aspin_partners_bridge.Common.{
  String, ◌++◌, Bool, true, false, List, [], ◌∷◌, map, Option, none, some, ◌==◌, if◌then◌else◌,
  to_upper_case,
}
use aspin_partners_bridge.Value.{Value, undefined, null, bool, num, str, arr, obj}
use aspin_partners_bridge.Errors.{raised, type_error, partner_executor_not_found}
use aspin_partners_bridge.Effects.{or_throw, Prog, ret, throw, ◌>>=◌, Host, to_text}
use aspin_partners_bridge.Executors.Defs.{
  Executor, apa_mpesa, britam_mpesa, britam_airtel, get_partner, get_channel,
}

abbrev pub Registry : Type 0
Registry = List (String × Executor)

-- `map.set(key, executor)`
abbrev pub set_entry : String → Executor → Registry → Registry
set_entry k x [] = (k, x) ∷ []
set_entry k x ((j, y) ∷ r) = if j == k then (k, x) ∷ r else (j, y) ∷ set_entry k x r

-- `map.get(key)`
abbrev pub get_entry : String → Registry → Option Executor
get_entry k [] = none
get_entry k ((j, y) ∷ r) = if j == k then some y else get_entry k r

-- `value.toUpperCase()`: a TypeError on what is no string.
unfoldable pub upper_case_of : Value → Prog String
upper_case_of (str s) = ret (to_upper_case s)
upper_case_of undefined = throw (type_error "Cannot read properties of undefined")
upper_case_of null = throw (type_error "Cannot read properties of null")
upper_case_of (bool _) = throw (type_error "toUpperCase is not a function")
upper_case_of (num _) = throw (type_error "toUpperCase is not a function")
upper_case_of (arr _) = throw (type_error "toUpperCase is not a function")
upper_case_of (obj _) = throw (type_error "toUpperCase is not a function")

-- `getExecutorKey` for two strings, which is how the registry is filled.
unfoldable pub executor_key : String → String → String
executor_key partner channel = to_upper_case partner ++ "_" ++ channel

unfoldable pub register : Executor → Registry → Registry
register x r = set_entry (executor_key (get_partner x) (get_channel x)) x r

-- The registry that the constructor makes.
unfoldable pub executors : Registry
executors = register britam_airtel (register apa_mpesa (register britam_mpesa []))

module _ (h : Host) where
  unfoldable pub get_executor_key : Value → Value → Prog String
  get_executor_key partner_id channel = do
    partner ← upper_case_of partner_id
    ret (partner ++ "_" ++ to_text h channel)

  unfoldable pub get_executor : Value → Value → Prog Executor
  get_executor partner_id channel = do
    key ← get_executor_key partner_id channel
    or_throw (get_entry key executors) (
        raised (
          partner_executor_not_found (
            "No executor found for partner "
            ++ to_text h partner_id
            ++ " and channel "
            ++ to_text h channel)))

  unfoldable pub has_executor : Value → Value → Prog Bool
  has_executor partner_id channel = do
    key ← get_executor_key partner_id channel
    ret (elim (get_entry key executors) [ none ↦ false | some x ↦ true ])

unfoldable pub get_all_executors : List Executor
get_all_executors = map (λ e. e.1) executors
