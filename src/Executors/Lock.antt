-- ===== src/Executors/Lock.antt =====
-- base.payment.executor.ts: the lock that a callback holds on its transaction, in Redis.
use aspin_partners_bridge.Common.{ℕ, String, ◌++◌, Bool, false, Option, none, some, ◌==◌}
use aspin_partners_bridge.Value.{Value}
use aspin_partners_bridge.Effects.{
  Prog, ret, ◌>>=◌, attempt, redis_set_nx, redis_del, Services, to_text,
}
use aspin_partners_bridge.Executors.Defs.{Executor, get_partner}

abbrev pub ttl_seconds : ℕ
ttl_seconds = 30

-- `result === 'OK'`
abbrev pub is_ok : Option String → Bool
is_ok none = false
is_ok (some r) = r == "OK"

unfoldable pub build_callback_lock_key : Services → Executor → Value → String
build_callback_lock_key s x transaction_id =
    "callback:" ++ get_partner x ++ ":" ++ to_text s.host transaction_id

unfoldable pub acquire_callback_lock : String → Prog Bool
acquire_callback_lock key = do
  result ← attempt (redis_set_nx key "1" ttl_seconds) (λ r. r)
  ret (is_ok result)

unfoldable pub release_callback_lock : String → Prog (Unit {0})
release_callback_lock key = attempt (redis_del key) (λ r. r)
