-- ===== src/Executors/Payload.antt =====
-- base.payment.executor.ts: what is read from a callback's payload.
use aspin_partners_bridge.Common.{String, ◌++◌, ℕ, ◌||◌, if◌then◌else◌}
use aspin_partners_bridge.Value.{Value, num, whole, or_else, is_text}
use aspin_partners_bridge.Effects.{Prog, ret, ◌>>=◌, read, Host, to_text}

unfoldable pub extract_transaction_id : Value → Prog Value
extract_transaction_id payload = do
  snake ← read payload "transaction_id"
  camel ← read payload "transactionId"
  pascal ← read payload "TransactionID"
  ret (or_else (or_else snake camel) pascal)

-- The status that a callback's `status`, `Status` or `ResultCode` stands for.
unfoldable pub normalize_status : Value → String
normalize_status status =
    if is_text status "0" || is_text status "completed" || is_text status "SUCCESS"
    then "completed"
    else if is_text status "failed" || is_text status "FAILED"
    then "failed"
    else "pending"

unfoldable pub extract_status_from_callback : Value → Prog String
extract_status_from_callback payload = do
  lower ← read payload "status"
  upper ← read payload "Status"
  result_code ← read payload "ResultCode"
  ret (normalize_status (or_else (or_else lower upper) result_code))

-- `Date.now()` and the random number below 10000 are arguments.
unfoldable pub generate_transaction_id : Host → String → String → ℕ → ℕ → String
generate_transaction_id h partner channel timestamp random =
    channel
    ++ "_"
    ++ partner
    ++ "_"
    ++ to_text h (num (whole timestamp))
    ++ "_"
    ++ to_text h (num (whole random))
