-- ===== src/Channels/Callback.antt =====
-- `validateCallback`, which both base channels declare alike, and the query's response.
use aspin_partners_bridge.Common.{String, Bool, false, [], ◌∷◌}
use aspin_partners_bridge.Value.{
  Value, undefined, null, bool, num, str, arr, obj, Fields, end, field, object, rest_of, is_text,
}
use aspin_partners_bridge.Common.{◌||◌, ◌==◌}
use aspin_partners_bridge.Errors.{type_error}
use aspin_partners_bridge.Domain.{ChannelResponse}
use aspin_partners_bridge.Adapters.PaymentHub.{PaymentHubResponse}
use aspin_partners_bridge.Effects.{Prog, ret, throw, ◌>>=◌, read, Host, Services}

-- `crypto.createHmac('sha256', key).update(text).digest('hex')`: a key that is no string throws.
unfoldable pub hmac_hex : Host → Value → String → Prog String
hmac_hex h (str key) text = ret (h.hmac_sha256_hex key text)
hmac_hex h undefined text = throw (type_error "The \"key\" argument must be of type string")
hmac_hex h null text = throw (type_error "The \"key\" argument must be of type string")
hmac_hex h (bool _) text = throw (type_error "The \"key\" argument must be of type string")
hmac_hex h (num _) text = throw (type_error "The \"key\" argument must be of type string")
hmac_hex h (arr _) text = throw (type_error "The \"key\" argument must be of type string")
hmac_hex h (obj _) text = throw (type_error "The \"key\" argument must be of type string")

-- The object that a push or a query returns from the reply of the hub.
unfoldable pub channel_response : PaymentHubResponse → ChannelResponse
channel_response r = record {
  transaction_id = r.transaction_id;
  status = r.status;
  amount = r.amount;
  currency = r.currency;
  timestamp = r.timestamp;
}

abbrev pub response_value : ChannelResponse → Value
response_value r = object (
    ("transactionId", r.transaction_id)
    ∷ ("status", r.status)
    ∷ ("amount", r.amount)
    ∷ ("currency", r.currency)
    ∷ ("timestamp", r.timestamp)
    ∷ [])

abbrev has_field : String → Fields → Bool
has_field k end = false
has_field k (field j v r) = j == k || has_field k r

-- `'key' in v`, for an object.
abbrev pub has_key : Value → String → Bool
has_key (obj fs) k = has_field k fs
has_key _ k = false

module _ (s : Services) where
  unfoldable pub validate_callback : Value → Value → Prog Bool
  validate_callback payload secret = do
    signature ← read payload "signature"
    expected ← hmac_hex s.host secret (s.host.json_stringify (rest_of payload "signature"))
    ret (is_text signature expected)
