-- ===== src/Adapters/PaymentHub.antt =====
-- infrastructure/adapters/paymenthub.adapter.ts. A failed request becomes a PaymentHubException
-- that keeps the message only.
use aspin_partners_bridge.Common.{String, ◌++◌}
use aspin_partners_bridge.Value.{Value, undefined, str, or_else}
use aspin_partners_bridge.Errors.{raised, payment_hub, error_message}
use aspin_partners_bridge.Effects.{Prog, ret, throw, ◌>>=◌, try_catch, read, Services, to_text}
use aspin_partners_bridge.Adapters.Http.{send}

-- `PaymentHubInitiateResponse` and `PaymentHubStatusResponse`, which have the same fields.
pub record PaymentHubResponse : Type 0 where
  pub transaction_id : Value
  pub status : Value
  pub amount : Value
  pub currency : Value
  pub timestamp : Value

-- The fields of `response.data` as they are.
unfoldable pub response_of : Value → Prog PaymentHubResponse
response_of response = do
  transaction_id ← read response "transaction_id"
  status ← read response "status"
  amount ← read response "amount"
  currency ← read response "currency"
  timestamp ← read response "timestamp"
  ret (record {
    transaction_id = transaction_id;
    status = status;
    amount = amount;
    currency = currency;
    timestamp = timestamp;
  })

module _ (s : Services) where
  unfoldable pub make_http_request : String → String → Value → Prog Value
  make_http_request method path payload =
      try_catch (send s "PAYMENTHUB_API_BASE_URL" "PAYMENTHUB_API_KEY" method path payload)
        (λ e. throw (raised (payment_hub (error_message e))))

  unfoldable pub initiate_mpesa_payment : Value → Prog PaymentHubResponse
  initiate_mpesa_payment payload = do
    response ← make_http_request "POST" "api/payments/mpesa/initiate" payload
    response_of response

  unfoldable pub initiate_airtel_payment : Value → Prog PaymentHubResponse
  initiate_airtel_payment payload = do
    response ← make_http_request "POST" "api/payments/airtel/initiate" payload
    response_of response

  unfoldable pub query_mpesa_status : Value → Prog PaymentHubResponse
  query_mpesa_status transaction_id = do
    response ←
        make_http_request "GET" ("api/payments/mpesa/status/" ++ to_text s.host transaction_id)
          undefined
    r ← response_of response
    ret (record r {
      transaction_id = or_else r.transaction_id transaction_id;
      status = or_else r.status (str "pending");
    })

  unfoldable pub query_airtel_status : Value → Prog PaymentHubResponse
  query_airtel_status transaction_id = do
    response ←
        make_http_request "GET" ("api/payments/airtel/status/" ++ to_text s.host transaction_id)
          undefined
    r ← response_of response
    ret (record r {
      transaction_id = or_else r.transaction_id transaction_id;
      status = or_else r.status (str "pending");
    })
