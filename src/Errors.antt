-- ===== src/Errors.antt =====
-- shared/exceptions: the exception classes of the program, and what else a handler can catch.
use aspin_partners_bridge.Common.{ℕ, String, ◌++◌, Option, none, some}

-- A class of shared/exceptions with the argument of its constructor.
pub data Exception : Type 0 where
  payment_hub : Option String → Exception
  unsupported_payment_channel : String → Exception
  transaction_not_found : String → Exception
  partner_executor_not_found : String → Exception
  partner_configuration_not_found : String → Exception
  duplicate_transaction_attempt : String → Exception
  invalid_callback_signature : Exception
  unknown_payment_status : Exception
  aspin_adapter : String → Exception
  payload_validation : Option String → Exception

-- The default argument of a constructor.
abbrev or_default : Option String → String → String
or_default none d = d
or_default (some m) d = m

pub message : Exception → String
message (payment_hub m) = or_default m "An error occured while processing your request"
message (unsupported_payment_channel c) = "Unsupported payment channel: " ++ c
message (transaction_not_found t) = "Transaction not found: " ++ t
message (partner_executor_not_found m) = m
message (partner_configuration_not_found m) = "Partner configuration not found: " ++ m
message (duplicate_transaction_attempt m) = m
message invalid_callback_signature = "Invalid callback signature"
message unknown_payment_status = "Unknown status response format"
message (aspin_adapter m) = m
message (payload_validation m) = or_default m "Payload validation failed"

unfoldable pub status_code : Exception → ℕ
status_code (payment_hub _) = 500
status_code (unsupported_payment_channel _) = 400
status_code (transaction_not_found _) = 404
status_code (partner_executor_not_found _) = 404
status_code (partner_configuration_not_found _) = 404
status_code (duplicate_transaction_attempt _) = 409
status_code invalid_callback_signature = 401
status_code unknown_payment_status = 400
status_code (aspin_adapter _) = 500
status_code (payload_validation _) = 400

unfoldable pub error_code : Exception → String
error_code (payment_hub _) = "PAYMENT_HUB:UNKNOWN"
error_code (unsupported_payment_channel _) = "PAYMENT_HUB:PAYMENT_CHANNEL:UNSUPPORTED_CHANNEL"
error_code (transaction_not_found _) = "PAYMENT_HUB:TRANSACTION:RECORD_NOT_FOUND"
error_code (partner_executor_not_found _) = "PAYMENT_HUB:PARTNER_EXECUTOR:RECORD_NOT_FOUND"
error_code (partner_configuration_not_found _) = "PAYMENT_HUB:PARTNER_CONFIG:RECORD_NOT_FOUND"
error_code (duplicate_transaction_attempt _) = "PAYMENT_HUB:TRANSACTION:DUPLICATE_ATTEMPT"
error_code invalid_callback_signature = "PAYMENT_HUB:TRANSACTION:INVALID_SIGNATURE"
error_code unknown_payment_status = "PAYMENT_HUB:TRANSACTION:UNKNOWN_STATUS"
error_code (aspin_adapter _) = "ASPIN_SERVICE:UNKNOWN"
error_code (payload_validation _) = "PAYLOAD:VALIDATION:INVALID_PAYLOAD"

-- An error of a library: only the properties that a handler of the program reads.
pub record ForeignError : Type 0 where
  pub message : Option String
  pub status_code : Option ℕ
  pub response_status : Option ℕ
  pub code : Option String

pub data Error : Type 0 where
  raised : Exception → Error
  type_error : String → Error
  foreign : ForeignError → Error

-- `error.message`
unfoldable pub error_message : Error → Option String
unfolding message
error_message (raised e) = some (message e)
error_message (type_error m) = some m
error_message (foreign f) = f.message

-- `error.statusCode`
unfoldable pub error_status_code : Error → Option ℕ
unfolding status_code
error_status_code (raised e) = some (status_code e)
error_status_code (type_error m) = none
error_status_code (foreign f) = f.status_code

-- `error.response.status`, if there is an `error.response`.
unfoldable pub error_response_status : Error → Option ℕ
error_response_status (raised e) = none
error_response_status (type_error m) = none
error_response_status (foreign f) = f.response_status

-- `error.code`
unfoldable pub error_connection_code : Error → Option String
error_connection_code (raised e) = none
error_connection_code (type_error m) = none
error_connection_code (foreign f) = f.code
