-- ===== src/Tests.antt =====
-- The data of the examples: a payment of Britam, a runtime and an outside that answers it.
pub mod Examples
pub mod Interleaved
pub mod Validated
pub mod Queues
pub mod Outside
pub mod Store
pub mod Runs
use aspin_partners_bridge.Common.{ℕ, ◌+◌, String, ◌++◌, false, true, none, some, [], ◌∷◌}
use aspin_partners_bridge.Value.{Value, str, num, whole, object}
use aspin_partners_bridge.Errors.{foreign}
use aspin_partners_bridge.Domain.{PaymentEntity, PaymentInitiationPayload}
use aspin_partners_bridge.Effects.{
  ok, err, Call, Reply, Host, Services, find_by_transaction_id, find_by_reference, save_payment,
  update_payment, redis_set_nx, redis_del, add_job, has_amqp_channel, amqp_publish, http_request,
  metric, now,
}
use aspin_partners_bridge.Effects.Run.{Environment}
use aspin_partners_bridge.Queue.Worker.{Job}
use aspin_partners_bridge.Presentation.Controllers.{InitiatePaymentDto}

abbrev pub host : Host
host = record {
  hmac_sha256_hex = λ key text. key ++ ":" ++ text;
  json_stringify = λ v. "{}";
  number_text = λ n. "7";
  array_text = λ xs. "";
  to_iso_string = λ t. "2024-01-01T00:00:00.000Z";
}

abbrev pub services : Services
services = record {
  host = host;
  config_get = λ key. str "secret";
  get_secret = λ id. ok (object (("webhookSecret", str "secret") ∷ []));
}

abbrev pub payment : PaymentEntity
payment = record {
  reference = "policy-7";
  transaction_id = str "tx-7";
  partner_id = "BRITAM";
  channel = "MPESA";
  customer_id = "254700000007";
  amount = num (whole 250);
  currency = "KES";
  status = "pending";
  gateway = "MPESA";
  phone_number = "254700000007";
  processed = false;
  created_at = 1000;
  updated_at = 1000;
}

-- The hub reports the payment as completed; every call succeeds. The world counts the calls.
abbrev pub reply : (c : Call) → ℕ → Reply c
reply (find_by_transaction_id id) n = ok (some payment)
reply (find_by_reference r) n = ok none
reply (save_payment p) n = ok tt
reply (update_payment id p) n = ok tt
reply (redis_set_nx k v ttl) n = ok (some "OK")
reply (redis_del k) n = ok tt
reply (add_job j) n = ok tt
reply has_amqp_channel n = true
reply (amqp_publish e k m) n = ok true
reply (http_request q) n = ok (object (("status", str "completed") ∷ []))
reply (metric m) n = tt
reply now n = 5000 + n

abbrev pub outside : Environment ℕ
outside = record { answer = reply; after = λ c n. n + 1 }

-- A callback with the signature of the example's runtime.
abbrev pub callback : Value
callback = object (
    ("transaction_id", str "tx-7")
    ∷ ("status", str "completed")
    ∷ ("signature", str "secret:{}")
    ∷ [])

abbrev pub initiation : PaymentInitiationPayload
initiation = record {
  amount = whole 250;
  currency = "KES";
  customer_id = "254700000007";
  reference = "policy-7";
  phone_number = "254700000007";
  partner_id = "BRITAM";
  channel = "MPESA";
}

abbrev pub request : InitiatePaymentDto
request = record {
  amount = whole 250;
  currency = "KES";
  customer_id = "254700000007";
  phone_number = "254700000007";
  reference = "policy-7";
  partner_id = "britam";
  channel = "MPESA";
}

abbrev pub status_job : Job
status_job = record {
  job_data =
      object (
        ("transactionId", str "tx-7")
        ∷ ("partnerId", str "BRITAM")
        ∷ ("channel", str "MPESA")
        ∷ []);
  attempts_made = 2;
}

-- The same outside once the payment is completed and processed.
abbrev pub settled_payment : PaymentEntity
settled_payment = record payment { status = "completed"; processed = true }

abbrev pub settled_reply : (c : Call) → ℕ → Reply c
settled_reply (find_by_transaction_id id) n = ok (some settled_payment)
settled_reply c n = reply c n

abbrev pub settled_outside : Environment ℕ
settled_outside = record { answer = settled_reply; after = λ c n. n + 1 }

-- The same outside with a hub that refuses the connection, and the job of a stored payment.
abbrev pub refusing_reply : (c : Call) → ℕ → Reply c
refusing_reply (find_by_reference r) n = ok (some payment)
refusing_reply (http_request q) n = err (
    foreign (record {
      message = some "connect ECONNREFUSED";
      status_code = none;
      response_status = none;
      code = some "ECONNREFUSED";
    }))
refusing_reply c n = reply c n

abbrev pub refusing_outside : Environment ℕ
refusing_outside = record { answer = refusing_reply; after = λ c n. n + 1 }

abbrev pub push_job : Job
push_job = record {
  job_data =
      object (
        ("reference", str "policy-7")
        ∷ ("partnerId", str "BRITAM")
        ∷ ("channel", str "MPESA")
        ∷ []);
  attempts_made = 0;
}
