-- ===== src/Effects/Defs.antt =====
-- Programs over external calls, with the exceptions of JavaScript.
use aspin_partners_bridge.Common.{ℕ, String, ◌++◌, Bool, Option, none, some, List, if◌then◌else◌}
use aspin_partners_bridge.Value.{Value, Decimal, undefined, null, bool, num, str, arr, obj, Items}
use aspin_partners_bridge.Value.{is_nullish, optional}
use aspin_partners_bridge.Errors.{Error, type_error}
use aspin_partners_bridge.Domain.{PaymentEntity, PartialPayment}

pub data Result (A : Type 0) : Type 0 where
  ok : A → Result A
  err : Error → Result A

-- The options of an axios request, and of a BullMQ job.
pub record HttpRequest : Type 0 where
  pub method : String
  pub url : String
  pub headers : List (String × Value)
  pub payload : Value
  pub timeout : ℕ

pub record JobSpec : Type 0 where
  pub queue : String
  pub name : String
  pub job_data : Value
  pub delay : Option ℕ
  pub job_id : String

-- A call on a prom-client metric: `inc`, `set` or `observe`.
pub data Measure : Type 0 where
  inc : Measure
  set observe : Decimal → Measure

pub record MetricUpdate : Type 0 where
  pub name : String
  pub labels : List (String × Value)
  pub measure : Measure

pub data Call : Type 0 where
  -- TypeORM: findOneBy({ transactionId }), findOneBy({ reference }), save, update
  find_by_transaction_id find_by_reference : Value → Call
  save_payment : PartialPayment → Call
  update_payment : Value → PartialPayment → Call
  -- Redis: SET key value NX EX seconds, and DEL
  redis_set_nx : String → String → ℕ → Call
  redis_del : String → Call
  -- BullMQ: queue.add
  add_job : JobSpec → Call
  -- amqplib: whether `this.channel` is set, and channel.publish(exchange, key, content)
  has_amqp_channel : Call
  amqp_publish : String → String → String → Call
  -- axios: `response.data` of a request
  http_request : HttpRequest → Call
  -- prom-client and the clock, which do not fail
  metric : MetricUpdate → Call
  now : Call

-- A call that can fail is answered by a value or an error.
abbrev pub Reply : Call → Type 0
Reply (find_by_transaction_id _) = Result (Option PaymentEntity)
Reply (find_by_reference _) = Result (Option PaymentEntity)
Reply (save_payment _) = Result (Unit {0})
Reply (update_payment _ _) = Result (Unit {0})
Reply (redis_set_nx _ _ _) = Result (Option String)
Reply (redis_del _) = Result (Unit {0})
Reply (add_job _) = Result (Unit {0})
Reply has_amqp_channel = Bool
Reply (amqp_publish _ _ _) = Result Bool
Reply (http_request _) = Result Value
Reply (metric _) = Unit {0}
Reply now = ℕ

pub data Prog (A : Type 0) : Type 0 where
  ret : A → Prog A
  throw : Error → Prog A
  ask : (c : Call) → (Reply c → Prog A) → Prog A

-- `abbrev`, so that a handler computes to its next call wherever it stands.
infixl 5 ◌>>=◌ ◌>>◌
abbrev pub ◌>>=◌ : {A B : Type 0} → Prog A → (A → Prog B) → Prog B
ret a >>= f = f a
throw e >>= f = throw e
ask c k >>= f = ask c (λ r. k r >>= f)

abbrev pub ◌>>◌ : {A B : Type 0} → Prog A → Prog B → Prog B
m >> k = m >>= λ _. k

unfoldable pub lift : {A : Type 0} → Result A → Prog A
lift (ok a) = ret a
lift (err e) = throw e

-- A call that cannot fail, and one that can.
unfoldable pub call : (c : Call) → Prog (Reply c)
call c = ask c ret

unfoldable pub attempt : {A : Type 0} (c : Call) → (Reply c → Result A) → Prog A
unfolding lift
attempt c f = ask c (λ r. lift (f r))

-- `if (!value) throw error`, and `if (value) throw error`
unfoldable pub or_throw : {A : Type 0} → Option A → Error → Prog A
or_throw none e = throw e
or_throw (some a) e = ret a

unfoldable pub throw_if : {A : Type 0} → Option A → Error → Prog (Unit {0})
throw_if none e = ret tt
throw_if (some a) e = throw e

-- `try { m } catch (error) { h(error) }`
abbrev pub try_catch : {A : Type 0} → Prog A → (Error → Prog A) → Prog A
try_catch (ret a) h = ret a
try_catch (throw e) h = h e
try_catch (ask c k) h = ask c (λ r. try_catch (k r) h)

-- `try { m } finally { f }`
abbrev pub try_finally : {A : Type 0} → Prog A → Prog (Unit {0}) → Prog A
try_finally (ret a) f = f >> ret a
try_finally (throw e) f = f >> throw e
try_finally (ask c k) f = ask c (λ r. try_finally (k r) f)

-- `v.key`: a read from null or undefined throws.
unfoldable pub read : Value → String → Prog Value
read v k =
    if is_nullish v
    then throw (type_error ("Cannot read properties of null or undefined (reading '" ++ k ++ "')"))
    else ret (optional v k)

-- Functions of the runtime, which the program uses and does not define: HMAC-SHA256 in
-- hexadecimal (key, message), JSON.stringify, the text of a number, an array or an object in a
-- template, and Date.prototype.toISOString.
pub record Host : Type 0 where
  pub hmac_sha256_hex : String → String → String
  pub json_stringify : Value → String
  pub number_text : Decimal → String
  pub array_text : Items → String
  pub to_iso_string : ℕ → String

-- What the container injects: the runtime, ConfigService.get, and what the SecretsManager resolves
-- or rejects a secret with.
pub record Services : Type 0 where
  pub host : Host
  pub config_get : String → Value
  pub get_secret : String → Result Value

module _ (h : Host) where
  -- A value inside a template literal.
  unfoldable pub to_text : Value → String
  to_text undefined = "undefined"
  to_text null = "null"
  to_text (bool b) = if b then "true" else "false"
  to_text (num n) = h.number_text n
  to_text (str s) = s
  to_text (arr xs) = h.array_text xs
  to_text (obj _) = "[object Object]"

-- To unfold this is to unfold what every handler is made of.
unfoldable pub effects : Unit {0}
unfolding lift call attempt or_throw throw_if read
effects = tt
