-- ===== src/Rabbitmq/Connection.antt =====
-- rabbitmq.service.ts: `connect` and `close`. The service keeps a connection and a channel, and
-- timers that connect again; amqplib answers its calls and closes connections at any time.
pub mod Revival
use aspin_partners_bridge.Common.{
  ℕ, suc, ◌+◌, Bool, true, false, not, ◌&&◌, Option, none, some, List, [], ◌∷◌, any, eqb, ◌≡◌,
  if◌then◌else◌,
}
use aspin_partners_bridge.Value.{Value, str, or_else}
use aspin_partners_bridge.Effects.{Services}

-- An open connection; `watched` if the service listens to its `close` event.
pub record Link : Type 0 where
  pub id : ℕ
  pub watched : Bool

-- `this.connection`, `this.channel`, the open connections, and how many timers are waiting.
pub record Broker : Type 0 where
  pub connection : Option ℕ
  pub channel : Option ℕ
  pub links : List Link
  pub timers : ℕ

-- What the calls of one `connect` come to: amqp.connect, createChannel or assertExchange rejects,
-- or all resolve. The numbers name the connection and the channel that amqplib made.
pub data Attempt : Type 0 where
  refused : Attempt
  no_channel : ℕ → Attempt
  no_exchange connected : ℕ → ℕ → Attempt

abbrev pub is_link : ℕ → Link → Bool
is_link c l = eqb l.id c

-- The service listens to the connection.
abbrev pub is_watched : ℕ → List Link → Bool
is_watched c = any (λ l. is_link c l && l.watched)

abbrev pub without_link : ℕ → List Link → List Link
without_link c [] = []
without_link c (l ∷ ls) = if is_link c l then without_link c ls else l ∷ without_link c ls

-- `configService.get('RABBITMQ_URL') || 'amqp://localhost:5672'`
abbrev pub rabbitmq_url : Services → Value
rabbitmq_url s = or_else (s.config_get "RABBITMQ_URL") (str "amqp://localhost:5672")

-- `setTimeout(() => this.connect(), 5000)`
unfoldable pub set_timer : Broker → Broker
set_timer b = record b { timers = suc b.timers }

-- The fields are assigned as the calls resolve; the listeners are added last.
unfoldable pub connect : Attempt → Broker → Broker
connect refused b = set_timer b
connect (no_channel c) b =
    set_timer
      (record b { connection = some c; links = record { id = c; watched = false } ∷ b.links })
connect (no_exchange c h) b = set_timer (record b {
  connection = some c;
  channel = some h;
  links = record { id = c; watched = false } ∷ b.links;
})
connect (connected c h) b = record b {
  connection = some c;
  channel = some h;
  links = record { id = c; watched = true } ∷ b.links;
}

-- A connection closes, on whichever side. The fields keep what they hold.
unfoldable pub lose : ℕ → Broker → Broker
lose c b =
    let rest = record b { links = without_link c b.links } in
    if is_watched c b.links then set_timer rest else rest

-- `close`: the channel first; an error, which is logged, keeps the connection open.
unfoldable pub close : (channel_closes connection_closes : Bool) → Broker → Broker
close channel_closes connection_closes b = elim b.connection [
  | none ↦ b
  | some c ↦ if channel_closes && connection_closes then lose c b else b
]

abbrev pub initial : Broker
initial = record { connection = none; channel = none; links = []; timers = 0 }

-- What can happen to a service that has started: a timer fires, a connection closes by itself, or
-- the service is asked to close.
pub data Step (b : Broker) : Broker → Type 0 where
  fires : {n : ℕ} → b.timers ≡ suc n → (a : Attempt) → Step b (connect a (record b { timers = n }))
  drops : (c : ℕ) → Step b (lose c b)
  closes : (ch co : Bool) → Step b (close ch co b)

-- `onModuleInit` connects once.
pub data Reach : Broker → Type 0 where
  starts : (a : Attempt) → Reach (connect a initial)
  later : {b d : Broker} → Reach b → Step b d → Reach d
