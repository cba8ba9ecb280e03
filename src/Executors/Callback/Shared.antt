-- ===== src/Executors/Callback/Shared.antt =====
-- Callbacks of one transaction over one Redis and one database: what each call means for the
-- lock and for the payment's row, and how far a callback has come with them.
pub mod Steps
pub mod Writes
pub mod Turns
pub mod Coupled
pub mod Once
use aspin_partners_bridge.Common.{
  ℕ, suc, List, [], ◌∷◌, String, ◌++◌, Bool, true, false, ◌&&◌, Option, none, some, ◌==◌, ◌≡◌, ◌≢◌,
  count, if◌then◌else◌,
}
use aspin_partners_bridge.Value.{Value}
use aspin_partners_bridge.Domain.{PartialPayment}
use aspin_partners_bridge.Effects.{
  ok, err, Call, find_by_transaction_id, find_by_reference, save_payment, update_payment,
  redis_set_nx, redis_del, add_job, has_amqp_channel, amqp_publish, http_request, metric, now, Host,
  Services, to_text,
}
use aspin_partners_bridge.Effects.Run.{Environment, Event}
use aspin_partners_bridge.Executors.Defs.{Executor, get_partner}
use aspin_partners_bridge.Executors.Lock.{is_ok}
use aspin_partners_bridge.Executors.Callback.Order.{transaction_id_of}

-- A callback of the partner and of the transaction whose identifier reads as this text.
pub record IsAbout (partner transaction : String) (s : Services) (x : Executor) (payload : Value)
    : Type 0 where
  pub same_partner : get_partner x ≡ partner
  pub same_transaction : to_text s.host (transaction_id_of payload) ≡ transaction

-- What a call with its reply does: the lock is granted, the row is read as unprocessed, the row
-- is stored as processed or such an update fails, an event is published, the lock is given back.
-- Elsewhere is a call that touches another lock or another row, or that no callback makes.
pub data Deed : Type 0 where
  neutral granted saw_open stored attempted published gave_back elsewhere : Deed

abbrev pub marks : Option Bool → Bool
marks none = false
marks (some b) = b

abbrev pub is_stored : Deed → Bool
is_stored stored = true
is_stored _ = false

abbrev pub is_published : Deed → Bool
is_published published = true
is_published _ = false

-- Where a callback stands: before the lock, under it (nothing read, an unprocessed row read, the
-- row stored, the event published, an update failed), or after it.
pub data Turn : Type 0 where
  outside entered open_row settled announced spent left out_of_order : Turn

abbrev pub next : Turn → Deed → Turn
next τ neutral = τ
next outside granted = entered
next outside saw_open = outside
next entered saw_open = open_row
next open_row stored = settled
next open_row attempted = spent
next settled published = announced
next entered gave_back = left
next open_row gave_back = left
next settled gave_back = left
next announced gave_back = left
next spent gave_back = left
next _ _ = out_of_order

-- How many members of a list pass a test.
abbrev pub more : Bool → ℕ → ℕ
more b n = if b then suc n else n

abbrev pub tally : {A : Type 0} → (A → Bool) → List A → ℕ
tally p [] = 0
tally p (a ∷ l) = more (p a) (tally p l)

abbrev pub under_lock : Turn → Bool
under_lock outside = false
under_lock left = false
under_lock out_of_order = false
under_lock _ = true

module _ (h : Host) (partner transaction : String) where
  abbrev pub key : String
  key = "callback:" ++ partner ++ ":" ++ transaction

  abbrev pub is_mine : Value → Bool
  is_mine v = to_text h v == transaction

  abbrev pub deed : Event → Deed
  deed (redis_set_nx k v ttl, ok o) =
      if k == key then (if is_ok o then granted else neutral) else elsewhere
  deed (redis_set_nx k v ttl, err e) = neutral
  deed (find_by_transaction_id id, ok (some p)) =
      if is_mine id then (if p.processed then neutral else saw_open) else elsewhere
  deed (find_by_transaction_id id, r) = neutral
  deed (update_payment id c, ok u) = if is_mine id && marks c.processed then stored else elsewhere
  deed (update_payment id c, err e) =
      if is_mine id && marks c.processed then attempted else elsewhere
  deed (redis_del k, r) = if k == key then gave_back else elsewhere
  deed (amqp_publish e k m, r) = published
  deed (find_by_reference r, a) = elsewhere
  deed (save_payment p, r) = elsewhere
  deed (add_job j, r) = elsewhere
  deed (has_amqp_channel, r) = neutral
  deed (http_request q, r) = neutral
  deed (metric m, r) = neutral
  deed (now, r) = neutral

  abbrev pub judge : Turn → Event → Turn
  judge τ e = next τ (deed e)

  -- The successful updates of the row, and the events published, in a history.
  abbrev pub stores : List Event → ℕ
  stores = tally (λ e. is_stored (deed e))

  abbrev pub publications : List Event → ℕ
  publications = tally (λ e. is_published (deed e))

-- What Redis and Postgres promise about one call, by what the call did: SET NX answers OK only
-- where the key is free, and takes it; the key stays taken until a DEL; a row read is the row as
-- it stands; an update that succeeds has stored the row, one that fails may have stored it; no
-- other call of these changes the row.
module _ {W : Type 0} (taken processed : W → Bool) where
  abbrev pub Promise : Deed → W → W → Type 0
  Promise granted w v = (taken w ≡ false) × (taken v ≡ true) × (processed v ≡ processed w)
  Promise saw_open w v =
      (taken w ≡ true → taken v ≡ true) × (processed v ≡ processed w) × (processed w ≡ false)
  Promise stored w v = (taken w ≡ true → taken v ≡ true) × (processed v ≡ true)
  Promise attempted w v =
      (taken w ≡ true → taken v ≡ true) × (processed w ≡ true → processed v ≡ true)
  Promise gave_back w v = processed v ≡ processed w
  Promise elsewhere w v = Unit
  Promise _ w v = (taken w ≡ true → taken v ≡ true) × (processed v ≡ processed w)

pub record SharedStore {W : Type 0} (env : Environment W) (h : Host) (partner transaction : String)
    : Type 0 where
  pub taken : W → Bool
  pub processed : W → Bool
  pub promise :
      (c : Call) (w : W)
      → Promise taken processed (deed h partner transaction (c, env.answer c w)) w (env.after c w)
