-- ===== src/Rabbitmq/Connection/Revival.antt =====
-- rabbitmq.service.ts: how the service comes back after its connection closes.
use aspin_partners_bridge.Common.{
  ℕ, ◌<◌, Bool, true, false, false-true, ◌&&◌, ◌||◌, Option, none, some, List, [], ◌∷◌, any, ◌≡◌,
  refl, sym, ap, ◌∙◌, ◌⊎◌, inl, inr, arith, if◌then◌else◌,
}
use aspin_partners_bridge.Rabbitmq.Connection.{
  Link, Broker, Attempt, refused, no_channel, no_exchange, connected, is_link, is_watched,
  without_link, set_timer, connect, lose, close, initial, Step, fires, drops, closes, Reach, starts,
  later,
}

-- A connection that the service listens to is open, or it will connect again.
abbrev pub IsAlive : Broker → Type 0
IsAlive b = (any (λ l. l.watched) b.links ≡ true) ⊎ (0 < b.timers)

connect-IsAlive : (a : Attempt) (b : Broker) → IsAlive (connect a b)
unfolding connect set_timer
connect-IsAlive refused b = inr (omega arith)
connect-IsAlive (no_channel c) b = inr (omega arith)
connect-IsAlive (no_exchange c h) b = inr (omega arith)
connect-IsAlive (connected c h) b = inl refl

-- Of the links that are watched, one was lost or one is left.
lost_or_left :
    (c : ℕ) (ls : List Link)
    → any (λ l. l.watched) ls ≡ true
    → (is_watched c ls ≡ true) ⊎ (any (λ l. l.watched) (without_link c ls) ≡ true)
lost_or_left c [] h = absurd (false-true h)
lost_or_left c (l ∷ ls) h = at (is_link c l) l.watched refl h (lost_or_left c ls)
  where
    at :
        (b w : Bool)
        → l.watched ≡ w
        → (w || any (λ l. l.watched) ls) ≡ true
        → (any (λ l. l.watched) ls ≡ true
            → (is_watched c ls ≡ true) ⊎ (any (λ l. l.watched) (without_link c ls) ≡ true))
        → ((b && w || is_watched c ls) ≡ true)
          ⊎ (any (λ l. l.watched) (if b then without_link c ls else l ∷ without_link c ls) ≡ true)
    at true true e h k = inl refl
    at false true e h k = inr (ap (λ z. z || any (λ l. l.watched) (without_link c ls)) e)
    at true false e h k = k h
    at false false e h k = elim (k h) [
      | inl lost ↦ inl lost
      | inr left ↦ inr (ap (λ z. z || any (λ l. l.watched) (without_link c ls)) e ∙ left)
    ]

lose-IsAlive : (c : ℕ) (b : Broker) → IsAlive b → IsAlive (lose c b)
unfolding lose set_timer
lose-IsAlive c b h = at (is_watched c b.links) refl h
  where
    rest : Broker
    rest = record b { links = without_link c b.links }

    at :
        (w : Bool)
        → is_watched c b.links ≡ w
        → IsAlive b
        → IsAlive (if w then set_timer rest else rest)
    at true e h = inr (omega arith)
    at false e (inr t) = inr t
    at false e (inl watched) = elim (lost_or_left c b.links watched) [
      | inl lost ↦ absurd (false-true (sym e ∙ lost))
      | inr left ↦ inl left
    ]

close-IsAlive : (ch co : Bool) (b : Broker) → IsAlive b → IsAlive (close ch co b)
unfolding close
close-IsAlive ch co b h = at b.connection (ch && co)
  where
    at :
        (o : Option ℕ) (w : Bool)
        → IsAlive (elim o [ none ↦ b | some c ↦ if w then lose c b else b ])
    at none w = h
    at (some c) true = lose-IsAlive c b h
    at (some c) false = h

Step-IsAlive : {b d : Broker} → Step b d → IsAlive b → IsAlive d
Step-IsAlive (fires e a) h = connect-IsAlive a _
Step-IsAlive {b} (drops c) h = lose-IsAlive c b h
Step-IsAlive {b} (closes ch co) h = close-IsAlive ch co b h

-- The service never gives up: at every moment after its start, whatever the attempts to connect
-- come to, whichever connections close and however often it is asked to close, it listens to an
-- open connection or a timer waits to connect again.
pub service_never_gives_up : (b : Broker) → Reach b → IsAlive b
service_never_gives_up _ (starts a) = connect-IsAlive a initial
service_never_gives_up _ (later r t) = Step-IsAlive t (service_never_gives_up _ r)
