-- ===== src/Executors/Publish/Notices.antt =====
-- How far the publication of a result has come, and its event on RabbitMQ.
use aspin_partners_bridge.Common.{
  ℕ, String, ◌∷◌, [], arith, ◌++◌, true, false, Option, none, some, ◌≡◌, sym, ◌∙◌, ap, ◌⊎◌, inl,
  inr, if◌then◌else◌,
}
use aspin_partners_bridge.Value.{Value, str, object, is_text}
use aspin_partners_bridge.Domain.{PaymentEntity}
use aspin_partners_bridge.Effects.{
  ok, err, now, has_amqp_channel, amqp_publish, http_request, HttpRequest, Services, to_text,
}
use aspin_partners_bridge.Effects.Run.{Event}
use aspin_partners_bridge.Effects.Logic.{Hoare}
use aspin_partners_bridge.Effects.Logic.Rules.{
  bind-Hoare, ret-Hoare, attempt-Hoare, call-Hoare, if-Hoare, try_catch-Hoare, weaken,
}
use aspin_partners_bridge.Rabbitmq.{
  exchange_name, event_value, publish, publish_payment_completed, publish_payment_failed,
  publish_payment_pending,
}
use aspin_partners_bridge.Executors.Publish.{event_of, publish_event}

-- An event of RabbitMQ: its exchange, routing key and content.
abbrev pub Message : Type 0
Message = String × String × String

-- How far the publication has come: the clock is read, the channel is there, the event was sent or
-- not, and Aspin was told.
pub data Notice : Type 0 where
  waiting : Notice
  timed ready : ℕ → Notice
  announced : ℕ → Option Message → Notice
  notified : ℕ → Option Message → HttpRequest → Notice
  broken : Notice

abbrev pub advance : Notice → Event → Notice
advance waiting (now, t) = timed t
advance (timed t) (has_amqp_channel, false) = announced t none
advance (timed t) (has_amqp_channel, true) = ready t
advance (ready t) (amqp_publish e k m, r) = announced t (some (e, k, m))
advance (announced t o) (http_request q, r) = notified t o q
advance σ e = broken

-- What the routing key starts with.
abbrev pub prefix : Value → String
prefix status =
    if is_text status "completed"
    then "payment.completed."
    else if is_text status "failed"
    then "payment.failed."
    else "payment.pending."

-- What Aspin is told of a status.
abbrev pub told_status : Value → String
told_status status = if is_text status "completed" then "completed" else "failed"

module _ (s : Services) (payment : PaymentEntity) (status : Value) where
  -- The content of the event: the columns of the row with the given status and time.
  abbrev pub content_at : String → Value
  content_at timestamp = object (
      ("transaction_id", payment.transaction_id)
      ∷ ("partner_id", str payment.partner_id)
      ∷ ("channel", str payment.channel)
      ∷ ("amount", payment.amount)
      ∷ ("currency", str payment.currency)
      ∷ ("status", status)
      ∷ ("timestamp", str timestamp)
      ∷ ("customer_id", str payment.customer_id)
      ∷ ("reference", str payment.reference)
      ∷ [])

  abbrev pub message_at : ℕ → Message
  message_at t = (
    "payment.events",
    prefix status ++ payment.partner_id,
    s.host.json_stringify (content_at (s.host.to_iso_string t)),
  )

  -- The request to Aspin, with the signature of the transaction and the status.
  abbrev pub notification_at : String → ℕ → HttpRequest
  notification_at key t = record {
    method = "POST";
    url = to_text s.host (s.config_get "ASPIN_API_BASE_URL") ++ "/" ++ "payments/status-update";
    headers =
        ("Accept", str "application/json")
        ∷ ("Content-Type", str "application/json")
        ∷ ("x-api-key", s.config_get "ASPIN_API_KEY")
        ∷ [];
    payload = object (
        ("transaction_id", payment.transaction_id)
        ∷ ("status", str (told_status status))
        ∷ ("amount", payment.amount)
        ∷ ("currency", str payment.currency)
        ∷ ("timestamp", str (s.host.to_iso_string t))
        ∷ (
          "signature",
          str (
              s.host.hmac_sha256_hex key
                (to_text s.host payment.transaction_id ++ to_text s.host status)),
        )
        ∷ []);
    timeout = 10000;
  }

  -- Aspin is told exactly if the secret that signs the notification is a string.
  abbrev pub Told : Value → ℕ → Option Message → Notice → Type 0
  Told (str key) t o σ = σ ≡ notified t o (notification_at key t)
  Told _ t o σ = σ ≡ announced t o

  abbrev pub Announced : ℕ → Notice → Type 0
  Announced t σ = (σ ≡ announced t none) ⊎ (σ ≡ announced t (some (message_at t)))

  pub record IsTold (σ : Notice) : Type 0 where
    pub time : ℕ
    pub event : Option Message
    pub sent : (event ≡ none) ⊎ (event ≡ some (message_at time))
    pub told : Told (s.config_get "ASPIN_ADAPTER_SIGNATURE_SECRET") time event σ

  publish-Hoare :
      (t : ℕ) (key : String) (v : Value)
      → Hoare advance
          (λ σ. σ ≡ timed t)
          (publish s exchange_name key v)
          (λ _ σ.
            (σ ≡ announced t none)
            ⊎ (σ ≡ announced t (some ("payment.events", key, s.host.json_stringify v))))
          (λ _ _. ⊥)
  unfolding publish
  publish-Hoare t key v =
      try_catch-Hoare advance
        {E' = λ _ σ. σ ≡ announced t (some ("payment.events", key, s.host.json_stringify v))} _ _
        (bind-Hoare advance {R = λ b σ. σ ≡ (if b then ready t else announced t none)}
          (call-Hoare advance has_amqp_channel (λ σ. elim [
            | true ↦ λ e. ap (λ z. advance z (has_amqp_channel, true)) e
            | false ↦ λ e. ap (λ z. advance z (has_amqp_channel, false)) e
          ]))
          (elim [
            | true ↦
                attempt-Hoare advance (amqp_publish exchange_name key (s.host.json_stringify v)) _
                  (λ σ. elim [
                    | ok b ↦ λ e. inr (
                        ap
                          (λ z.
                            advance z
                              (amqp_publish exchange_name key (s.host.json_stringify v), ok b))
                          e)
                    | err f ↦ λ e.
                        ap
                          (λ z.
                            advance z
                              (amqp_publish exchange_name key (s.host.json_stringify v), err f))
                          e
                  ])
            | false ↦ ret-Hoare advance false (λ σ e. inl e)
          ]))
        (λ f. ret-Hoare advance false (λ σ e. inr e))

  -- The event under the prefix of its status.
  worded-Hoare :
      (t : ℕ) (w : String)
      → prefix status ≡ w
      → Hoare advance
          (λ σ. σ ≡ timed t)
          (publish s exchange_name
            (w ++ payment.partner_id)
            (event_value (event_of s payment status (s.host.to_iso_string t))))
          (λ _. Announced t)
          (λ _ _. ⊥)
  unfolding event_of
  worded-Hoare t w same =
      weaken advance (λ σ p. p)
        (λ b σ. elim [
          | inl e ↦ inl e
          | inr e ↦ inr (
              e
              ∙ ap
                  (λ z. announced t (
                    some (
                      "payment.events",
                      z ++ payment.partner_id,
                      s.host.json_stringify
                          (event_value (event_of s payment status (s.host.to_iso_string t))),
                    )))
                  (sym same))
        ])
        (λ e σ q. q)
        (publish-Hoare t (w ++ payment.partner_id)
          (event_value (event_of s payment status (s.host.to_iso_string t))))

  pub publish_event-Hoare :
      (t : ℕ)
      → Hoare advance
          (λ σ. σ ≡ timed t)
          (publish_event s (event_of s payment status (s.host.to_iso_string t)) status)
          (λ _. Announced t)
          (λ _ _. ⊥)
  unfolding publish_event publish_payment_completed publish_payment_failed publish_payment_pending
      event_of
  publish_event-Hoare t =
      if-Hoare advance (is_text status "completed")
        (λ yes. worded-Hoare t "payment.completed." (ground (arith, yes)))
        (λ no.
          if-Hoare advance (is_text status "failed")
            (λ yes. worded-Hoare t "payment.failed." (ground (arith, no, yes)))
            (λ other. worded-Hoare t "payment.pending." (ground (arith, no, other))))
