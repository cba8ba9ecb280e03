-- ===== src/Executors/Publish/Announced.antt =====
-- `publishPaymentResult`: the notification of Aspin and the whole of what is sent.
use aspin_partners_bridge.Common.{
  ℕ, String, ◌∷◌, [], ◌++◌, Option, none, some, ◌≡◌, refl, ◌∙◌, ap, ◌⊎◌, inl, inr,
}
use aspin_partners_bridge.Value.{Value, str, num, bool, arr, obj, object, undefined, null}
use aspin_partners_bridge.Domain.{PaymentEntity, PaymentNotificationResponse}
use aspin_partners_bridge.Effects.{
  ok, err, now, http_request, HttpRequest, Services, ret, to_text, try_catch,
}
use aspin_partners_bridge.Effects.Run.{Environment, run, trace}
use aspin_partners_bridge.Effects.Logic.{Hoare, returns-run, observe}
use aspin_partners_bridge.Effects.Logic.Rules.{
  bind-Hoare, ret-Hoare, throw-Hoare, attempt-Hoare, call-Hoare, try_catch-Hoare, weaken,
  given-Hoare,
}
use aspin_partners_bridge.Adapters.Aspin.{notify_payment_status, make_http_request}
use aspin_partners_bridge.Adapters.Http.{send}
use aspin_partners_bridge.Channels.Callback.{hmac_hex}
use aspin_partners_bridge.Executors.Publish.{aspin_status, notify_aspin, publish_payment_result}
use aspin_partners_bridge.Executors.Publish.Notices.{
  Message, Notice, waiting, timed, announced, notified, advance, message_at, Told, Announced,
  told_status, IsTold, publish_event-Hoare,
}

module _ (s : Services) (payment : PaymentEntity) (status : Value) where
  abbrev Signed : Value → String → Type 0
  Signed (str key) signature =
      signature
      ≡ s.host.hmac_sha256_hex key (to_text s.host payment.transaction_id ++ to_text s.host status)
  Signed _ signature = ⊥

  sign-Hoare :
      (t : ℕ) (o : Option Message) (v : Value)
      → Hoare advance
          (λ σ. σ ≡ announced t o)
          (hmac_hex s.host v (to_text s.host payment.transaction_id ++ to_text s.host status))
          (λ signature σ. Signed v signature × (σ ≡ announced t o))
          (λ _. (Told s payment status) v t o)
  unfolding hmac_hex
  sign-Hoare t o (str key) = ret-Hoare advance _ (λ σ e. (refl, e))
  sign-Hoare t o undefined = throw-Hoare advance _ (λ σ e. e)
  sign-Hoare t o null = throw-Hoare advance _ (λ σ e. e)
  sign-Hoare t o (bool b) = throw-Hoare advance _ (λ σ e. e)
  sign-Hoare t o (num n) = throw-Hoare advance _ (λ σ e. e)
  sign-Hoare t o (arr xs) = throw-Hoare advance _ (λ σ e. e)
  sign-Hoare t o (obj fs) = throw-Hoare advance _ (λ σ e. e)

  -- The notification with a given signature.
  abbrev signed_at : String → ℕ → PaymentNotificationResponse
  signed_at signature t = record {
    transaction_id = payment.transaction_id;
    status = str (told_status status);
    amount = payment.amount;
    currency = str payment.currency;
    timestamp = s.host.to_iso_string t;
    signature = signature;
  }

  abbrev request_at : String → ℕ → HttpRequest
  request_at signature t = record {
    method = "POST";
    url = to_text s.host (s.config_get "ASPIN_API_BASE_URL") ++ "/" ++ "payments/status-update";
    headers =
        ("Accept", str "application/json")
        ∷ ("Content-Type", str "application/json")
        ∷ ("x-api-key", s.config_get "ASPIN_API_KEY")
        ∷ [];
    payload = object (
        ("transaction_id", payment.transaction_id)
        ∷ ("status", str (told_status status))
        ∷ ("amount", payment.amount)
        ∷ ("currency", str payment.currency)
        ∷ ("timestamp", str (s.host.to_iso_string t))
        ∷ ("signature", str signature)
        ∷ []);
    timeout = 10000;
  }

  request-Hoare :
      (t : ℕ) (o : Option Message) (signature : String)
      → Hoare advance
          (λ σ. σ ≡ announced t o)
          (notify_payment_status s (signed_at signature t))
          (λ _ σ. σ ≡ notified t o (request_at signature t))
          (λ _ σ. σ ≡ notified t o (request_at signature t))
  unfolding notify_payment_status make_http_request send
  request-Hoare t o signature =
      bind-Hoare advance {R = λ _ σ. σ ≡ notified t o (request_at signature t)}
        (try_catch-Hoare advance {E' = λ _ σ. σ ≡ notified t o (request_at signature t)} _ _
          (attempt-Hoare advance (http_request (request_at signature t)) _ (λ σ. elim [
            | ok v ↦ λ e. ap (λ z. advance z (http_request (request_at signature t), ok v)) e
            | err f ↦ λ e. ap (λ z. advance z (http_request (request_at signature t), err f)) e
          ]))
          (λ e. throw-Hoare advance _ (λ σ q. q)))
        (λ v. ret-Hoare advance tt (λ σ q. q))

  told :
      (t : ℕ) (o : Option Message) (v : Value) (signature : String) (σ : Notice)
      → Signed v signature
      → σ ≡ notified t o (request_at signature t)
      → (Told s payment status) v t o σ
  told t o (str key) signature σ e q = q ∙ ap (λ z. notified t o (request_at z t)) e
  told t o undefined signature σ e q = absurd e
  told t o null signature σ e q = absurd e
  told t o (bool b) signature σ e q = absurd e
  told t o (num n) signature σ e q = absurd e
  told t o (arr xs) signature σ e q = absurd e
  told t o (obj fs) signature σ e q = absurd e

  notify-Hoare :
      (t : ℕ) (o : Option Message)
      → Hoare advance
          (λ σ. σ ≡ announced t o)
          (notify_aspin s payment status (s.host.to_iso_string t))
          (λ _. (Told s payment status) (s.config_get "ASPIN_ADAPTER_SIGNATURE_SECRET") t o)
          (λ _. (Told s payment status) (s.config_get "ASPIN_ADAPTER_SIGNATURE_SECRET") t o)
  unfolding notify_aspin aspin_status
  notify-Hoare t o =
      bind-Hoare advance (sign-Hoare t o (s.config_get "ASPIN_ADAPTER_SIGNATURE_SECRET"))
        (λ signature. given-Hoare advance (λ e.
          weaken advance (λ σ p. p) (λ u σ q. told t o _ signature σ e q)
            (λ f σ q. told t o _ signature σ e q) (request-Hoare t o signature)))

  Announced-Hoare :
      (t : ℕ)
      → Hoare advance
          ((Announced s payment status) t)
          (try_catch (notify_aspin s payment status (s.host.to_iso_string t)) (λ error. ret tt))
          (λ _. (IsTold s payment status))
          (λ _ _. ⊥)
  Announced-Hoare t = record {
    from = λ σ. elim [
      | inl e ↦ (caught none (inl refl)).from σ e
      | inr e ↦ (caught (some ((message_at s payment status) t)) (inr refl)).from σ e
    ];
  }
    where
      caught :
          (o : Option Message)
          → (o ≡ none) ⊎ (o ≡ some ((message_at s payment status) t))
          → Hoare advance
              (λ σ. σ ≡ announced t o)
              (try_catch (notify_aspin s payment status (s.host.to_iso_string t)) (λ error. ret tt))
              (λ _. (IsTold s payment status))
              (λ _ _. ⊥)
      caught o sent =
          weaken advance (λ σ p. p) (λ u σ q. record { time = t; event = o; sent = sent; told = q })
            (λ e σ q. q)
            (try_catch-Hoare advance _ _ (notify-Hoare t o) (λ e. ret-Hoare advance tt (λ σ q. q)))

  publish_payment_result-Hoare :
      Hoare advance
        (λ σ. σ ≡ waiting)
        (publish_payment_result s payment status)
        (λ _. (IsTold s payment status))
        (λ _ _. ⊥)
  unfolding publish_payment_result
  publish_payment_result-Hoare =
      bind-Hoare advance {R = λ t σ. σ ≡ timed t}
        (call-Hoare advance now (λ σ t e. ap (λ z. advance z (now, t)) e))
        (λ t.
          bind-Hoare advance ((publish_event-Hoare s payment status) t) (λ _. Announced-Hoare t))

-- In every environment the publication of a payment's result returns; a failure of RabbitMQ, of the
-- signature or of Aspin is not seen by the caller. It reads the clock once, and publishes at most
-- one event, of that time, to the exchange payment.events, its routing key payment.completed.,
-- payment.failed. or payment.pending. and the partner. The event holds the payment's identifier,
-- partner, channel, amount, currency, customer and reference, with the status. Then it makes one
-- request to Aspin if the configured secret is a string, and none if it is not: a POST to
-- payments/status-update with the payment's identifier, amount and currency, the status
-- "completed" if it is that and "failed" if it is another one, the event's time and the HMAC of the
-- transaction and the status. No other call is made.
pub publish_payment_result_returns :
    {W : Type 0} (env : Environment W) (w : W) (s : Services) (payment : PaymentEntity)
    (status : Value)
    → (u : Unit {0}) × (run env (publish_payment_result s payment status) w ≡ ok u)
      × IsTold s payment status
          (observe advance waiting (trace env (publish_payment_result s payment status) w))
publish_payment_result_returns env w s payment status =
    returns-run advance env (publish_payment_result s payment status) w waiting
      (publish_payment_result-Hoare s payment status) refl
