-- ===== src/Channels/Pushes.antt =====
-- What a push and a debit send to the hub.
use aspin_partners_bridge.Common.{
  String, ◌++◌, to_lower_case, List, [], ◌∷◌, ◌≡◌, refl, ap, ◌∙◌, ◌⊎◌, inl, inr,
}
use aspin_partners_bridge.Value.{Value, str, object, text_or_undefined, optional}
use aspin_partners_bridge.Domain.{MpesaStkPushPayload, AirtelDirectDebitPayload}
use aspin_partners_bridge.Domain.PaymentChannel
use aspin_partners_bridge.Effects.{
  ok, err, HttpRequest, http_request, Services, Prog, read, to_text, ◌>>=◌,
}
use aspin_partners_bridge.Effects.Run.{Environment, Event, run, trace}
use aspin_partners_bridge.Effects.Logic.{Hoare, Hoare-run, Post, observe}
use aspin_partners_bridge.Effects.Logic.Rules.{
  ret-Hoare, throw-Hoare, attempt-Hoare, or_throw-Hoare, weaken, try_catch-Hoare, bind-Hoare,
  given-Hoare, read-Hoare,
}
use aspin_partners_bridge.Effects.Footprint.{Uses-Hoare, NoCall}
use aspin_partners_bridge.Repositories.PartnerConfigurations.Loaded.{config-Hoare}
use aspin_partners_bridge.Adapters.Http.{send}
use aspin_partners_bridge.Adapters.PaymentHub.{
  make_http_request, initiate_mpesa_payment, initiate_airtel_payment,
}
use aspin_partners_bridge.Channels.Mpesa
use aspin_partners_bridge.Channels.Mpesa.{push_request, stk_push}
use aspin_partners_bridge.Channels.Airtel
use aspin_partners_bridge.Channels.Airtel.{debit_request, direct_debit}
use aspin_partners_bridge.Executors.Footprint.{response_of-Uses}

-- The requests that were sent, the last one first.
abbrev pub sent : List HttpRequest → Event → List HttpRequest
sent l (http_request q, r) = q ∷ l
sent l (c, r) = l

module _ (s : Services) where
  -- The request to the hub.
  abbrev pub hub_request : String → Value → HttpRequest
  hub_request path payload = record {
    method = "POST";
    url = to_text s.host (s.config_get "PAYMENTHUB_API_BASE_URL") ++ "/" ++ path;
    headers =
        ("Accept", str "application/json")
        ∷ ("Content-Type", str "application/json")
        ∷ ("x-api-key", s.config_get "PAYMENTHUB_API_KEY")
        ∷ [];
    payload = payload;
    timeout = 10000;
  }

  -- Nothing was sent, or one request: the partner's configuration is the secret, and the payload
  -- of the request is made from it.
  abbrev pub IsSent : Value → String → String → (Value → Value) → List HttpRequest → Type 0
  IsSent partner channel path payload_of l =
      (config : Value) × (s.get_secret (to_text s.host partner ++ "_" ++ to_lower_case channel)
        ≡ ok config)
      × (l ≡ hub_request path (payload_of config) ∷ [])

  abbrev NothingSent : List HttpRequest → Type 0
  NothingSent l = l ≡ []

  request-Hoare :
      (path : String) (payload : Value)
      → Hoare sent NothingSent
          (make_http_request s "POST" path payload)
          (λ _ l. l ≡ hub_request path payload ∷ [])
          (λ _ l. l ≡ hub_request path payload ∷ [])
  unfolding make_http_request send
  request-Hoare path payload =
      try_catch-Hoare sent _ _
        (attempt-Hoare sent (http_request (hub_request path payload)) _ (λ l. elim [
          | ok v ↦ λ e. ap (λ z. hub_request path payload ∷ z) e
          | err f ↦ λ e. ap (λ z. hub_request path payload ∷ z) e
        ]))
        (λ e. throw-Hoare sent _ (λ l q. q))

  initiate_mpesa-Hoare :
      (payload : Value)
      → Hoare sent NothingSent
          (initiate_mpesa_payment s payload)
          (λ _ l. l ≡ hub_request "api/payments/mpesa/initiate" payload ∷ [])
          (λ _ l. l ≡ hub_request "api/payments/mpesa/initiate" payload ∷ [])
  unfolding initiate_mpesa_payment
  initiate_mpesa-Hoare payload =
      bind-Hoare sent (request-Hoare _ payload)
        (λ v. Uses-Hoare sent NoCall (λ c h. absurd h) (response_of-Uses v))

  initiate_airtel-Hoare :
      (payload : Value)
      → Hoare sent NothingSent
          (initiate_airtel_payment s payload)
          (λ _ l. l ≡ hub_request "api/payments/airtel/initiate" payload ∷ [])
          (λ _ l. l ≡ hub_request "api/payments/airtel/initiate" payload ∷ [])
  unfolding initiate_airtel_payment
  initiate_airtel-Hoare payload =
      bind-Hoare sent (request-Hoare _ payload)
        (λ v. Uses-Hoare sent NoCall (λ c h. absurd h) (response_of-Uses v))

  -- A property of the configuration, before anything is sent.
  entry-Hoare :
      {B : Type 0} {Q : B → List HttpRequest → Type 0} {R : List HttpRequest → Type 0}
      {f : Value → Prog B} (config : Value) (k : String)
      → ((v : Value)
          → v ≡ optional config k
          → Hoare sent NothingSent (f v) Q (λ _ l. NothingSent l ⊎ R l))
      → Hoare sent NothingSent (read config k >>= f) Q (λ _ l. NothingSent l ⊎ R l)
  entry-Hoare config k h =
      bind-Hoare sent
        (weaken sent (λ l e. e) (λ a l q. q) (λ e l q. inl q) (read-Hoare sent config k))
        (λ v. given-Hoare sent (h v))

  -- The request that is made from a configuration.
  made-Hoare :
      {A : Type 0} {m : Prog A} (partner : Value) (channel path : String)
      (payload_of : Value → Value) (config payload : Value)
      → s.get_secret (to_text s.host partner ++ "_" ++ to_lower_case channel) ≡ ok config
      → payload ≡ payload_of config
      → Hoare sent NothingSent m
          (λ _ l. l ≡ hub_request path payload ∷ [])
          (λ _ l. l ≡ hub_request path payload ∷ [])
      → Hoare sent NothingSent m
          (λ _. IsSent partner channel path payload_of)
          (λ _ l. NothingSent l ⊎ IsSent partner channel path payload_of l)
  made-Hoare partner channel path payload_of config payload loaded same h =
      weaken sent (λ l e. e) (λ a l q. (config, loaded, q ∙ made))
        (λ e l q. inr (config, loaded, q ∙ made)) h
    where
      made : (hub_request path payload ∷ []) ≡ (hub_request path (payload_of config) ∷ [])
      made i = hub_request path (same i) ∷ []

  -- The payloads, from a configuration.
  abbrev pub push_of : MpesaStkPushPayload → Value → Value
  push_of p config = object (
      ("partnerId", p.partner_id)
      ∷ ("channel", str "MPESA")
      ∷ (
        "credentials",
        object (
            ("consumerKey", optional config "consumerKey")
            ∷ ("consumerSecret", optional config "consumerSecret")
            ∷ ("businessShortCode", optional config "businessShortCode")
            ∷ ("passkey", optional config "passkey")
            ∷ []),
      )
      ∷ (
        "payment",
        object (
            ("phoneNumber", str p.phone_number)
            ∷ ("amount", p.amount)
            ∷ ("accountReference", str p.account_reference)
            ∷ ("transactionDesc", text_or_undefined p.transaction_desc)
            ∷ ("callbackUrl", optional config "callbackUrl")
            ∷ []),
      )
      ∷ [])

  abbrev pub debit_of : AirtelDirectDebitPayload → Value → Value
  debit_of p config = object (
      ("partnerId", p.partner_id)
      ∷ ("channel", str "AIRTEL")
      ∷ (
        "credentials",
        object (
            ("clientId", optional config "clientId")
            ∷ ("clientSecret", optional config "clientSecret")
            ∷ ("merchantId", optional config "merchantId")
            ∷ []),
      )
      ∷ (
        "payment",
        object (
            ("phoneNumber", str p.phone_number)
            ∷ ("amount", p.amount)
            ∷ ("reference", str p.reference)
            ∷ ("country", str "KE")
            ∷ ("currency", str "KES")
            ∷ ("callbackUrl", optional config "callbackUrl")
            ∷ []),
      )
      ∷ [])

  -- The key of the partner's secret is the partner and the channel.
  abbrev pub IsPush : MpesaStkPushPayload → List HttpRequest → Type 0
  IsPush p = IsSent p.partner_id "MPESA" "api/payments/mpesa/initiate" (push_of p)

  abbrev pub IsDebit : AirtelDirectDebitPayload → List HttpRequest → Type 0
  IsDebit p = IsSent p.partner_id "AIRTEL" "api/payments/airtel/initiate" (debit_of p)

  stk_push-Hoare :
      (p : MpesaStkPushPayload)
      → Hoare sent NothingSent (stk_push s p) (λ _. IsPush p) (λ _ l. NothingSent l ⊎ IsPush p l)
  unfolding stk_push Mpesa.load_config
  stk_push-Hoare p =
      bind-Hoare sent
        {R = λ c l.
          (s.get_secret (to_text s.host p.partner_id ++ "_" ++ to_lower_case PaymentChannel.mpesa)
            ≡ ok c.config)
          × NothingSent l}
        (weaken sent (λ l e. e) (λ a l q. q) (λ e l q. inl q)
          (bind-Hoare sent (config-Hoare sent s p.partner_id PaymentChannel.mpesa)
            (λ o. or_throw-Hoare sent o _ (λ l q. q.1) (λ c e l q. (q.0 c e, q.1)))))
        (λ c. given-Hoare sent (λ loaded. entry-Hoare c.config _ (λ consumer_key a.
          entry-Hoare c.config _ (λ consumer_secret b. entry-Hoare c.config _ (λ short_code d.
            entry-Hoare c.config _ (λ passkey e. entry-Hoare c.config _ (λ callback_url f.
              bind-Hoare sent
                (made-Hoare _ _ "api/payments/mpesa/initiate" (push_of p) c.config _ loaded
                  (λ i. push_request (a i) (b i) (d i) (e i) (f i) p) (initiate_mpesa-Hoare _))
                (λ r. ret-Hoare sent _ (λ l q. q)))))))))

  direct_debit-Hoare :
      (p : AirtelDirectDebitPayload)
      → Hoare sent NothingSent
          (direct_debit s p)
          (λ _. IsDebit p)
          (λ _ l. NothingSent l ⊎ IsDebit p l)
  unfolding direct_debit Airtel.load_config
  direct_debit-Hoare p =
      bind-Hoare sent
        {R = λ c l.
          (s.get_secret (to_text s.host p.partner_id ++ "_" ++ to_lower_case PaymentChannel.airtel)
            ≡ ok c.config)
          × NothingSent l}
        (weaken sent (λ l e. e) (λ a l q. q) (λ e l q. inl q)
          (bind-Hoare sent (config-Hoare sent s p.partner_id PaymentChannel.airtel)
            (λ o. or_throw-Hoare sent o _ (λ l q. q.1) (λ c e l q. (q.0 c e, q.1)))))
        (λ c. given-Hoare sent (λ loaded. entry-Hoare c.config _ (λ client_id a.
          entry-Hoare c.config _ (λ client_secret b. entry-Hoare c.config _ (λ merchant_id d.
            entry-Hoare c.config _ (λ callback_url e.
              bind-Hoare sent
                (made-Hoare _ _ "api/payments/airtel/initiate" (debit_of p) c.config _ loaded
                  (λ i. debit_request (a i) (b i) (d i) (e i) p) (initiate_airtel-Hoare _))
                (λ r. ret-Hoare sent _ (λ l q. q))))))))

-- A push sends the order. Whatever the hub answers, a push to M-Pesa that returns has sent exactly
-- one request, and one that throws at most one; so has a debit of Airtel. The request is a POST
-- to the channel's path of the hub, with the configured key and ten seconds. Its payment holds the
-- phone number, the amount and the reference of the order; its credentials and its callback URL
-- are properties of the secret of the partner and the channel, under the names that the request
-- gives them.
pub pushes_send_the_order :
    {W : Type 0} (env : Environment W) (w : W) (s : Services) (push : MpesaStkPushPayload)
    (debit : AirtelDirectDebitPayload)
    → Post
        (λ _. IsPush s push)
        (λ _ l. (l ≡ []) ⊎ IsPush s push l)
        (run env (stk_push s push) w)
        (observe sent [] (trace env (stk_push s push) w))
      × Post
          (λ _. IsDebit s debit)
          (λ _ l. (l ≡ []) ⊎ IsDebit s debit l)
          (run env (direct_debit s debit) w)
          (observe sent [] (trace env (direct_debit s debit) w))
pushes_send_the_order env w s push debit = (
  Hoare-run sent env (stk_push s push) w [] (stk_push-Hoare s push) refl,
  Hoare-run sent env (direct_debit s debit) w [] (direct_debit-Hoare s debit) refl,
)
