-- ===== src/Queue/Worker/HubFailure.antt =====
-- A request to the hub that fails while a payment is pushed.
use aspin_partners_bridge.Common.{String, Option, ◌≡◌, refl, sym, subst, ap, ◌⊎◌, inl, inr, arith}
use aspin_partners_bridge.Value.{Value, is_text}
use aspin_partners_bridge.Errors.{
  Error, raised, payment_hub, error_message, error_response_status, error_connection_code,
}
use aspin_partners_bridge.Domain.{PaymentEntity, MpesaStkPushPayload, AirtelDirectDebitPayload}
use aspin_partners_bridge.Domain.PaymentChannel
use aspin_partners_bridge.Effects.{
  ok, err, Call, Prog, throw, ◌>>◌, HttpRequest, http_request, metric, Services,
}
use aspin_partners_bridge.Effects.Run.{Event, Environment, run, trace}
use aspin_partners_bridge.Effects.Logic.{Hoare, Hoare-run, Post, observe}
use aspin_partners_bridge.Effects.Logic.Rules.{
  bind-Hoare, ret-Hoare, throw-Hoare, attempt-Hoare, if-Hoare, weaken, try_catch-Hoare,
}
use aspin_partners_bridge.Effects.Footprint.{
  Uses, Uses-Hoare, any-Uses, footprint, attempt-Uses, read-Uses, or_throw-Uses,
}
use aspin_partners_bridge.Adapters.Http.{send, request_of}
use aspin_partners_bridge.Adapters.PaymentHub.{
  make_http_request, initiate_mpesa_payment, initiate_airtel_payment, response_of,
}
use aspin_partners_bridge.Repositories.Payments.{get_by_reference}
use aspin_partners_bridge.Channels.{
  Channel, apa_mpesa, britam_mpesa, britam_airtel, stk_push, direct_debit,
}
use aspin_partners_bridge.Channels.Mpesa
use aspin_partners_bridge.Channels.Airtel
use aspin_partners_bridge.Executors.{Executor}
use aspin_partners_bridge.Executors.Builder.Footprint.{get_executor-Uses}
use aspin_partners_bridge.Executors.Footprint.{get_config-Uses, update_metric-Uses}
use aspin_partners_bridge.Queue.Worker.{
  Job, process_payment_initiation_job, push_order, push_payment, count_error,
  count_connection_error,
}
use aspin_partners_bridge.Queue.Worker.Initiation.{count_error-Uses}

-- Whether the hub was asked, and what it answered; a metric after a failure is kept apart.
pub data Push : Type 0 where
  unasked answered failed counted : Push

abbrev pub advance : Push → Event → Push
advance answered e = answered
advance unasked (http_request q, ok v) = answered
advance unasked (http_request q, err e) = failed
advance unasked e = unasked
advance failed (metric u, r) = counted
advance failed e = failed
advance counted e = counted

-- An exception: unless the request failed, anything; and then the adapter's, with no metric.
abbrev pub IsPushError : Error → Push → Type 0
IsPushError e σ =
    ((σ ≡ unasked) ⊎ (σ ≡ answered))
    ⊎ ((σ ≡ failed) × ((m : Option String) × (e ≡ raised (payment_hub m))))

abbrev IsLocal : Call → Type 0
IsLocal (http_request q) = ⊥
IsLocal _ = Unit

local :
    {A : Type 0} {m : Prog A}
    → Uses IsLocal m
    → Hoare advance (λ σ. σ ≡ unasked) m (λ _ σ. σ ≡ unasked) IsPushError
local u =
    weaken advance (λ σ e. e) (λ a σ e. e) (λ e σ q. inl (inl q))
      (Uses-Hoare advance IsLocal (λ c n r σ e. ground (arith, c, n, e)) u)

after_answer :
    {A : Type 0} (m : Prog A)
    → Hoare advance (λ σ. σ ≡ answered) m (λ _ σ. σ ≡ answered) IsPushError
after_answer m =
    weaken advance (λ σ e. e) (λ a σ e. e) (λ e σ q. inl (inr q))
      (Uses-Hoare advance (λ c. Unit {0}) (λ c u r σ e. ap (λ z. advance z (c, r)) e) (any-Uses m))

module _ (s : Services) where
  abbrev hub_request : String → String → Value → HttpRequest
  hub_request = request_of s "PAYMENTHUB_API_BASE_URL" "PAYMENTHUB_API_KEY"

  request-Hoare :
      (method path : String) (v : Value)
      → Hoare advance
          (λ σ. σ ≡ unasked)
          (make_http_request s method path v)
          (λ _ σ. σ ≡ answered)
          IsPushError
  unfolding make_http_request send
  request-Hoare method path v =
      try_catch-Hoare advance {E' = λ _ σ. σ ≡ failed} _ _
        (attempt-Hoare advance (http_request (hub_request method path v)) _ (λ σ. elim [
          | ok u ↦ λ e. ap (λ z. advance z (http_request (hub_request method path v), ok u)) e
          | err f ↦ λ e. ap (λ z. advance z (http_request (hub_request method path v), err f)) e
        ]))
        (λ e. throw-Hoare advance _ (λ σ q. inr (q, (error_message e, refl))))

  mpesa-Hoare :
      (p : MpesaStkPushPayload)
      → Hoare advance (λ σ. σ ≡ unasked) (Mpesa.stk_push s p) (λ _ σ. σ ≡ answered) IsPushError
  unfolding Mpesa.stk_push Mpesa.load_config initiate_mpesa_payment
  mpesa-Hoare p = bind-Hoare advance (local (search (footprint, get_config-Uses) depth 9)) (λ c.
      bind-Hoare advance (local (read-Uses _ _)) (λ k.
        bind-Hoare advance (local (read-Uses _ _)) (λ t.
          bind-Hoare advance (local (read-Uses _ _)) (λ b.
            bind-Hoare advance (local (read-Uses _ _)) (λ q.
              bind-Hoare advance (local (read-Uses _ _)) (λ u.
                bind-Hoare advance
                  (bind-Hoare advance (request-Hoare _ _ _) (λ v. after_answer (response_of v)))
                  (λ r. ret-Hoare advance _ (λ σ e. e))))))))

  airtel-Hoare :
      (p : AirtelDirectDebitPayload)
      → Hoare advance (λ σ. σ ≡ unasked) (Airtel.direct_debit s p) (λ _ σ. σ ≡ answered) IsPushError
  unfolding Airtel.direct_debit Airtel.load_config initiate_airtel_payment
  airtel-Hoare p = bind-Hoare advance (local (search (footprint, get_config-Uses) depth 9)) (λ c.
      bind-Hoare advance (local (read-Uses _ _)) (λ k.
        bind-Hoare advance (local (read-Uses _ _)) (λ t.
          bind-Hoare advance (local (read-Uses _ _)) (λ u.
            bind-Hoare advance (local (read-Uses _ _)) (λ q.
              bind-Hoare advance
                (bind-Hoare advance (request-Hoare _ _ _) (λ v. after_answer (response_of v)))
                (λ r. ret-Hoare advance _ (λ σ e. e)))))))

  -- A method that a channel has not is a TypeError.
  stk_push-Hoare :
      (ch : Channel) (p : MpesaStkPushPayload)
      → Hoare advance (λ σ. σ ≡ unasked) (stk_push s ch p) (λ _ σ. σ ≡ answered) IsPushError
  unfolding stk_push
  stk_push-Hoare apa_mpesa p = mpesa-Hoare p
  stk_push-Hoare britam_mpesa p = mpesa-Hoare p
  stk_push-Hoare britam_airtel p = throw-Hoare advance _ (λ σ e. inl (inl e))

  direct_debit-Hoare :
      (ch : Channel) (p : AirtelDirectDebitPayload)
      → Hoare advance (λ σ. σ ≡ unasked) (direct_debit s ch p) (λ _ σ. σ ≡ answered) IsPushError
  unfolding direct_debit
  direct_debit-Hoare britam_airtel p = airtel-Hoare p
  direct_debit-Hoare apa_mpesa p = throw-Hoare advance _ (λ σ e. inl (inl e))
  direct_debit-Hoare britam_mpesa p = throw-Hoare advance _ (λ σ e. inl (inl e))

  push_payment-Hoare :
      (x : Executor) (partner channel : Value) (p : PaymentEntity)
      → Hoare advance
          (λ σ. σ ≡ unasked)
          (push_payment s x partner channel p)
          (λ _ σ. σ ≡ answered)
          IsPushError
  unfolding push_payment
  push_payment-Hoare x partner channel p =
      if-Hoare advance (is_text channel PaymentChannel.mpesa) (λ _. stk_push-Hoare _ _)
        (λ _.
          if-Hoare advance (is_text channel PaymentChannel.airtel) (λ _. direct_debit-Hoare _ _)
            (λ _. throw-Hoare advance _ (λ σ e. inl (inl e))))

  push_order-Hoare :
      (reference partner channel : Value)
      → Hoare advance
          (λ σ. σ ≡ unasked)
          (push_order s reference partner channel)
          (λ _ σ. σ ≡ answered)
          IsPushError
  unfolding push_order get_by_reference
  push_order-Hoare reference partner channel =
      bind-Hoare advance (local (attempt-Uses _ _ tt)) (λ o.
        bind-Hoare advance (local (or_throw-Uses o _)) (λ p.
          bind-Hoare advance (local (update_metric-Uses _ tt)) (λ _.
            bind-Hoare advance (local (get_executor-Uses s.host partner channel)) (λ x.
              bind-Hoare advance (push_payment-Hoare x partner channel p) (λ r. after_answer _)))))

  failed-Hoare :
      (partner channel : Value) (m : Option String)
      → Hoare advance {A = Unit {0}}
          (λ σ. σ ≡ failed)
          (count_error partner channel (raised (payment_hub m)) >> throw (raised (payment_hub m)))
          (λ _ _. ⊥)
          IsPushError
  unfolding count_error error_response_status error_connection_code count_connection_error
  failed-Hoare partner channel m = throw-Hoare advance _ (λ σ q. inr (q, (m, refl)))

  -- The catch block: the adapter's exception has neither a response nor a code.
  caught-Hoare :
      (partner channel : Value) (e : Error)
      → Hoare advance {A = Unit {0}}
          (IsPushError e)
          (count_error partner channel e >> throw e)
          (λ _ _. ⊥)
          IsPushError
  caught-Hoare partner channel e = record {
    from = λ σ. elim [
      | inl (inl q) ↦
          (bind-Hoare advance (local (count_error-Uses (λ u h. tt) partner channel e))
              (λ _. throw-Hoare advance e (λ σ q. inl (inl q)))).from
            σ q
      | inl (inr q) ↦
          (bind-Hoare advance (after_answer (count_error partner channel e))
              (λ _. throw-Hoare advance e (λ σ q. inl (inr q)))).from
            σ q
      | inr (q, (m, same)) ↦
          (subst
              (λ z.
                Hoare advance {A = Unit {0}} (λ τ. τ ≡ failed)
                  (count_error partner channel z >> throw z) (λ _ _. ⊥) IsPushError)
              (sym same) (failed-Hoare partner channel m)).from
            σ q
    ];
  }

  process-Hoare :
      (job : Job)
      → Hoare advance
          (λ σ. σ ≡ unasked)
          (process_payment_initiation_job s job)
          (λ _ σ. σ ≡ answered)
          IsPushError
  unfolding process_payment_initiation_job
  process-Hoare job = bind-Hoare advance (local (read-Uses job.job_data "reference")) (λ reference.
      bind-Hoare advance (local (read-Uses job.job_data "partnerId")) (λ partner.
        bind-Hoare advance (local (read-Uses job.job_data "channel")) (λ channel.
          try_catch-Hoare advance _ _ (push_order-Hoare reference partner channel) (λ e.
            weaken advance (λ σ q. q) (λ u σ q. absurd q) (λ f σ q. q)
              (caught-Hoare partner channel e)))))

-- In every environment a job that pushes a payment returns only after the hub has answered. If its
-- request to the hub failed, whether refused, timed out or answered with a 4xx or 5xx status, then
-- the job throws the adapter's PaymentHubException, and no metric is counted after the failure: the
-- exception keeps neither the response nor the code that the counters of API errors are chosen by.
pub hub_failures_are_not_counted :
    {W : Type 0} (env : Environment W) (w : W) (s : Services) (job : Job)
    → Post
        (λ _ σ. σ ≡ answered)
        IsPushError
        (run env (process_payment_initiation_job s job) w)
        (observe advance unasked (trace env (process_payment_initiation_job s job) w))
hub_failures_are_not_counted env w s job =
    Hoare-run advance env (process_payment_initiation_job s job) w unasked (process-Hoare s job)
      refl
