-- ===== src/Executors/Callback/Completed.antt =====
-- `handleCallback` on the way that nothing stops: what it stores and what it answers.
use aspin_partners_bridge.Common.{
  false-true, String, ◌++◌, Bool, true, false, Option, none, some, ◌≡◌, refl, sym, ap, ◌∙◌, ◌⊎◌,
  inl, inr, if◌then◌else◌,
}
use aspin_partners_bridge.Value.{Value, str, is_nullish, optional, or_else}
use aspin_partners_bridge.Errors.{Error, type_error}
use aspin_partners_bridge.Domain.{no_fields, PartialPayment, PaymentEntity, PaymentCallbackResponse}
use aspin_partners_bridge.Effects.{
  ok, err, find_by_transaction_id, now, Services, Prog, read, ret, throw, try_finally, or_throw,
  ◌>>=◌,
}
use aspin_partners_bridge.Effects.Logic.{Hoare}
use aspin_partners_bridge.Effects.Logic.Rules.{
  ret-Hoare, throw-Hoare, attempt-Hoare, if-Hoare, weaken, try_catch-Hoare, try_finally-Hoare,
  bind-Hoare, given-Hoare,
}
use aspin_partners_bridge.Repositories.Payments.{get_by_transaction_id, update}
use aspin_partners_bridge.Executors.Defs.{Executor}
use aspin_partners_bridge.Executors.Lock.{
  is_ok, build_callback_lock_key, acquire_callback_lock, release_callback_lock,
}
use aspin_partners_bridge.Executors.Payload.{
  normalize_status, extract_transaction_id, extract_status_from_callback,
}
use aspin_partners_bridge.Executors.Callback.{
  handle_callback, locked_callback, process_callback, settle, is_signed, record_result,
  answer_without_lock,
}
use aspin_partners_bridge.Executors.Callback.Order.{transaction_id_of, status_of}
use aspin_partners_bridge.Executors.Callback.Course.{
  Course, started, found, stored, stopped, neutral, stops, finds, stores, go_on, course, call-keep,
  metric-keep, publish_payment_result-keep, record_success-keep, returning-Hoare, either-Hoare,
  stay, halt,
}

abbrev unreadable : String → Error
unreadable k = type_error ("Cannot read properties of null or undefined (reading '" ++ k ++ "')")

module _ (payload : Value) (some_object : is_nullish payload ≡ false) where
  read-ret : (k : String) → read payload k ≡ ret (optional payload k)
  unfolding read
  read-ret k = ap (λ b. if b then throw (unreadable k) else ret (optional payload k)) some_object

  transaction_id-ret : extract_transaction_id payload ≡ ret (transaction_id_of payload)
  unfolding extract_transaction_id
  transaction_id-ret i = do
    snake ← read-ret "transaction_id" i
    camel ← read-ret "transactionId" i
    pascal ← read-ret "TransactionID" i
    ret (or_else (or_else snake camel) pascal)

  status-ret : extract_status_from_callback payload ≡ ret (status_of payload)
  unfolding extract_status_from_callback
  status-ret i = do
    lower ← read-ret "status" i
    upper ← read-ret "Status" i
    code ← read-ret "ResultCode" i
    ret (normalize_status (or_else (or_else lower upper) code))

-- What the callback of this payload stores.
abbrev pub changes_of : Value → PartialPayment
changes_of payload = record no_fields {
  status = some (str (status_of payload));
  processed = some true;
}

-- The payment that was read is stored with the payload's status, and the answer is that status,
-- for the transaction of the payload and the amount of the payment.
pub record IsDone (payload : Value) (r : PaymentCallbackResponse) (σ : Course) : Type 0 where
  pub payment : PaymentEntity
  pub unprocessed : payment.processed ≡ false
  pub written : σ ≡ stored payment (transaction_id_of payload) (changes_of payload)
  pub transaction : r.transaction_id ≡ transaction_id_of payload
  pub status : r.status ≡ status_of payload
  pub amount : r.amount ≡ payment.amount
  pub currency : r.currency ≡ payment.currency
  pub valid : r.is_valid ≡ true

module _ (s : Services) (x : Executor) (payload : Value) (some_object : is_nullish payload ≡ false)
    (signed : is_signed s x payload ≡ ret true) where
  abbrev Ends : PaymentCallbackResponse → Course → Type 0
  Ends r σ = (σ ≡ stopped) ⊎ IsDone payload r σ

  update-Hoare :
      (id : Value) (c : PartialPayment) (p : PaymentEntity)
      → Hoare course
          (λ σ. σ ≡ found p)
          (update id c)
          (λ _ σ. σ ≡ stored p id c)
          (λ _ σ. σ ≡ stopped)
  unfolding update
  update-Hoare id c p = attempt-Hoare course _ _ (λ σ. elim [
    | ok u ↦ λ e. ap (λ z. go_on z (stores id c)) e
    | err f ↦ λ e. ap (λ z. go_on z stops) e
  ])

  record_result-Hoare :
      (id : Value) (p : PaymentEntity) (status : String)
      → id ≡ transaction_id_of payload
      → status ≡ status_of payload
      → p.processed ≡ false
      → Hoare course (λ σ. σ ≡ found p) (record_result s x id p status) Ends (λ _ σ. σ ≡ stopped)
  unfolding record_result
  record_result-Hoare id p status same_id same_status open_row =
      bind-Hoare course (update-Hoare id _ p) (λ _.
        bind-Hoare course (surely (publish_payment_result-keep s Written p (str status))) (λ _.
          bind-Hoare course (surely (metric-keep s Written _)) (λ _.
            bind-Hoare course (surely (record_success-keep s Written p status)) (λ _.
              bind-Hoare course (surely (call-keep s Written now tt)) (λ time.
                ret-Hoare course _ (λ σ e. inr (record {
                  payment = p;
                  unprocessed = open_row;
                  written = e ∙ (λ i. stored p (same_id i) (record no_fields {
                    status = some (str (same_status i));
                    processed = some true;
                  }));
                  transaction = same_id;
                  status = same_status;
                  amount = refl;
                  currency = refl;
                  valid = refl;
                })))))))
    where
      Written : Course → Type 0
      Written σ =
          σ ≡ stored p id (record no_fields { status = some (str status); processed = some true })

      surely :
          {A : Type 0} {m : Prog A}
          → Hoare course Written m (λ _. Written) (λ _ _. ⊥)
          → Hoare course Written m (λ _. Written) (λ _ σ. σ ≡ stopped)
      surely h = weaken course (λ σ e. e) (λ a σ e. e) (λ f σ e. absurd e) h

  settle-Hoare :
      (id : Value) (p : PaymentEntity)
      → id ≡ transaction_id_of payload
      → p.processed ≡ false
      → Hoare course (λ σ. σ ≡ found p) (settle s x payload id p) Ends (λ _ σ. σ ≡ stopped)
  unfolding settle
  settle-Hoare id p same_id open_row =
      bind-Hoare course {R = λ a σ. (a ≡ true) × (σ ≡ found p)}
        (returning-Hoare true signed (λ σ e. (refl, e)))
        (λ valid. given-Hoare course (λ t.
          if-Hoare course valid
            (λ _.
              bind-Hoare course {R = λ a σ. (a ≡ status_of payload) × (σ ≡ found p)}
                (returning-Hoare (status_of payload) (status-ret payload some_object)
                  (λ σ e. (refl, e)))
                (λ status.
                  given-Hoare course
                    (λ same. record_result-Hoare id p status same_id same open_row)))
            (λ f. throw-Hoare course _ (λ σ e. absurd (false-true (sym f ∙ t))))))

  -- What the look-up of the row comes to.
  abbrev Read : Option PaymentEntity → Course → Type 0
  Read none σ = σ ≡ stopped
  Read (some p) σ = (σ ≡ stopped) ⊎ ((p.processed ≡ false) × (σ ≡ found p))

  find-Hoare :
      (id : Value)
      → Hoare course (λ σ. σ ≡ started) (get_by_transaction_id id) Read (λ _ σ. σ ≡ stopped)
  unfolding get_by_transaction_id
  find-Hoare id = attempt-Hoare course _ _ (λ σ. elim [
    | ok none ↦ λ e. ap (λ z. go_on z stops) e
    | ok (some p) ↦ λ e.
        as_read p p.processed refl (ap (λ z. course z (find_by_transaction_id id, ok (some p))) e)
    | err f ↦ λ e. ap (λ z. go_on z stops) e
  ])
    where
      as_read :
          (p : PaymentEntity) (b : Bool) {σ : Course}
          → p.processed ≡ b
          → σ ≡ go_on started (if p.processed then stops else finds p)
          → Read (some p) σ
      as_read p true b e = inl (e ∙ ap (λ z. go_on started (if z then stops else finds p)) b)
      as_read p false b e = inr (b, e ∙ ap (λ z. go_on started (if z then stops else finds p)) b)

  -- A missing row stops the callback.
  present-Hoare :
      {f : PaymentEntity → Prog PaymentCallbackResponse} (o : Option PaymentEntity) (e : Error)
      → ((p : PaymentEntity) → Hoare course (Read (some p)) (f p) Ends (λ _ σ. σ ≡ stopped))
      → Hoare course (Read o) (or_throw o e >>= f) Ends (λ _ σ. σ ≡ stopped)
  unfolding or_throw
  present-Hoare none e h = throw-Hoare course e (λ σ q. q)
  present-Hoare (some p) e h = h p

  process_callback-Hoare :
      (id : Value)
      → id ≡ transaction_id_of payload
      → Hoare course (λ σ. σ ≡ started) (process_callback s x payload id) Ends (λ _ σ. σ ≡ stopped)
  unfolding process_callback
  process_callback-Hoare id same = bind-Hoare course (find-Hoare id) (λ o. present-Hoare o _ (λ p.
      bind-Hoare course
        (weaken course (λ σ q. q) (λ a σ q. q) (λ e σ q. absurd q)
          (metric-keep s (Read (some p)) _))
        (λ _.
          if-Hoare course p.processed
            (λ processed.
              either-Hoare (halt _)
                (ret-Hoare course _ (λ σ q. absurd (false-true (sym q.0 ∙ processed)))))
            (λ open_row. either-Hoare (halt _) (
              weaken course (λ σ q. q.1) (λ a σ q. q) (λ e σ q. q)
                (settle-Hoare id p same open_row))))))

  release-Hoare :
      (k : String) (r : PaymentCallbackResponse)
      → Hoare course (Ends r) (release_callback_lock k) (λ _. Ends r) (λ _ σ. σ ≡ stopped)
  unfolding release_callback_lock
  release-Hoare k r = attempt-Hoare course _ _ (λ σ. elim [
    | ok u ↦ λ q. q
    | err f ↦ elim [ inl e ↦ ap (λ z. go_on z stops) e | inr d ↦ ap (λ z. go_on z stops) d.written ]
  ])

  abbrev asked : Bool → Course
  asked b = if b then started else stopped

  acquire-Hoare :
      (k : String)
      → Hoare course
          (λ σ. σ ≡ started)
          (acquire_callback_lock k)
          (λ b σ. σ ≡ asked b)
          (λ _ σ. σ ≡ stopped)
  unfolding acquire_callback_lock
  acquire-Hoare k =
      bind-Hoare course {R = λ o σ. σ ≡ asked (is_ok o)}
        (attempt-Hoare course _ _ (λ σ. elim [
          | ok o ↦
              λ e. ap (λ z. go_on z (if is_ok o then neutral else stops)) e ∙ answered (is_ok o)
          | err f ↦ λ e. ap (λ z. go_on z stops) e
        ]))
        (λ o. ret-Hoare course (is_ok o) (λ σ e. e))
    where
      answered : (b : Bool) → go_on started (if b then neutral else stops) ≡ asked b
      answered true = refl
      answered false = refl

  locked_callback-Hoare :
      Hoare course (λ σ. σ ≡ started) (locked_callback s x payload) Ends (λ _ σ. σ ≡ stopped)
  unfolding locked_callback
  locked_callback-Hoare =
      bind-Hoare course {R = λ id σ. (id ≡ transaction_id_of payload) × (σ ≡ started)}
        (returning-Hoare _ (transaction_id-ret payload some_object) (λ σ e. (refl, e)))
        (λ id. given-Hoare course (λ same. bind-Hoare course (acquire-Hoare _) (under id same)))
    where
      under :
          (id : Value)
          → id ≡ transaction_id_of payload
          → (b : Bool)
          → Hoare course
              (λ σ. σ ≡ asked b)
              (if b
                then try_finally
                    (process_callback s x payload id)
                    (release_callback_lock (build_callback_lock_key s x id))
                else answer_without_lock s x id)
              Ends
              (λ _ σ. σ ≡ stopped)
      under id same true =
          try_finally-Hoare course _ _ (process_callback-Hoare id same) (λ r. release-Hoare _ r)
            (λ e. stay _)
      under id same false = halt _

  pub handle_callback-Course :
      Hoare course (λ σ. σ ≡ started) (handle_callback s x payload) Ends (λ _ σ. σ ≡ stopped)
  unfolding handle_callback
  handle_callback-Course = try_catch-Hoare course _ _ locked_callback-Hoare (λ e. halt _)
