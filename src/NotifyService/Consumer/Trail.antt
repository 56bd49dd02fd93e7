-- ===== src/NotifyService/Consumer/Trail.antt =====
-- The audit trail and the alerts of services/notify-service/app/consumer.py.
use vix_75_platform.Base.{
  ℕ, ◌+◌, ◌≤◌, ◌≡◌, refl, subst, String, Bool, true, false, none, List, [], ◌∷◌, ◌++◌, arith, any,
  if◌then◌else◌, inl, inr, Bool-cases,
}
use vix_75_platform.Base.Dict.{Dict, text_eq}
use vix_75_platform.Base.Result.{Result, ok, raise, attribute_error, bind-eq-ok, Result-cases}
use vix_75_platform.Correlation.{get_text}
use vix_75_platform.Float.{Float}
use vix_75_platform.Json.{JsonLib}
use vix_75_platform.NotifyService.Telegram.{send}
use vix_75_platform.NotifyService.Consumer.{
  str, Event, NotifyConsumer, Outside, Message, record_event, announce, audit, on_generated,
  on_signal_rejected, on_filled, on_order_rejected, on_closed, subject_of, generated_payload,
  dispatch, handle, handle_all,
}

ok_inj {ℓ} : {A : Type ℓ} {a b : A} → ok a ≡ ok b → a ≡ b
ok_inj h = cc

abbrev pub streams : List String
streams =
    "signal.generated" ∷ "signal.rejected" ∷ "order.filled" ∷ "order.rejected" ∷ "order.closed" ∷ []

module _ {F : Type 0} where
  -- Exactly one more row, of the message's stream, and at most one alert.
  pub record IsRecorded (n : ℕ) (stream : String) (s s' : NotifyConsumer F) : Type 0 where
    pub row : Event F
    pub of_stream : text_eq stream row.event ≡ true
    pub appended : s'.lifecycle.audit_log ≡ s.lifecycle.audit_log ++ (row ∷ [])
    pub processed : s'.processed ≡ s.processed + n
    pub alerts : (s.alerts_sent ≤ s'.alerts_sent) × (s'.alerts_sent ≤ s.alerts_sent + 1)

  abbrev pub Kept : String → NotifyConsumer F → Result (NotifyConsumer F) → Type 0
  Kept stream s (ok s') = IsRecorded 0 stream s s'
  Kept stream s (raise e) = Unit

  announce-alerts :
      (outside : Outside) (message : String) (s : NotifyConsumer F)
      → let s' = announce outside message s in
        (s'.lifecycle ≡ s.lifecycle)
        × (s.alerts_sent ≤ s'.alerts_sent)
        × (s'.alerts_sent ≤ s.alerts_sent + 1)
  announce-alerts outside message s = ground arith

  announced :
      (stream : String) (outside : Outside) (message : String) (e : Event F) (s : NotifyConsumer F)
      → outside.audited ≡ true
      → text_eq stream e.event ≡ true
      → IsRecorded 0 stream s (announce outside message (audit outside e s))
  unfolding record_event
  announced stream outside message e s h k = record {
    row = e;
    of_stream = k;
    appended = rw h refl;
    processed = omega arith;
    alerts = ground arith;
  }

  -- The counters agree: what was announced is what the sender sent.
  pub record IsCounted (s : NotifyConsumer F) : Type 0 where
    pub counted : s.alerts_sent ≡ s.sender.sent

  abbrev pub Counts : NotifyConsumer F → Result (NotifyConsumer F) → Type 0
  Counts s (ok s') = IsCounted s → IsCounted s'
  Counts s (raise e) = Unit

  announce-IsCounted :
      (outside : Outside) (message : String) (e : Event F) (s : NotifyConsumer F)
      → IsCounted s
      → IsCounted (announce outside message (audit outside e s))
  unfolding send
  announce-IsCounted outside message e s h = record { counted = ground (arith, h.counted) }

  audit-IsCounted :
      (outside : Outside) (e : Event F) (s : NotifyConsumer F)
      → IsCounted s
      → IsCounted (audit outside e s)
  audit-IsCounted outside e s h = record { counted = h.counted }

  if-IsRecorded :
      (stream : String) (s : NotifyConsumer F) (b : Bool) (x y : NotifyConsumer F)
      → IsRecorded 0 stream s x
      → IsRecorded 0 stream s y
      → IsRecorded 0 stream s (if b then x else y)
  if-IsRecorded stream s true x y h k = h
  if-IsRecorded stream s false x y h k = k

  if-IsCounted :
      (b : Bool) (s x y : NotifyConsumer F)
      → (IsCounted s → IsCounted x)
      → (IsCounted s → IsCounted y)
      → IsCounted s
      → IsCounted (if b then x else y)
  if-IsCounted true s x y h k = h
  if-IsCounted false s x y h k = k

module _ {F : Type 0} ⦃d : Float F⦄ ⦃j : JsonLib F⦄ (outside : Outside) where
  quiet :
      (stream : String) (e : Event F) (s : NotifyConsumer F)
      → outside.audited ≡ true
      → text_eq stream e.event ≡ true
      → IsRecorded 0 stream s (audit outside e s)
  unfolding record_event
  quiet stream e s h k = record {
    row = e;
    of_stream = k;
    appended = rw h refl;
    processed = omega arith;
    alerts = omega arith;
  }

  generated-Kept :
      (stream : String) (decoded : Dict String) (subject : String) (s : NotifyConsumer F)
      → outside.audited ≡ true
      → text_eq stream "signal.generated" ≡ true
      → Kept stream s (on_generated outside decoded subject s)
  generated-Kept stream decoded subject s h k =
      elim (Result-cases (generated_payload {F = F} decoded)) [
        | inl (payload, e) ↦ rw e (announced stream outside _ _ s h k)
        | inr (x, e) ↦ rw e tt
      ]

  -- What holds of each branch holds of the outcome.
  dispatch_cases :
      (P : Result (NotifyConsumer F) → Type 0) (stream : String) (decoded : Dict String)
      (subject : String) (s : NotifyConsumer F)
      → (text_eq stream "signal.generated" ≡ true → P (on_generated outside decoded subject s))
      → (text_eq stream "signal.rejected" ≡ true
          → P (ok (on_signal_rejected outside decoded subject s)))
      → (text_eq stream "order.filled" ≡ true → P (ok (on_filled outside decoded subject s)))
      → (text_eq stream "order.rejected" ≡ true
          → P (ok (on_order_rejected outside decoded subject s)))
      → (text_eq stream "order.closed" ≡ true → P (ok (on_closed outside decoded subject s)))
      → (any (text_eq stream) streams ≡ false → P (ok s))
      → P (dispatch outside stream decoded subject s)
  unfolding dispatch
  dispatch_cases P stream decoded subject s g r f o c u =
      elim (Bool-cases (text_eq stream "signal.generated")) [
        | inl e ↦ rw (e, dispatch) (g e)
        | inr e1 ↦ elim (Bool-cases (text_eq stream "signal.rejected")) [
          | inl e ↦ rw (e1, e, dispatch) (r e)
          | inr e2 ↦ elim (Bool-cases (text_eq stream "order.filled")) [
            | inl e ↦ rw (e1, e2, e, dispatch) (f e)
            | inr e3 ↦ elim (Bool-cases (text_eq stream "order.rejected")) [
              | inl e ↦ rw (e1, e2, e3, e, dispatch) (o e)
              | inr e4 ↦ elim (Bool-cases (text_eq stream "order.closed")) [
                | inl e ↦ rw (e1, e2, e3, e4, e, dispatch) (c e)
                | inr e5 ↦ rw (e1, e2, e3, e4, e5, dispatch) (u (ground arith))
              ]
            ]
          ]
        ]
      ]

  dispatch-Kept :
      (stream : String) (decoded : Dict String) (subject : String) (s : NotifyConsumer F)
      → outside.audited ≡ true
      → any (text_eq stream) streams ≡ true
      → Kept stream s (dispatch outside stream decoded subject s)
  dispatch-Kept stream decoded subject s h k =
      dispatch_cases (Kept stream s) stream decoded subject s
        (generated-Kept stream decoded subject s h)
        (λ e.
          if-IsRecorded stream s s.alert_rejections _ _ (announced stream outside _ _ s h e)
            (quiet stream _ s h e))
        (announced stream outside _ _ s h) (announced stream outside _ _ s h)
        (announced stream outside _ _ s h) (λ u. absurd (cc))

  generated-Counts :
      (decoded : Dict String) (subject : String) (s : NotifyConsumer F)
      → Counts s (on_generated outside decoded subject s)
  generated-Counts decoded subject s = elim (Result-cases (generated_payload {F = F} decoded)) [
    | inl (payload, e) ↦ rw e (announce-IsCounted outside _ _ s)
    | inr (x, e) ↦ rw e tt
  ]

  dispatch-Counts :
      (stream : String) (decoded : Dict String) (subject : String) (s : NotifyConsumer F)
      → Counts s (dispatch outside stream decoded subject s)
  dispatch-Counts stream decoded subject s =
      dispatch_cases (Counts s) stream decoded subject s (λ _. generated-Counts decoded subject s)
        (λ _.
          if-IsCounted s.alert_rejections s _ _ (announce-IsCounted outside _ _ s)
            (audit-IsCounted outside _ s))
        (λ _. announce-IsCounted outside _ _ s) (λ _. announce-IsCounted outside _ _ s)
        (λ _. announce-IsCounted outside _ _ s) (λ _ h. h)

  -- If the audit row can be written, a message of one of the five streams that is handled adds one
  -- row of its stream to the audit log, counts one message and at most one alert.
  pub handle-IsRecorded :
      (message : Message) (s s' : NotifyConsumer F)
      → outside.audited ≡ true
      → any (text_eq message.stream) streams ≡ true
      → handle outside message s ≡ ok s'
      → IsRecorded 1 message.stream s s'
  unfolding handle
  handle-IsRecorded message s s' ha hk h =
      let (subject, hs, h1) = bind-eq-ok (subject_of message.fields message.message_id) _ h in
      let (t, ht, h2) =
        bind-eq-ok (dispatch outside message.stream message.fields subject s) _ h1 in
      let kept = dispatch-Kept message.stream message.fields subject s ha hk in
      let r : IsRecorded 0 message.stream s t = subst (Kept message.stream s) ht kept in
      subst (IsRecorded 1 message.stream s) (ok_inj h2) (record {
        row = r.row;
        of_stream = r.of_stream;
        appended = r.appended;
        processed = omega (arith, r.processed);
        alerts = r.alerts;
      })

  handle-Counts : (message : Message) (s : NotifyConsumer F) → Counts s (handle outside message s)
  unfolding handle
  handle-Counts message s = elim (Result-cases (subject_of message.fields message.message_id)) [
    | inr (e, eq) ↦ rw (eq, handle) tt
    | inl (subject, eq) ↦
        let counts = dispatch-Counts message.stream message.fields subject s in
        elim (Result-cases (dispatch outside message.stream message.fields subject s)) [
          | inr (e, eq') ↦ rw (eq, eq', handle) tt
          | inl (t, eq') ↦
              let k : IsCounted s → IsCounted t = subst (Counts s) eq' counts in
              rw (eq, eq', handle) (λ h. record { counted = (k h).counted })
        ]
  ]

  -- A signal's entry has no subject of its own, and a text id cannot be decoded.
  pub handle_raises :
      (message : Message) (id : String) (s : NotifyConsumer F)
      → get_text "signal_id" message.fields ≡ none
      → get_text "idempotency_key" message.fields ≡ none
      → message.message_id ≡ str id
      → handle outside message s ≡ raise attribute_error
  unfolding handle subject_of
  handle_raises message id s h k e = rw (h, k, e, handle, subject_of) refl

-- Over any batch.
module _ {F : Type 0} ⦃d : Float F⦄ ⦃j : JsonLib F⦄ where
  -- Over any batch, if the number of alerts is that of the messages that the sender has sent, it
  -- still is after the batch.
  handle_all-IsCounted :
      (messages : List (Outside × Message)) (s : NotifyConsumer F)
      → IsCounted s
      → IsCounted (handle_all messages s).0
  unfolding handle_all
  handle_all-IsCounted [] s h = h
  handle_all-IsCounted ((outside, message) ∷ messages) s h =
      elim (Result-cases (handle outside message s)) [
        | inr (e, eq) ↦ rw (eq, handle_all) h
        | inl (t, eq) ↦
            let k : IsCounted s → IsCounted t =
              subst (Counts s) eq (handle-Counts outside message s) in
            rw (eq, handle_all) (handle_all-IsCounted messages t (k h))
      ]
