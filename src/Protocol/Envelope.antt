-- ===== src/Protocol/Envelope.antt =====
-- internal/protocol/envelope.go: NewEvent, MarshalEvent, DecodeEvent and DecodePayload. The clock
-- is an argument. An error is kept as its sentinel, and one of encoding/json as marshal_failed.
use agen_sense.Prelude.{
  String, Option, none, some, if◌then◌else◌, ◌≡◌, refl, ℤ, Option-cases, inl, inr, subst, ap, ◌∙◌,
}
use agen_sense.Device.Model.{RawMessage}
use agen_sense.Protocol.Types.{
  Values, Payload, PayloadKind, ProtocolError, invalid_envelope, invalid_payload, marshal_failed,
}
use agen_sense.Protocol.Validate.{Check, Envelope, PayloadJson, is_empty, validate_envelope}

pub data Outcome (A : Type 0) : Type 0 where
  done : A → Outcome A
  failed : ProtocolError → Outcome A

abbrev pub and_then : {A B : Type 0} → Outcome A → (A → Outcome B) → Outcome B
and_then (done a) f = f a
and_then (failed e) f = failed e

-- `if err := check; err != nil { return err }; return a`
abbrev guarded : {A : Type 0} → Check → A → Outcome A
guarded none a = done a
guarded (some e) a = failed e

-- json.Marshal and json.Unmarshal of an envelope.
pub record EnvelopeJson : Type 1 where
  pub Bytes : Type 0
  pub marshal : Envelope → Option Bytes
  pub unmarshal : Bytes → Option Envelope

abbrev pub or_failed : {A : Type 0} → ProtocolError → Option A → Outcome A
or_failed e none = failed e
or_failed e (some a) = done a

guarded-done : {A : Type 0} (c : Check) (a b : A) → guarded c a ≡ done b → (c ≡ none) × (a ≡ b)
guarded-done none a b h = (refl, cc)
guarded-done (some e) a b h = absurd (cc)

module _ (V : Values) (J : PayloadJson V) where
  -- The payload `nil` is `none`, and gives no bytes.
  unfoldable pub marshal_payload : Option (Payload V) → Outcome RawMessage
  marshal_payload none = done none
  marshal_payload (some p) = or_failed marshal_failed (J.marshal p)

  unfoldable pub new_event : ℤ → String → String → String → Option (Payload V) → Outcome Envelope
  new_event now event_type request session payload = and_then (marshal_payload payload) λ raw.
      let event : Envelope = record {
        type = event_type;
        request_id = request;
        session_id = session;
        ts_ms = now;
        payload = raw;
      } in
      guarded (validate_envelope V J event) event

  unfoldable pub decode_payload : PayloadKind → Envelope → Outcome (Payload V)
  decode_payload kind event =
      if is_empty event.payload
      then failed invalid_payload
      else or_failed invalid_payload (J.unmarshal kind event.payload)

  module _ (E : EnvelopeJson) where
    unfoldable pub marshal_event : Envelope → Outcome E.Bytes
    marshal_event event =
        and_then (guarded (validate_envelope V J event) event)
          λ valid. or_failed marshal_failed (E.marshal valid)

    unfoldable pub decode_event : E.Bytes → Outcome Envelope
    decode_event data_ =
        and_then (or_failed invalid_envelope (E.unmarshal data_))
          λ event. guarded (validate_envelope V J event) event

  -- An event of NewEvent is valid, and carries the payload's encoding.
  new_event_lem :
      (now : ℤ) (t request session : String) (p : Payload V) (event : Envelope)
      → new_event now t request session (some p) ≡ done event
      → (validate_envelope V J event ≡ none) × (J.marshal p ≡ some event.payload)
  unfolding new_event marshal_payload
  new_event_lem now t request session p event h = elim (Option-cases (J.marshal p)) [
    | inl e ↦ absurd (cc)
    | inr (raw, e) ↦
        let built : Envelope = record {
          type = t;
          request_id = request;
          session_id = session;
          ts_ms = now;
          payload = raw;
        } in
        let (valid, same) = guarded-done (validate_envelope V J built) built event cc in
        (subst (λ v. validate_envelope V J v ≡ none) same valid, e ∙ ap (λ v. some v.payload) same)
  ]

  -- An event that DecodeEvent returns is valid, so MarshalEvent fails for it only where
  -- encoding/json does.
  pub decode_event-marshal_event :
      (E : EnvelopeJson) (b : E.Bytes) (event : Envelope)
      → decode_event E b ≡ done event
      → (validate_envelope V J event ≡ none)
        × (marshal_event E event ≡ or_failed marshal_failed (E.marshal event))
  unfolding marshal_event decode_event
  decode_event-marshal_event E b event h = elim (Option-cases (E.unmarshal b)) [
    | inl e ↦ absurd (cc)
    | inr (v, e) ↦
        let (valid, same) = guarded-done (validate_envelope V J v) v event cc in
        let passes = subst (λ w. validate_envelope V J w ≡ none) same valid in (passes, cc)
  ]
