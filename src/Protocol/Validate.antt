-- ===== src/Protocol/Validate.antt =====
-- internal/protocol/types.go: validateTypedPayload, validatePayload and validateEnvelope. An error
-- is kept as its sentinel, without its text.
use agen_sense.Prelude.{
  ℤ, pos, ltb_ℤ, is_positive, String, Option, none, some, Bool, true, false, not, ◌&&◌, ◌||◌, [],
  ◌∷◌, ◌==◌, string_eq, if◌then◌else◌,
}
use agen_sense.Device.Model.{RawMessage}
use agen_sense.Protocol.Types.{
  Values, Payload, PayloadKind, ProtocolError, AudioStartPayload, hello, hello_ok, audio_start,
  audio_stop, config_snapshot, config_ack, asr_final, llm_delta, llm_done, mcp_call_proposed, error,
  action_execute, k_hello, k_hello_ok, k_audio_start, k_audio_stop, k_config_snapshot, k_config_ack,
  k_asr_final, k_llm_delta, k_llm_done, k_mcp_call_proposed, k_error, k_action_execute,
  invalid_envelope, invalid_payload, event_hello, event_hello_ok, event_audio_start,
  event_tts_start, event_audio_stop, event_tts_stop, event_config_snapshot, event_config_ack,
  event_asr_final, event_llm_delta, event_llm_done, event_mcp_call_proposed, event_action_execute,
  event_error,
}

-- `none` is no error.
abbrev pub Check : Type 0
Check = Option ProtocolError

abbrev pub required : Bool → Check
required true = none
required false = some invalid_payload

unfoldable pub validate_audio_start : AudioStartPayload → Check
validate_audio_start p =
    if p.stream_id == ""
    then some invalid_payload
    else if not (p.codec == "pcm_s16le")
    then some invalid_payload
    else required (is_positive p.sample_rate_hz && is_positive p.channels)

module _ (V : Values) where
  unfoldable pub validate_typed_payload : Payload V → Check
  unfolding validate_audio_start
  validate_typed_payload (hello p) = required (not (p.device_id == ""))
  validate_typed_payload (hello_ok p) = required (is_positive p.server_time_ms)
  validate_typed_payload (audio_start p) = validate_audio_start p
  validate_typed_payload (audio_stop p) =
      if p.stream_id == "" then some invalid_payload else required (not (ltb_ℤ p.last_seq (pos 0)))
  validate_typed_payload (config_snapshot p) = required (is_positive p.config_version)
  validate_typed_payload (config_ack version) = required (is_positive version)
  validate_typed_payload (asr_final p) = required (not (p.text == ""))
  validate_typed_payload (llm_delta text) = required (not (text == ""))
  validate_typed_payload (llm_done text) = required (not (text == ""))
  validate_typed_payload (mcp_call_proposed p) =
      if p.proposal_id == "" || p.tool_name == ""
      then some invalid_payload
      else required (not (V.below_zero p.confidence || V.above_one p.confidence))
  validate_typed_payload (error p) = required (not (p.code == "" || p.message == ""))
  validate_typed_payload (action_execute p) = required (not (p.action_id == "" || p.kind == ""))

-- The payload type that validateEnvelope expects of an event; `none` for telemetry and for the
-- names that it does not know.
unfoldable pub expected_kind : String → Option PayloadKind
expected_kind t =
    if t == event_hello
    then some k_hello
    else if t == event_hello_ok
    then some k_hello_ok
    else if t == event_audio_start || t == event_tts_start
    then some k_audio_start
    else if t == event_audio_stop || t == event_tts_stop
    then some k_audio_stop
    else if t == event_config_snapshot
    then some k_config_snapshot
    else if t == event_config_ack
    then some k_config_ack
    else if t == event_asr_final
    then some k_asr_final
    else if t == event_llm_delta
    then some k_llm_delta
    else if t == event_llm_done
    then some k_llm_done
    else if t == event_mcp_call_proposed
    then some k_mcp_call_proposed
    else if t == event_action_execute
    then some k_action_execute
    else if t == event_error
    then some k_error
    else none

pub record Envelope : Type 0 where
  pub type : String
  pub request_id : String
  pub session_id : String
  pub ts_ms : ℤ
  pub payload : RawMessage

-- `len(payload) == 0`
abbrev pub is_empty : RawMessage → Bool
is_empty none = true
is_empty (some []) = true
is_empty (some (b ∷ bs)) = false

-- What the package uses of encoding/json: a payload of a given type from a raw message, and back.
pub record PayloadJson (V : Values) : Type 0 where
  pub unmarshal : PayloadKind → RawMessage → Option (Payload V)
  pub marshal : Payload V → Option RawMessage

module _ (V : Values) (J : PayloadJson V) where
  abbrev typed : Option (Payload V) → Check
  typed none = some invalid_payload
  typed (some p) = validate_typed_payload V p

  unfoldable pub validate_payload : PayloadKind → Envelope → Check
  validate_payload kind event =
      if is_empty event.payload
      then some invalid_payload
      else typed (J.unmarshal kind event.payload)

  -- The ids that an event must carry.
  abbrev pub has_ids : Envelope → Bool
  has_ids event =
      if event.type == event_hello
      then not (event.request_id == "")
      else if event.type == event_hello_ok
      then not (event.request_id == "" || event.session_id == "")
      else true

  abbrev payload_check : Option PayloadKind → Envelope → Check
  payload_check none event = none
  payload_check (some kind) event = validate_payload kind event

  unfoldable pub validate_envelope : Envelope → Check
  unfolding validate_payload expected_kind
  validate_envelope event =
      if event.type == ""
      then some invalid_envelope
      else if has_ids event
      then payload_check (expected_kind event.type) event
      else some invalid_envelope
