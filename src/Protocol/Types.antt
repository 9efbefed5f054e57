-- ===== src/Protocol/Types.antt =====
-- internal/protocol/types.go: the events of the WebSocket protocol and their payloads.
--
-- JSON values and float64 are parameters: the package passes the values on, and compares a
-- confidence with 0 and 1 only.
use agen_sense.Prelude.{ℤ, String, Bool}

pub record Values : Type 1 where
  pub Json : Type 0
  pub Float : Type 0
  pub below_zero : Float → Bool
  pub above_one : Float → Bool

abbrev pub event_hello : String
event_hello = "hello"

abbrev pub event_hello_ok : String
event_hello_ok = "hello.ok"

abbrev pub event_telemetry : String
event_telemetry = "telemetry.update"

abbrev pub event_audio_start : String
event_audio_start = "audio.start"

abbrev pub event_audio_stop : String
event_audio_stop = "audio.stop"

abbrev pub event_config_snapshot : String
event_config_snapshot = "config.snapshot"

abbrev pub event_config_ack : String
event_config_ack = "config.ack"

abbrev pub event_asr_final : String
event_asr_final = "asr.final"

abbrev pub event_llm_delta : String
event_llm_delta = "llm.delta"

abbrev pub event_llm_done : String
event_llm_done = "llm.done"

abbrev pub event_mcp_call_proposed : String
event_mcp_call_proposed = "mcp.call.proposed"

abbrev pub event_tts_start : String
event_tts_start = "tts.start"

abbrev pub event_tts_stop : String
event_tts_stop = "tts.stop"

abbrev pub event_action_execute : String
event_action_execute = "action.execute"

abbrev pub event_error : String
event_error = "error"

pub record AudioStartPayload : Type 0 where
  pub stream_id : String
  pub codec : String
  pub sample_rate_hz : ℤ
  pub channels : ℤ

pub record AudioStopPayload : Type 0 where
  pub stream_id : String
  pub last_seq : ℤ

pub record HelloOkPayload : Type 0 where
  pub server_time_ms : ℤ
  pub desired_config_version : ℤ

pub record AsrFinalPayload : Type 0 where
  pub stream_id : String
  pub text : String

pub record ErrorPayload : Type 0 where
  pub code : String
  pub message : String

module _ (V : Values) where
  pub record HelloPayload : Type 0 where
    pub device_id : String
    pub hardware_sku : String
    pub firmware_version : String
    pub capabilities : V.Json
    pub config_version : ℤ

  pub record ConfigSnapshotPayload : Type 0 where
    pub config_version : ℤ
    pub config : V.Json

  pub record McpCallProposedPayload : Type 0 where
    pub proposal_id : String
    pub tool_name : String
    pub arguments : V.Json
    pub transcript : String
    pub confidence : V.Float
    pub requires_confirmation : Bool
    pub reason : String

  pub record ActionExecutePayload : Type 0 where
    pub action_id : String
    pub kind : String
    pub payload : V.Json

  -- The payload types, as the `any` that validateTypedPayload switches on.
  pub data Payload : Type 0 where
    hello : HelloPayload → Payload
    hello_ok : HelloOkPayload → Payload
    audio_start : AudioStartPayload → Payload
    audio_stop : AudioStopPayload → Payload
    config_snapshot : ConfigSnapshotPayload → Payload
    config_ack : ℤ → Payload
    asr_final : AsrFinalPayload → Payload
    llm_delta : String → Payload
    llm_done : String → Payload
    mcp_call_proposed : McpCallProposedPayload → Payload
    error : ErrorPayload → Payload
    action_execute : ActionExecutePayload → Payload

-- The names of the payload types.
pub data PayloadKind : Type 0 where
  k_hello k_hello_ok k_audio_start k_audio_stop k_config_snapshot k_config_ack : PayloadKind
  k_asr_final k_llm_delta k_llm_done k_mcp_call_proposed k_error k_action_execute : PayloadKind

-- The sentinel errors of internal/protocol/errors.go, and errors of encoding/json.
pub data ProtocolError : Type 0 where
  invalid_envelope invalid_payload stream_state : ProtocolError
  marshal_failed : ProtocolError
