-- ===== src/Trace/Types.antt =====
-- internal/debugtrace/store.go: traces. Float64 levels are a parameter; the details of the timeline
-- are bytes, since they may be cut inside a character.
use agen_sense.Prelude.{ℕ, ℤ, pos, String, Bool, false, Option, none, List, [], Map}
use agen_sense.Device.Model.{Time, zero_time}
use agen_sense.Provider.Types.{AudioFormat, ChatMessage}
use agen_sense.Trace.Audio.{Bytes}

pub record Floats : Type 1 where
  pub Float : Type 0
  pub zero_float : Float
  pub greater : Float → Float → Bool

pub record TraceMeta : Type 0 where
  pub device_id : String
  pub device_label : String
  pub hardware_sku : String
  pub firmware_version : String
  pub firmware_channel : String
  pub client_id : String
  pub session_id : String
  pub provider_profile_id : String
  pub http_path : String

pub record AudioAsset : Type 0 where
  pub mime : String
  pub bytes : ℕ
  pub truncated : Bool

pub record AsrStage : Type 0 where
  pub started_at : Time
  pub completed_at : Time
  pub duration_ms : ℤ
  pub text : String
  pub audio_bytes : ℕ
  pub format : AudioFormat

pub record LlmStage : Type 0 where
  pub started_at : Time
  pub completed_at : Time
  pub duration_ms : ℤ
  pub first_delta_ms : ℤ
  pub message_count : ℕ
  pub messages : List ChatMessage
  pub deltas : List String
  pub deltas_truncated : Bool
  pub delta_count : ℕ
  pub delta_chars : ℕ
  pub response_text : String

pub record TtsStage : Type 0 where
  pub started_at : Time
  pub completed_at : Time
  pub duration_ms : ℤ
  pub first_chunk_ms : ℤ
  pub text : String
  pub chunk_count : ℕ
  pub audio_bytes : ℕ
  pub format : AudioFormat
  pub audio : Option AudioAsset

pub record TraceEvent : Type 0 where
  pub at : Time
  pub name : String
  pub detail : Bytes

pub record StoredAsset : Type 0 where
  pub data_ : Bytes
  pub mime : String

abbrev pub no_format : AudioFormat
no_format = record { codec = ""; sample_rate_hz = pos 0; channels = pos 0 }

abbrev pub no_asr : AsrStage
no_asr = record {
  started_at = zero_time;
  completed_at = zero_time;
  duration_ms = pos 0;
  text = "";
  audio_bytes = 0;
  format = no_format;
}

abbrev pub no_llm : LlmStage
no_llm = record {
  started_at = zero_time;
  completed_at = zero_time;
  duration_ms = pos 0;
  first_delta_ms = pos 0;
  message_count = 0;
  messages = [];
  deltas = [];
  deltas_truncated = false;
  delta_count = 0;
  delta_chars = 0;
  response_text = "";
}

abbrev pub no_tts : TtsStage
no_tts = record {
  started_at = zero_time;
  completed_at = zero_time;
  duration_ms = pos 0;
  first_chunk_ms = pos 0;
  text = "";
  chunk_count = 0;
  audio_bytes = 0;
  format = no_format;
  audio = none;
}

module _ (F : Floats) where
  pub record Segment : Type 0 where
    pub id : String
    pub stream_id : String
    pub started_at : Time
    pub completed_at : Time
    pub start_offset_ms : ℤ
    pub end_offset_ms : ℤ
    pub duration_ms : ℤ
    pub audio_bytes : ℕ
    pub format : AudioFormat
    pub start_level : F.Float
    pub end_level : F.Float
    pub peak_level : F.Float
    pub text : String
    pub audio : Option AudioAsset
    pub audio_url : String

  pub record Trace : Type 0 where
    pub id : String
    pub kind : String
    pub source : String
    pub status : String
    pub meta : TraceMeta
    pub error : String
    pub started_at : Time
    pub updated_at : Time
    pub completed_at : Time
    pub total_duration_ms : ℤ
    pub input_audio_format : AudioFormat
    pub input_audio : Option AudioAsset
    pub asr : Option AsrStage
    pub llm : Option LlmStage
    pub tts : Option TtsStage
    pub segments : List Segment
    pub timeline : List TraceEvent

  pub record TraceRecord : Type 0 where
    pub trace : Trace
    pub input_audio_data : Bytes
    pub input_audio_mime : String
    pub tts_audio_data : Bytes
    pub tts_audio_mime : String
    pub tts_raw : Bytes
    pub tts_raw_truncated : Bool
    pub segment_audio : Map String StoredAsset

  abbrev pub new_segment : String → ℤ → Segment
  new_segment segment_id start_offset_ms = record {
    id = segment_id;
    stream_id = "";
    started_at = zero_time;
    completed_at = zero_time;
    start_offset_ms = start_offset_ms;
    end_offset_ms = pos 0;
    duration_ms = pos 0;
    audio_bytes = 0;
    format = no_format;
    start_level = F.zero_float;
    end_level = F.zero_float;
    peak_level = F.zero_float;
    text = "";
    audio = none;
    audio_url = "";
  }
