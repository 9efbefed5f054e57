-- ===== src/Voicews/State.antt =====
-- The state of a voice session of internal/voicews/session.go and what its handlers do outside it.
-- Levels are float64 values: a parameter with pcmLevel, the threshold of speech, and the duration
-- `time.Duration(float64(bytes) / float64(perSecond) * float64(time.Second))`. A context's cancel
-- function and a trace are numbers that are made fresh. Of an event of a trace its name is kept.
use agen_sense.Prelude.{
  ℕ, ℤ, pos, ◌*◌, String, Bool, Option, none, some, List, [], ◌∷◌, is_positive, pos_part, quot,
  nat_beq, if◌then◌else◌,
}
use agen_sense.Provider.Types.{AudioFormat}
use agen_sense.Protocol.Types.{ProtocolError}
use agen_sense.Protocol.Stream.{StreamTracker}
use agen_sense.Voicews.Values.{SessionConfig, VoiceAssistantMetadata}
use agen_sense.Voicews.Echo.{RecentSpeechText}

pub record Levels : Type 1 where
  pub Float : Type 0
  pub zero_level : Float
  pub greater : Float → Float → Bool
  pub pcm_level : List ℕ → Float
  pub is_speech : Float → Bool
  pub span : ℕ → ℕ → ℤ

abbrev pub positive_part_or : ℕ → ℤ → ℕ
positive_part_or fallback x = if is_positive x then pos_part x else fallback

module _ (L : Levels) where
  unfoldable pub format_byte_duration : AudioFormat → ℕ → ℤ
  format_byte_duration format bytes =
      let sample_rate = positive_part_or 16000 format.sample_rate_hz in
      let channels = positive_part_or 1 format.channels in
      if nat_beq bytes 0 then pos 0 else L.span bytes (sample_rate * channels * 2)

  -- durationMs
  abbrev pub duration_ms : ℤ → ℤ
  duration_ms d = quot d 1000000

  pub record CompletedSegment : Type 0 where
    pub id : String
    pub stream_id : String
    pub format : AudioFormat
    pub audio : List ℕ
    pub start_offset_ms : ℤ
    pub end_offset_ms : ℤ
    pub end_level : L.Float
    pub peak_level : L.Float

  pub record Inbound : Type 0 where
    pub tracker : StreamTracker
    pub format : AudioFormat
    pub audio : List ℕ
    pub seq : ℕ
    pub started_at : ℤ
    pub echo_guard : Bool

  pub record Vad : Type 0 where
    pub speech_active : Bool
    pub silence_bytes : ℕ
    pub segment_seq : ℕ
    pub active_segment_id : String
    pub last_segment_id : String
    pub segment_start_byte : ℕ
    pub segment_start_ms : ℤ
    pub segment_peak_level : L.Float

  pub record Partial : Type 0 where
    pub in_flight : Bool
    pub cancel : Option ℕ
    pub run_id : ℕ
    pub last_at : ℤ
    pub last_text : String
    pub last_size : ℕ

  pub record Session : Type 0 where
    pub cfg : SessionConfig
    pub has_asr : Bool
    pub has_llm : Bool
    pub has_tts : Bool
    pub has_debug : Bool
    pub inbound : Inbound
    pub turn_trace : Option ℕ
    pub vad : Vad
    pub partial : Partial
    pub response_cancel : Option ℕ
    pub response_active : Bool
    pub recent_speech : List RecentSpeechText
    pub playback_echo_until : ℤ
    pub fresh : ℕ

  -- What is called on a trace.
  pub data TraceCall : Type 0 where
    opened : TraceCall
    event : String → TraceCall
    segment_started : String → String → AudioFormat → ℤ → L.Float → TraceCall
    segment_completed : CompletedSegment → TraceCall
    input_audio : AudioFormat → List ℕ → TraceCall
    asr_started : AudioFormat → ℕ → TraceCall
    asr_completed : String → TraceCall
    segment_text : String → String → TraceCall
    failed : TraceCall
    completed : TraceCall

  pub data Output : Type 0 where
    cancelled : ℕ → Output
    traced : ℕ → TraceCall → Output
    vad_state : String → L.Float → Output
    response_done : String → Output
    asr_final : String → String → Output
    wrote_error : String → Output
    -- `go s.runPartialASR`, `go s.runFinalASR` and `go s.runResponse`
    partial_asr : ℕ → SessionConfig → String → AudioFormat → List ℕ → Output
    final_asr : SessionConfig → String → AudioFormat → List ℕ → Option ℕ → Output
    respond : SessionConfig → AudioFormat → String → VoiceAssistantMetadata → Option ℕ → Output

  -- The error of a handler, if any, the session after it, and what it did.
  pub data Failure : Type 0 where
    because : String → Failure
    protocol_error : ProtocolError → Failure

  abbrev pub Handled : Type 0
  Handled = Option Failure × Session × List Output

  abbrev pub on_trace : Option ℕ → TraceCall → List Output
  on_trace none call = []
  on_trace (some trace) call = traced trace call ∷ []
