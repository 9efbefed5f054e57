-- ===== src/Gateway/Sink.antt =====
-- internal/gateway/handler.go: gatewaySink, what the voice pipeline of internal/session/pipeline.go
-- writes to the connection. The clock gives each event its time; the texts of the errors of
-- internal/protocol and the JSON of an action's payload are parameters.
use agen_sense.Prelude.{ℕ, suc, ℤ, pos, String, Option, none, some, List, [], ◌∷◌, ◌++◌, Map}
use agen_sense.Protocol.Types.{
  Values, Payload, ProtocolError, AudioStartPayload, AudioStopPayload, asr_final, llm_delta,
  llm_done, audio_start, audio_stop, action_execute, event_asr_final, event_llm_delta,
  event_llm_done, event_tts_start, event_tts_stop, event_action_execute,
}
use agen_sense.Protocol.Validate.{PayloadJson}
use agen_sense.Protocol.Envelope.{
  Outcome, done, failed, and_then, EnvelopeJson, new_event, marshal_event,
}
use agen_sense.Protocol.Stream.{StreamTracker, new_tracker, start, add_frame, stop, active_stream}
use agen_sense.Provider.Types.{AudioFormat}
use agen_sense.Session.Types.{Action, Sink}

-- A frame that the connection has taken.
pub data Written (Bytes : Type 0) : Type 0 where
  text : Bytes → Written Bytes
  binary : List ℕ → Written Bytes

-- The next write fails with the first of the faults, if that is an error.
pub record GatewaySink (Bytes : Type 0) : Type 0 where
  pub outbound : StreamTracker
  pub written : List (Written Bytes)
  pub events : ℕ
  pub faults : List (Option String)

abbrev pub new_sink : (Bytes : Type 0) → List (Option String) → GatewaySink Bytes
new_sink Bytes faults = record { outbound = new_tracker; written = []; events = 0; faults = faults }

-- What the sink takes from other packages.
pub record SinkContext (V : Values) : Type 0 where
  pub session_id : String
  pub clock : ℕ → ℤ
  pub error_text : ProtocolError → String
  pub payload_json : Map String String → V.Json

abbrev pub start_payload : String → AudioFormat → AudioStartPayload
start_payload stream_id format = record {
  stream_id = stream_id;
  codec = format.codec;
  sample_rate_hz = format.sample_rate_hz;
  channels = format.channels;
}

abbrev pub executed : (V : Values) → SinkContext V → Action → Payload V
executed V X a =
    action_execute
      (record { action_id = a.action_id; kind = a.kind; payload = X.payload_json a.payload })

module _ (V : Values) (J : PayloadJson V) (E : EnvelopeJson) (X : SinkContext V) where
  abbrev S : Type 0
  S = GatewaySink E.Bytes

  abbrev first : List (Option String) → Option String
  first [] = none
  first (f ∷ fs) = f

  abbrev others : List (Option String) → List (Option String)
  others [] = []
  others (f ∷ fs) = fs

  abbrev kept : Option String → Written E.Bytes → S → S
  kept (some e) frame s = s
  kept none frame s = record s { written = s.written ++ (frame ∷ []) }

  -- Conn.WriteText and Conn.WriteBinary
  unfoldable pub write_frame : Written E.Bytes → S → Option String × S
  write_frame frame s =
      (first s.faults, kept (first s.faults) frame (record s { faults = others s.faults }))

  -- The bytes of an event at a time.
  unfoldable pub encoded : ℕ → String → Payload V → Outcome E.Bytes
  encoded n event_type payload =
      and_then (new_event V J (X.clock n) event_type "" X.session_id (some payload))
        (marshal_event V J E)

  abbrev write_encoded : Outcome E.Bytes → S → Option String × S
  write_encoded (failed e) s = (some (X.error_text e), s)
  write_encoded (done bytes) s = write_frame (text bytes) s

  unfoldable pub write_protocol_event : String → Payload V → S → Option String × S
  unfolding write_frame encoded
  write_protocol_event event_type payload s =
      write_encoded (encoded s.events event_type payload) (record s { events = suc s.events })

  abbrev checked :
      Option ProtocolError × StreamTracker → S → (S → Option String × S) → Option String × S
  checked (some e, t) s next = (some (X.error_text e), record s { outbound = t })
  checked (none, t) s next = next (record s { outbound = t })

  unfoldable pub on_tts_start : String → AudioFormat → String → S → Option String × S
  unfolding write_protocol_event
  on_tts_start stream_id format spoken s =
      checked (start (start_payload stream_id format) s.outbound) s
        (write_protocol_event event_tts_start (audio_start (start_payload stream_id format)))

  unfoldable pub on_tts_chunk : List ℕ → S → Option String × S
  unfolding write_frame
  on_tts_chunk data_ s = checked (add_frame s.outbound) s (write_frame (binary data_))

  abbrev stopped : String → Option (AudioStartPayload × ℕ) → S → Option String × S
  stopped stream_id none s = (some "tts.stop without active outbound stream", s)
  stopped stream_id (some (p, frames)) s =
      let payload : AudioStopPayload = record { stream_id = stream_id; last_seq = pos frames } in
      checked (stop payload s.outbound) s (write_protocol_event event_tts_stop (audio_stop payload))

  unfoldable pub on_tts_stop : String → S → Option String × S
  unfolding write_protocol_event
  on_tts_stop stream_id s = stopped stream_id (active_stream s.outbound) s

  unfoldable pub on_action : Action → S → Option String × S
  on_action a = write_protocol_event event_action_execute (executed V X a)

  abbrev pub gateway_sink : Sink
  gateway_sink = record {
    State = S;
    on_asr_final =
        λ t. write_protocol_event event_asr_final (asr_final (record { stream_id = ""; text = t }));
    on_llm_delta = λ t. write_protocol_event event_llm_delta (llm_delta t);
    on_llm_done = λ t. write_protocol_event event_llm_done (llm_done t);
    on_tts_start = on_tts_start;
    on_tts_chunk = on_tts_chunk;
    on_tts_stop = on_tts_stop;
    on_action = on_action;
  }
