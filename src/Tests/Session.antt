-- ===== src/Tests/Session.antt =====
-- A turn of internal/session/pipeline.go at concrete providers and sinks.
use agen_sense.Prelude.{
  ℕ, suc, ◌+◌, ◌*◌, pos, String, false, Option, none, some, List, [], ◌∷◌, ltb, print_padded, ◌≡◌,
  refl,
}
use agen_sense.Device.Model.{Time}
use agen_sense.Provider.Types.{AudioFormat, AudioChunk}
use agen_sense.Provider.Clients.{deliver, AsrClient, LlmClient, TtsClient, heard}
use agen_sense.Trace.Types.{Floats}
use agen_sense.Trace.Store.{new_store_with_asset_dir}
use agen_sense.Protocol.Types.{
  Values, Payload, PayloadKind, audio_start, audio_stop, k_audio_start, k_audio_stop,
  k_action_execute, event_tts_start, event_tts_stop, event_action_execute,
}
use agen_sense.Protocol.Validate.{
  PayloadJson, Envelope, validate_envelope, validate_payload, validate_typed_payload,
  validate_audio_start, expected_kind,
}
use agen_sense.Protocol.Envelope.{EnvelopeJson, done, new_event, marshal_payload, marshal_event}
use agen_sense.Gateway.Sink.{
  SinkContext, start_payload, encoded, executed, text, binary, gateway_sink,
}
use agen_sense.Gateway.Speech.{resting, speech_lem}
use agen_sense.Session.Types.{Sink, PipelineRequest, TurnState}
use agen_sense.Session.Pipeline.{run_with, start_trace, noop, speak}
use agen_sense.Session.Script.{play, turn_script, chat_script, speech_script}
use agen_sense.Session.Speech.{at_sink}
use agen_sense.Session.Refinement.{run_with_lem}
use agen_sense.Session.Traces.{HasSettled, run_with-HasSettled}

abbrev whole_levels : Floats
whole_levels = record { Float = ℕ; zero_float = 0; greater = λ a b. ltb b a }

abbrev same_text : String → String
same_text s = s

abbrev ticks : ℕ → Time
ticks n = pos (62135596800000000000 + 1000000 * n)

abbrev mono : AudioFormat
mono = record { codec = "pcm_s16le"; sample_rate_hz = pos 16000; channels = pos 1 }

abbrev request : PipelineRequest
request = record {
  session_id = "s-1";
  device_id = "dev-1";
  stream_id = "in-1";
  format = mono;
  audio = 1 ∷ 2 ∷ [];
}

abbrev hears_hi : AsrClient
hears_hi = record { transcribe = λ req. heard "hi" }

abbrev says_hello : LlmClient
says_hello = record {
  chat_stream = λ req cb s. deliver ("Hello" ∷ " you" ∷ []) none cb s;
  deltas = λ req. "Hello" ∷ " you" ∷ [];
  ending = λ req. none;
  chat_stream-deliver = λ req cb s. refl;
}

abbrev two_chunks : List AudioChunk
two_chunks =
    record { data_ = 1 ∷ 2 ∷ []; format = mono } ∷ record { data_ = 3 ∷ []; format = mono } ∷ []

abbrev speaks_twice : TtsClient
speaks_twice = record {
  synthesize_stream = λ req cb s. deliver two_chunks none cb s;
  chunks = λ req. two_chunks;
  ending = λ req. none;
  synthesize_stream-deliver = λ req cb s. refl;
}

-- A sink that counts its calls and fails at the start of the speech.
abbrev counting : Sink
counting = record {
  State = ℕ;
  on_asr_final = λ t n. (none, suc n);
  on_llm_delta = λ t n. (none, suc n);
  on_llm_done = λ t n. (none, suc n);
  on_tts_start = λ id f t n. (some "closed", suc n);
  on_tts_chunk = λ d n. (none, suc n);
  on_tts_stop = λ id n. (none, suc n);
  on_action = λ a n. (none, suc n);
}

abbrev fresh_turn : TurnState whole_levels same_text counting
fresh_turn = record {
  debug = some (
      new_store_with_asset_dir whole_levels same_text (pos 2) "" (record { dirs = []; faults = [] })
        ticks);
  id_counter = 0;
  sink = 0;
}

run_with_lem_example :
    at_sink same_text whole_levels same_text counting (
      run_with same_text whole_levels same_text counting hears_hi says_hello speaks_twice request
        fresh_turn)
    ≡ play counting (turn_script same_text hears_hi says_hello speaks_twice request 0) 0
run_with_lem_example =
    run_with_lem same_text whole_levels same_text counting hears_hi says_hello speaks_twice request
      fresh_turn

failed_at_speech :
    play counting (turn_script same_text hears_hi says_hello speaks_twice request 0) 0
    ≡ (some "closed", 5)
unfolding turn_script chat_script speech_script
failed_at_speech = refl

run_with-HasSettled_example :
    HasSettled whole_levels same_text
      (start_trace same_text whole_levels same_text counting request fresh_turn).0
      (run_with same_text whole_levels same_text counting hears_hi says_hello speaks_twice request
        fresh_turn).0
      (run_with same_text whole_levels same_text counting hears_hi says_hello speaks_twice request
        fresh_turn).1.debug
run_with-HasSettled_example =
    run_with-HasSettled whole_levels same_text same_text counting hears_hi says_hello speaks_twice
      request fresh_turn

abbrev values : Values
values = record { Json = ℕ; Float = ℕ; below_zero = λ x. false; above_one = λ x. false }

abbrev context : SinkContext values
context = record {
  session_id = "s-1";
  clock = λ n. pos (suc n);
  error_text = λ e. "invalid";
  payload_json = λ m. 0;
}

abbrev read_kind : PayloadKind → Option (Payload values)
read_kind k_audio_start = some (audio_start (start_payload "tts-000001" mono))
read_kind k_audio_stop = some (audio_stop (record { stream_id = "tts-000001"; last_seq = pos 2 }))
read_kind k_action_execute = some (executed values context (noop 2))
read_kind _ = none

abbrev small_json : PayloadJson values
small_json = record { unmarshal = λ k raw. read_kind k; marshal = λ p. some (some (1 ∷ [])) }

abbrev as_is : EnvelopeJson
as_is = record { Bytes = Envelope; marshal = some; unmarshal = some }

abbrev event_at : ℕ → String → Envelope
event_at n t = record {
  type = t;
  request_id = "";
  session_id = "s-1";
  ts_ms = pos (suc n);
  payload = some (1 ∷ []);
}

events_encode :
    (encoded values small_json as_is context 0 event_tts_start
        (audio_start (start_payload "tts-000001" mono))
      ≡ done (event_at 0 event_tts_start))
    × (encoded values small_json as_is context 1 event_tts_stop
          (audio_stop (record { stream_id = "tts-000001"; last_seq = pos 2 }))
        ≡ done (event_at 1 event_tts_stop))
    × (encoded values small_json as_is context 2 event_action_execute
          (executed values context (noop 2))
        ≡ done (event_at 2 event_action_execute))
unfolding encoded new_event marshal_event marshal_payload validate_envelope validate_payload
    validate_typed_payload validate_audio_start expected_kind print_padded
events_encode = (refl, refl, refl)

mono_valid : validate_audio_start (start_payload "tts-000001" mono) ≡ none
unfolding validate_audio_start
mono_valid = refl

abbrev gateway_turn :
    TurnState whole_levels same_text (gateway_sink values small_json as_is context)
gateway_turn = record {
  debug = none;
  id_counter = 0;
  sink = resting values small_json as_is context 0 [];
}

speech_lem_example :
    at_sink same_text whole_levels same_text (gateway_sink values small_json as_is context) (
      speak same_text whole_levels same_text
        (gateway_sink values small_json as_is context)
        speaks_twice
        none
        request
        "Hello you"
        gateway_turn)
    ≡ (
      none,
      resting values small_json as_is context 3 (
          text (event_at 0 event_tts_start)
          ∷ binary (1 ∷ 2 ∷ [])
          ∷ binary (3 ∷ [])
          ∷ text (event_at 1 event_tts_stop)
          ∷ text (event_at 2 event_action_execute)
          ∷ []),
    )
unfolding print_padded
speech_lem_example =
    speech_lem values small_json as_is context same_text whole_levels same_text speaks_twice none
      request "Hello you" 0 [] (event_at 0 event_tts_start) (event_at 1 event_tts_stop)
      (event_at 2 event_action_execute) gateway_turn refl refl mono_valid events_encode.0
      events_encode.1 events_encode.2
