-- ===== src/Tests/Gateway.antt =====
-- The loop of internal/gateway/handler.go at a concrete input.
use agen_sense.Prelude.{
  ℕ, pos, String, Bool, true, false, Option, none, some, List, [], ◌∷◌, ◌≡◌, refl, string_eq,
  int_eq,
}
use agen_sense.Protocol.Types.{
  Values, Payload, PayloadKind, AudioStartPayload, AudioStopPayload, audio_start, audio_stop,
  k_audio_start, k_audio_stop,
}
use agen_sense.Protocol.Validate.{
  PayloadJson, Envelope, validate_envelope, validate_payload, validate_typed_payload,
  validate_audio_start, expected_kind,
}
use agen_sense.Protocol.Envelope.{EnvelopeJson, done, decode_event, decode_payload}
use agen_sense.Gateway.Handler.{
  DeviceContext, Control, Session, Frame, text, binary, no_stream, AudioFormat, serve,
}
use agen_sense.Gateway.Invariant.{IsConsistent, idle, serve-IsConsistent}
use agen_sense.Gateway.Turn.{turn_lem, handed, concat}

abbrev values : Values
values = record { Json = ℕ; Float = ℕ; below_zero = λ x. false; above_one = λ x. false }

abbrev voice : AudioStartPayload
voice = record {
  stream_id = "s";
  codec = "pcm_s16le";
  sample_rate_hz = pos 16000;
  channels = pos 1;
}

abbrev ending : AudioStopPayload
ending = record { stream_id = "s"; last_seq = pos 2 }

abbrev read_kind : PayloadKind → Option (Payload values)
read_kind k_audio_start = some (audio_start voice)
read_kind k_audio_stop = some (audio_stop ending)
read_kind _ = none

abbrev audio_json : PayloadJson values
audio_json = record { unmarshal = λ k raw. read_kind k; marshal = λ p. none }

abbrev as_is : EnvelopeJson
as_is = record { Bytes = Envelope; marshal = some; unmarshal = some }

abbrev event_of : String → Envelope
event_of t = record {
  type = t;
  request_id = "";
  session_id = "";
  ts_ms = pos 1;
  payload = some (1 ∷ []);
}

abbrev no_control : Control
no_control = record {
  State = ℕ;
  ack_config = λ d v s. (true, s);
  update_telemetry = λ d m s. (true, s);
}

abbrev context : DeviceContext values
context = record {
  device_id = "dev-1";
  config_version = pos 3;
  config = 0;
  default_audio_codec = "opus";
  default_sample_rate_hz = pos 8000;
}

abbrev greeted : Session values no_control
greeted = record { control = 0; hello_seen = true; stream = no_stream; outputs = []; faults = [] }

abbrev failing_pipeline : String → AudioFormat → List ℕ → Bool
failing_pipeline id format audio = false

audio_events_decode :
    (decode_event values audio_json as_is (event_of "audio.start") ≡ done (event_of "audio.start"))
    × (decode_event values audio_json as_is (event_of "audio.stop") ≡ done (event_of "audio.stop"))
    × (decode_payload values audio_json k_audio_start (event_of "audio.start")
        ≡ done (audio_start voice))
    × (decode_payload values audio_json k_audio_stop (event_of "audio.stop")
        ≡ done (audio_stop ending))
unfolding decode_event decode_payload validate_envelope validate_payload validate_typed_payload
    validate_audio_start expected_kind
audio_events_decode = (refl, refl, refl, refl)

turn_lem_example :
    serve values audio_json as_is no_control context failing_pipeline
      (text (event_of "audio.start")
        ∷ binary (1 ∷ 2 ∷ [])
        ∷ binary (3 ∷ [])
        ∷ text (event_of "audio.stop")
        ∷ [])
      greeted
    ≡ serve values audio_json as_is no_control context failing_pipeline [] (
        handed values audio_json as_is no_control context failing_pipeline voice
          (1 ∷ 2 ∷ 3 ∷ [])
          greeted)
unfolding concat
turn_lem_example =
    turn_lem values audio_json as_is no_control context failing_pipeline (event_of "audio.start")
      (event_of "audio.stop") (event_of "audio.start") (event_of "audio.stop") voice ending
      ((1 ∷ 2 ∷ []) ∷ (3 ∷ []) ∷ []) [] greeted audio_events_decode.0 refl audio_events_decode.2
      audio_events_decode.1 refl audio_events_decode.3 refl refl

abbrev some_frames : List (Frame Envelope)
some_frames =
    binary (9 ∷ [])
    ∷ text (event_of "audio.start")
    ∷ binary (1 ∷ 2 ∷ [])
    ∷ text (event_of "audio.stop")
    ∷ []

serve-IsConsistent_example :
    IsConsistent
      (serve values audio_json as_is no_control context failing_pipeline some_frames
        greeted).hello_seen
      (serve values audio_json as_is no_control context failing_pipeline some_frames greeted).stream
serve-IsConsistent_example =
    serve-IsConsistent values audio_json as_is no_control context failing_pipeline some_frames
      greeted idle
