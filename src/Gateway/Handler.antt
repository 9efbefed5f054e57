-- ===== src/Gateway/Handler.antt =====
-- internal/gateway/handler.go: the loop of ServeHTTP over the frames of one connection, after the
-- authentication and the upgrade.
--
-- The control plane is the interface that the handler calls. The voice pipeline is a parameter by
-- its error; what it writes to the connection is in Gateway.Sink. What the handler writes is kept
-- as the events, each of which the connection accepts or not as a list tells. Messages of errors and
-- the log are left out.
use agen_sense.Prelude.{
  ℕ, ℤ, pos, String, Option, none, some, Bool, true, false, not, ◌&&◌, List, [], ◌∷◌, ◌++◌, ◌==◌,
  string_eq, int_eq, is_positive, is_blank, if◌then◌else◌,
}
use agen_sense.Device.Model.{RawMessage}
use agen_sense.Protocol.Types.{
  Values, Payload, AudioStartPayload, AudioStopPayload, HelloPayload, ProtocolError, hello,
  audio_start, audio_stop, config_ack, k_hello, k_audio_start, k_audio_stop, k_config_ack,
  event_hello, event_telemetry, event_audio_start, event_audio_stop, event_config_ack,
}
use agen_sense.Protocol.Validate.{PayloadJson, Envelope}
use agen_sense.Protocol.Envelope.{Outcome, done, failed, EnvelopeJson, decode_event, decode_payload}
use agen_sense.Protocol.Stream.{StreamTracker, new_tracker, start, add_frame, stop}

pub record AudioFormat : Type 0 where
  pub codec : String
  pub sample_rate_hz : ℤ
  pub channels : ℤ

-- What the handler uses of the device context.
pub record DeviceContext (V : Values) : Type 0 where
  pub device_id : String
  pub config_version : ℤ
  pub config : V.Json
  pub default_audio_codec : String
  pub default_sample_rate_hz : ℤ

pub record StreamState : Type 0 where
  pub id : String
  pub format : AudioFormat
  pub audio : List ℕ
  pub tracker : StreamTracker

abbrev pub no_format : AudioFormat
no_format = record { codec = ""; sample_rate_hz = pos 0; channels = pos 0 }

abbrev pub no_stream : StreamState
no_stream = record { id = ""; format = no_format; audio = []; tracker = new_tracker }

pub record Control : Type 1 where
  pub State : Type 0
  pub ack_config : String → ℤ → State → Bool × State
  pub update_telemetry : String → RawMessage → State → Bool × State

-- What the handler does to the outside: events with their request id, and turns of the pipeline.
pub data Output (V : Values) : Type 0 where
  error_event : String → String → Output V
  hello_ok_event : String → ℤ → Output V
  config_event : ℤ → V.Json → Output V
  turn : String → AudioFormat → List ℕ → Output V

pub record Session (V : Values) (C : Control) : Type 0 where
  pub control : C.State
  pub hello_seen : Bool
  pub stream : StreamState
  pub outputs : List (Output V)
  pub faults : List Bool

pub data Frame (Bytes : Type 0) : Type 0 where
  text : Bytes → Frame Bytes
  binary : List ℕ → Frame Bytes
  close : Frame Bytes
  unsupported : Frame Bytes

abbrev pub fallback_string : String → String → String
fallback_string value fallback = if is_blank value then fallback else value

abbrev pub fallback_int : ℤ → ℤ → ℤ
fallback_int value fallback = if is_positive value then value else fallback

module _ (V : Values) (J : PayloadJson V) (E : EnvelopeJson) (C : Control) where
  abbrev Sess : Type 0
  Sess = Session V C

  -- Whether a write succeeds is the next entry of the list; true when it is empty.
  abbrev accepted : List Bool → Bool
  accepted [] = true
  accepted (b ∷ bs) = b

  abbrev later_faults : List Bool → List Bool
  later_faults [] = []
  later_faults (b ∷ bs) = bs

  -- A write: whether it succeeded, and the session with the event sent.
  abbrev pub write : Output V → Sess → Bool × Sess
  write o s =
      let ok = accepted s.faults in
      (
        ok,
        record s {
          outputs = if ok then s.outputs ++ (o ∷ []) else s.outputs;
          faults = later_faults s.faults;
        },
      )

  -- `_ = writeProtocolEvent(..., ErrorPayload{...}); continue`
  abbrev pub reject : String → String → Sess → Bool × Sess
  reject request code s = (true, (write (error_event request code) s).1)

  abbrev hello_of : Outcome (Payload V) → Option (HelloPayload V)
  hello_of (done (hello p)) = some p
  hello_of _ = none

  abbrev pub audio_start_of : Outcome (Payload V) → Option AudioStartPayload
  audio_start_of (done (audio_start p)) = some p
  audio_start_of _ = none

  abbrev audio_stop_of : Outcome (Payload V) → Option AudioStopPayload
  audio_stop_of (done (audio_stop p)) = some p
  audio_stop_of _ = none

  abbrev config_ack_of : Outcome (Payload V) → Option ℤ
  config_ack_of (done (config_ack v)) = some v
  config_ack_of _ = none

  module _ (dev : DeviceContext V) (pipeline : String → AudioFormat → List ℕ → Bool) where
    abbrev acked : ℤ → Sess → Sess
    acked version s =
        if is_positive version && not (version == dev.config_version)
        then record s { control = (C.ack_config dev.device_id version s.control).1 }
        else s

    -- hello.ok and then the configuration; a write that fails ends the loop.
    abbrev welcome : String → Sess → Bool × Sess
    welcome request s =
        let (ok, s') = write (hello_ok_event request dev.config_version) s in
        if ok then write (config_event dev.config_version dev.config) s' else (false, s')

    abbrev hello_frame : String → Option (HelloPayload V) → Sess → Bool × Sess
    hello_frame request none s = reject request "invalid_hello" s
    hello_frame request (some p) s =
        welcome request (acked p.config_version (record s { hello_seen = true }))

    abbrev telemetry_frame : RawMessage → Sess → Bool × Sess
    telemetry_frame payload s =
        let (ok, control) = C.update_telemetry dev.device_id payload s.control in
        let s' : Sess = record s { control = control } in
        if ok then (true, s') else reject "" "telemetry_rejected" s'

    abbrev pub format_of : AudioStartPayload → AudioFormat
    format_of p = record {
      codec = fallback_string p.codec dev.default_audio_codec;
      sample_rate_hz = fallback_int p.sample_rate_hz dev.default_sample_rate_hz;
      channels = fallback_int p.channels (pos 1);
    }

    abbrev opened : AudioStartPayload → Option ProtocolError × StreamTracker → Sess → Bool × Sess
    opened p (some e, t) s =
        reject "" "stream_rejected" (record s { stream = record s.stream { tracker = t } })
    opened p (none, t) s = (
      true,
      record s {
        stream = record { id = p.stream_id; format = format_of p; audio = []; tracker = t };
      },
    )

    abbrev start_frame : Option AudioStartPayload → Sess → Bool × Sess
    start_frame none s = reject "" "invalid_audio_start" s
    start_frame (some p) s = opened p (start p s.stream.tracker) s

    unfoldable pub on_audio_start : Envelope → Sess → Bool × Sess
    on_audio_start event s =
        if s.hello_seen
        then start_frame (audio_start_of (decode_payload V J k_audio_start event)) s
        else reject "" "hello_required" s

    -- The turn, and the reset after it.
    abbrev turned : Sess → Bool × Sess
    turned s =
        let s' : Sess = record s {
          stream = no_stream;
          outputs = s.outputs ++ (turn s.stream.id s.stream.format s.stream.audio ∷ []);
        } in
        if pipeline s.stream.id s.stream.format s.stream.audio
        then (true, s')
        else reject "" "pipeline_failed" s'

    abbrev closed : Option ProtocolError × StreamTracker → Sess → Bool × Sess
    closed (some e, t) s = (true, record (reject "" "stream_mismatch" s).1 { stream = no_stream })
    closed (none, t) s = turned (record s { stream = record s.stream { tracker = t } })

    abbrev stop_frame : Option AudioStopPayload → Sess → Bool × Sess
    stop_frame none s = reject "" "invalid_audio_stop" s
    stop_frame (some q) s = closed (stop q s.stream.tracker) s

    unfoldable pub on_audio_stop : Envelope → Sess → Bool × Sess
    on_audio_stop event s =
        if s.stream.id == ""
        then reject "" "no_active_stream" s
        else stop_frame (audio_stop_of (decode_payload V J k_audio_stop event)) s

    abbrev config_ack_frame : Option ℤ → Sess → Bool × Sess
    config_ack_frame none s = reject "" "invalid_config_ack" s
    config_ack_frame (some version) s =
        let (ok, control) = C.ack_config dev.device_id version s.control in
        let s' : Sess = record s { control = control } in
        if ok then (true, s') else reject "" "config_ack_failed" s'

    unfoldable pub on_event : Envelope → Sess → Bool × Sess
    unfolding on_audio_start on_audio_stop
    on_event event s =
        if event.type == event_hello
        then hello_frame event.request_id (hello_of (decode_payload V J k_hello event)) s
        else if event.type == event_telemetry
        then telemetry_frame event.payload s
        else if event.type == event_audio_start
        then on_audio_start event s
        else if event.type == event_audio_stop
        then on_audio_stop event s
        else if event.type == event_config_ack
        then config_ack_frame (config_ack_of (decode_payload V J k_config_ack event)) s
        else reject "" "unknown_event" s

    abbrev pub decoded : Outcome Envelope → Sess → Bool × Sess
    decoded (failed e) s = reject "" "invalid_event" s
    decoded (done event) s = on_event event s

    abbrev framed : List ℕ → Option ProtocolError × StreamTracker → Sess → Bool × Sess
    framed payload (some e, t) s = reject "" "stream_rejected" s
    framed payload (none, t) s = (
      true,
      record s { stream = record s.stream { audio = s.stream.audio ++ payload; tracker = t } },
    )

    unfoldable pub on_binary : List ℕ → Sess → Bool × Sess
    on_binary payload s =
        if s.stream.id == ""
        then reject "" "no_active_stream" s
        else framed payload (add_frame s.stream.tracker) s

    -- One turn of the loop: whether it goes on, and the session after it.
    unfoldable pub on_frame : Frame E.Bytes → Sess → Bool × Sess
    unfolding on_event on_binary
    on_frame (text data_) s = decoded (decode_event V J E data_) s
    on_frame (binary payload) s = on_binary payload s
    on_frame close s = (false, s)
    on_frame unsupported s = reject "" "unsupported_frame" s

    -- The loop over the frames that the connection gives; a read error ends it, as the list's end.
    unfoldable pub serve : List (Frame E.Bytes) → Sess → Sess
    unfolding on_frame
    serve [] s = s
    serve (f ∷ fs) s =
        let (more, s') = on_frame f s in let rest = serve fs s' in if more then rest else s'
