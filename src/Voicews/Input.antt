-- ===== src/Voicews/Input.antt =====
-- The audio input of a voice session of internal/voicews/session.go: handleAudioStart and what the
-- handlers share. A reading of the clock is an argument; the zero time is 0. Counts do not wrap.
pub mod Chunks
pub mod Stops
pub mod Segments
pub mod Invariant
pub mod Utterance
use Prim.Native.String.{◌++◌ as join}
use agen_sense.Prelude.{
  ℕ, ℤ, pos, zero, suc, ◌+◌, ◌-◌, ◌-ℤ◌, ltb_ℤ, leb_ℤ, beq_ℤ, is_positive, String, Bool, true, false,
  not, ◌&&◌, ◌||◌, Option, none, some, List, [], ◌∷◌, ◌++◌, length, take, drop, min, ltb, leb,
  nat_beq, ◌==◌, string_eq, int_eq, if◌then◌else◌, print_padded3, is_some,
}
use agen_sense.Provider.Types.{AudioFormat}
use agen_sense.Protocol.Types.{AudioStartPayload, AudioStopPayload, ProtocolError}
use agen_sense.Protocol.Stream.{StreamTracker, new_tracker, start, add_frame, stop, active_stream}
use agen_sense.Voicews.State.{
  Levels, format_byte_duration, duration_ms, CompletedSegment, Inbound, Vad, Partial, Session,
  TraceCall, opened, event, segment_started, segment_completed, input_audio, asr_started, failed,
  completed, Output, cancelled, traced, vad_state, response_done, partial_asr, final_asr, Failure,
  because, protocol_error, Handled, on_trace,
}

module _ (L : Levels) where
  abbrev pub cancel_all : Option ℕ → List (Output L)
  cancel_all none = []
  cancel_all (some c) = cancelled c ∷ []

  -- cancelResponse: whether a response was running, the session, and the call of its cancel.
  unfoldable pub cancel_response : Session L → Bool × Session L × List (Output L)
  cancel_response s =
      (is_some s.response_cancel, record s { response_cancel = none }, cancel_all s.response_cancel)

  -- cancelPartialASRLocked; the cancel function is called by its callers.
  unfoldable pub cancel_partial_asr_locked : Partial L → Partial L
  cancel_partial_asr_locked p = record p { run_id = suc p.run_id; cancel = none; in_flight = false }

  unfoldable pub complete_open_trace : Session L → Session L × List (Output L)
  complete_open_trace s = (record s { turn_trace = none }, on_trace L s.turn_trace completed)

  -- startTraceLocked
  unfoldable pub start_trace_locked : Session L → Option ℕ
  start_trace_locked s = if s.has_debug then some s.fresh else none

  -- The bounds of the slice that ends a segment; the start is a length, so not negative.
  unfoldable pub end_of : ℕ → ℕ → ℕ → ℕ
  end_of size first end_byte =
      let last = if ltb size end_byte then size else end_byte in
      if ltb last first then first else last

  unfoldable pub complete_active_segment_locked :
      String → AudioFormat → List ℕ → ℕ → L.Float → Vad L → Option (CompletedSegment L) × Vad L
  complete_active_segment_locked stream_id format audio end_byte end_level v =
      let last = end_of (length audio) v.segment_start_byte end_byte in
      let segment : CompletedSegment L = record {
        id = v.active_segment_id;
        stream_id = stream_id;
        format = format;
        audio = take (last - v.segment_start_byte) (drop v.segment_start_byte audio);
        start_offset_ms = v.segment_start_ms;
        end_offset_ms = duration_ms L (format_byte_duration L format last);
        end_level = end_level;
        peak_level = v.segment_peak_level;
      } in
      let next : Vad L = record v {
        last_segment_id = v.active_segment_id;
        active_segment_id = "";
        segment_start_byte = 0;
        segment_start_ms = pos 0;
        segment_peak_level = L.zero_level;
      } in
      if v.active_segment_id == "" then (none, v) else (some segment, next)

  -- recordCompletedSegment
  abbrev pub record_completed_segment : Option ℕ → Option (CompletedSegment L) → List (Output L)
  record_completed_segment trace none = []
  record_completed_segment trace (some segment) = on_trace L trace (segment_completed segment)

  abbrev pub new_vad : Vad L
  new_vad = record {
    speech_active = false;
    silence_bytes = 0;
    segment_seq = 0;
    active_segment_id = "";
    last_segment_id = "";
    segment_start_byte = 0;
    segment_start_ms = pos 0;
    segment_peak_level = L.zero_level;
  }

  abbrev pub format_of : AudioStartPayload → AudioFormat
  format_of p = record { codec = p.codec; sample_rate_hz = p.sample_rate_hz; channels = p.channels }

  -- `now.Before(playbackEchoUntil)`, when the session answers by itself.
  abbrev pub guards_echo : ℤ → Session L → Bool
  guards_echo now s = s.cfg.auto_respond && ltb_ℤ now s.playback_echo_until

  -- handleAudioStart after the tracker has taken the stream.
  unfoldable pub begin_input :
      ℤ → AudioStartPayload → StreamTracker → Session L → Session L × List (Output L)
  begin_input now payload tracker s =
      let trace = start_trace_locked s in
      (
        record s {
          inbound = record {
            tracker = tracker;
            format = format_of payload;
            audio = [];
            seq = 0;
            started_at = now;
            echo_guard = guards_echo now s;
          };
          vad = new_vad;
          partial = record {
            in_flight = false;
            cancel = none;
            run_id = suc s.partial.run_id;
            last_at = pos 0;
            last_text = "";
            last_size = 0;
          };
          turn_trace = trace;
          fresh = suc s.fresh;
        },
        on_trace L trace opened
            ++ on_trace L trace (event "ws.stream.bound")
            ++ on_trace L trace (event "ws.audio.start")
            ++ (if guards_echo now s then on_trace L trace (event "playback.echo_guard") else []),
      )

  abbrev pub with_tracker : StreamTracker → Session L → Session L
  with_tracker t s = record s { inbound = record s.inbound { tracker = t } }

  abbrev pub started :
      ℤ
      → AudioStartPayload
      → Option ProtocolError × StreamTracker
      → Session L
      → List (Output L)
      → Handled L
  started now payload (some e, t) s outs = (some (protocol_error e), with_tracker t s, outs)
  started now payload (none, t) s outs =
      let (next, more) = begin_input now payload t s in (none, next, outs ++ more)

  -- The cancels of handleAudioStart before it asks the tracker.
  unfoldable pub set_aside : Session L → Session L × List (Output L)
  set_aside s =
      let (was_active, s1, first) = cancel_response s in
      let s2 = record s1 { partial = cancel_partial_asr_locked s1.partial } in
      let (s3, last) = complete_open_trace s2 in (s3, first ++ cancel_all s1.partial.cancel ++ last)

  unfoldable pub handle_audio_start : ℤ → AudioStartPayload → Session L → Handled L
  handle_audio_start now payload s =
      let (free, outs) = set_aside s in
      if payload.stream_id == ""
      then (some (because "audio.start.payload.stream_id is required"), s, [])
      else if not (payload.codec == "pcm_s16le")
      then (some (because "audio.start.payload.codec must be pcm_s16le"), s, [])
      else if not (is_positive payload.sample_rate_hz) || not (is_positive payload.channels)
      then (some (because "audio.start payload sample rate and channels must be > 0"), s, [])
      else started now payload (start payload free.inbound.tracker) free outs
