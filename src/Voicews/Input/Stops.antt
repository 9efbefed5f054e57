-- ===== src/Voicews/Input/Stops.antt =====
-- handleAudioStop and cancelInput of internal/voicews/session.go.
use agen_sense.Prelude.{
  ℕ, pos, false, not, Option, none, some, List, [], ◌∷◌, ◌++◌, length, ◌==◌, string_eq, int_eq,
  if◌then◌else◌,
}
use agen_sense.Protocol.Types.{AudioStartPayload, AudioStopPayload, ProtocolError}
use agen_sense.Protocol.Stream.{StreamTracker, new_tracker, stop, active_stream}
use agen_sense.Voicews.State.{
  Levels, CompletedSegment, Session, event, input_audio, asr_started, failed, completed, Output,
  response_done, final_asr, because, protocol_error, Handled, on_trace,
}
use agen_sense.Voicews.Input.{
  cancel_all, cancel_partial_asr_locked, complete_active_segment_locked, record_completed_segment,
  with_tracker,
}

module _ (L : Levels) where
  -- The end of a stream that the tracker has stopped: the cleared session, the completed segment and
  -- the cancelled partial transcription.
  unfoldable pub end_input :
      AudioStopPayload → StreamTracker → Session L → Option (CompletedSegment L) × Session L
  end_input payload t s =
      let (segment, v) =
        complete_active_segment_locked L payload.stream_id s.inbound.format s.inbound.audio
          (length s.inbound.audio) L.zero_level s.vad in
      (
        segment,
        record s {
          inbound = record s.inbound {
            tracker = t;
            audio = [];
            seq = 0;
            started_at = pos 0;
            echo_guard = false;
          };
          vad = v;
          partial = cancel_partial_asr_locked L s.partial;
        },
      )

  abbrev pub stop_outputs :
      AudioStopPayload → Option (CompletedSegment L) → Session L → List (Output L)
  stop_outputs payload segment s =
      cancel_all L s.partial.cancel
      ++ on_trace L s.turn_trace (input_audio s.inbound.format s.inbound.audio)
      ++ on_trace L s.turn_trace (event "ws.audio.stop")
      ++ on_trace L s.turn_trace (asr_started s.inbound.format (length s.inbound.audio))
      ++ record_completed_segment L s.turn_trace segment

  -- What handleAudioStop does with the audio; `s` is the session before the stream ended.
  unfoldable pub finish_input :
      AudioStopPayload → Session L → Session L → List (Output L) → Handled L
  finish_input payload s ended outs =
      if s.inbound.echo_guard
      then (
        none,
        record ended { turn_trace = none },
        outs
            ++ on_trace L s.turn_trace (event "playback.echo_suppressed")
            ++ on_trace L s.turn_trace (event "response.done")
            ++ on_trace L s.turn_trace completed
            ++ response_done "echo_suppressed" ∷ [],
      )
      else if not s.has_asr
      then (
        some (because "voice session is not configured"),
        ended,
        outs ++ on_trace L s.turn_trace failed,
      )
      else (
        none,
        ended,
        outs
            ++ final_asr s.cfg payload.stream_id s.inbound.format s.inbound.audio s.turn_trace ∷ [],
      )

  abbrev pub stopped :
      AudioStopPayload → Option ProtocolError × StreamTracker → Session L → Handled L
  stopped payload (some e, t) s = (some (protocol_error e), with_tracker L t s, [])
  stopped payload (none, t) s =
      let (segment, ended) = end_input payload t s in
      finish_input payload s ended (stop_outputs payload segment s)

  abbrev pub stop_of : AudioStopPayload → Option (AudioStartPayload × ℕ) → Session L → Handled L
  stop_of payload none s = (some (because "audio.stop received without audio.start"), s, [])
  stop_of payload (some (active, frames)) s =
      if not (payload.stream_id == active.stream_id)
      then (some (because "audio.stop stream_id mismatch"), s, [])
      else if not (payload.last_seq == pos frames)
      then (some (because "audio.stop last_seq does not match frame count"), s, [])
      else stopped payload (stop payload s.inbound.tracker) s

  unfoldable pub handle_audio_stop : AudioStopPayload → Session L → Handled L
  handle_audio_stop payload s = stop_of payload (active_stream s.inbound.tracker) s

  unfoldable pub cancel_input : Session L → Session L × List (Output L)
  cancel_input s = (
    record s {
      inbound = record s.inbound { tracker = new_tracker; audio = []; seq = 0 };
      vad = record s.vad { speech_active = false; silence_bytes = 0 };
      partial = record (cancel_partial_asr_locked L s.partial) {
        last_at = pos 0;
        last_text = "";
        last_size = 0;
      };
    },
    cancel_all L s.partial.cancel,
  )
