-- ===== src/Voicews/Input/Chunks.antt =====
-- handleAudioChunk of internal/voicews/session.go.
use Prim.Native.String.{◌++◌ as join}
use agen_sense.Prelude.{
  ℕ, ℤ, pos, suc, ◌+◌, ◌-◌, ◌-ℤ◌, leb_ℤ, beq_ℤ, String, Bool, true, false, not, ◌&&◌, ◌||◌, Option,
  none, some, List, [], ◌∷◌, ◌++◌, length, nat_beq, string_eq, int_eq, if◌then◌else◌, print_padded3,
}
use agen_sense.Provider.Types.{AudioFormat}
use agen_sense.Protocol.Types.{AudioStartPayload, ProtocolError}
use agen_sense.Protocol.Stream.{StreamTracker, add_frame, active_stream}
use agen_sense.Voicews.State.{
  Levels, format_byte_duration, duration_ms, CompletedSegment, Inbound, Vad, Session,
  segment_started, Output, vad_state, partial_asr, because, protocol_error, Handled, on_trace,
}
use agen_sense.Voicews.Input.{
  complete_active_segment_locked, record_completed_segment, with_tracker,
}

module _ (L : Levels) where
  -- The new segment of a chunk that starts speech.
  abbrev pub open_segment : AudioFormat → ℕ → L.Float → Vad L → Vad L
  open_segment format chunk_start level v = record {
    speech_active = true;
    silence_bytes = 0;
    segment_seq = suc v.segment_seq;
    active_segment_id = join "segment-" (print_padded3 (suc v.segment_seq));
    last_segment_id = v.last_segment_id;
    segment_start_byte = chunk_start;
    segment_start_ms = duration_ms L (format_byte_duration L format chunk_start);
    segment_peak_level = level;
  }

  -- The voice activity after a chunk: the segment that it completes, the activity, and whether the
  -- chunk started (`some true`) or stopped (`some false`) speech.
  abbrev pub Heard : Type 0
  Heard = Option (CompletedSegment L) × Vad L × Option Bool

  unfoldable pub detect : String → AudioFormat → ℕ → List ℕ → ℕ → L.Float → Vad L → Heard
  detect stream_id format chunk_start audio size level v =
      let silence = v.silence_bytes + size in
      let quiet : Vad L = record v { speech_active = false; silence_bytes = 0 } in
      let (segment, ended) =
        complete_active_segment_locked L stream_id format audio (length audio) level quiet in
      if L.is_speech level
      then (if v.speech_active
          then (none, record v { silence_bytes = 0 }, none)
          else (none, open_segment format chunk_start level v, some true))
      else if v.speech_active
      then (if leb_ℤ (pos 220000000) (format_byte_duration L format silence)
          then (segment, ended, some false)
          else (none, record v { silence_bytes = silence }, none))
      else (none, v, none)

  -- `if s.speechActive && level > s.segmentPeakLevel`
  unfoldable pub raise_peak : L.Float → Vad L → Vad L
  raise_peak level v =
      if v.speech_active && L.greater level v.segment_peak_level
      then record v { segment_peak_level = level }
      else v

  -- The inbound stream after a frame.
  abbrev pub received : List ℕ → StreamTracker → Inbound L → Inbound L
  received payload t i = record i { tracker = t; audio = i.audio ++ payload; seq = suc i.seq }

  -- The test for a partial transcription of the audio so far. `last_size` is an earlier length.
  unfoldable pub can_partial : ℤ → Session L → Bool
  can_partial now s =
      s.has_asr
      && not s.inbound.echo_guard
      && not (nat_beq (length s.inbound.audio) 0)
      && not s.partial.in_flight
      && (leb_ℤ (pos 1500000000) (now -ℤ s.partial.last_at) || beq_ℤ s.partial.last_at (pos 0))
      && leb_ℤ (pos 1200000000)
          (format_byte_duration L s.inbound.format (length s.inbound.audio - s.partial.last_size))

  -- The partial transcription that starts, and the session after it.
  unfoldable pub begin_partial : ℤ → String → Session L → Session L × List (Output L)
  begin_partial now stream_id s =
      let run_id = suc s.partial.run_id in
      if can_partial now s
      then (
        record s {
          partial = record s.partial {
            run_id = run_id;
            in_flight = true;
            cancel = some s.fresh;
            last_at = now;
            last_size = length s.inbound.audio;
          };
          fresh = suc s.fresh;
        },
        partial_asr run_id s.cfg stream_id s.inbound.format s.inbound.audio ∷ [],
      )
      else (s, [])

  abbrev pub vad_outputs : L.Float → Option Bool → List (Output L)
  vad_outputs level none = []
  vad_outputs level (some true) = vad_state "speech_started" level ∷ []
  vad_outputs level (some false) = vad_state "speech_stopped" level ∷ []

  abbrev pub segment_outputs :
      Option ℕ → String → AudioFormat → L.Float → Vad L → Option Bool → List (Output L)
  segment_outputs trace stream_id format level v (some true) =
      on_trace L trace
        (segment_started v.active_segment_id stream_id format v.segment_start_ms level)
  segment_outputs trace stream_id format level v _ = []

  -- A chunk of the stream `stream_id`, whose frame the tracker has taken.
  unfoldable pub hear :
      ℤ → List ℕ → String → StreamTracker → Session L → Session L × List (Output L)
  hear now payload stream_id t s =
      let inbound = received payload t s.inbound in
      let level = L.pcm_level payload in
      let (segment, v, changed) =
        detect stream_id inbound.format (length s.inbound.audio) inbound.audio (length payload)
          level s.vad in
      let (next, last) =
        begin_partial now stream_id (record s { inbound = inbound; vad = raise_peak level v }) in
      (
        next,
        segment_outputs s.turn_trace stream_id inbound.format level v changed
            ++ vad_outputs level changed
            ++ record_completed_segment L s.turn_trace segment
            ++ last,
      )

  abbrev pub framed :
      ℤ → List ℕ → String → Option ProtocolError × StreamTracker → Session L → Handled L
  framed now payload stream_id (some e, t) s = (some (protocol_error e), with_tracker L t s, [])
  framed now payload stream_id (none, t) s =
      let (next, outs) = hear now payload stream_id t s in (none, next, outs)

  abbrev pub chunk_of : ℤ → List ℕ → Option (AudioStartPayload × ℕ) → Session L → Handled L
  chunk_of now payload none s = (some (because "binary audio received without audio.start"), s, [])
  chunk_of now payload (some (p, n)) s =
      framed now payload p.stream_id (add_frame s.inbound.tracker) s

  unfoldable pub handle_audio_chunk : ℤ → List ℕ → Session L → Handled L
  handle_audio_chunk now payload s = chunk_of now payload (active_stream s.inbound.tracker) s

  -- What runPartialASR defers: the run that is the current one is over.
  unfoldable pub end_partial : ℕ → Session L → Session L
  end_partial run_id s =
      if nat_beq s.partial.run_id run_id
      then record s { partial = record s.partial { in_flight = false; cancel = none } }
      else s
