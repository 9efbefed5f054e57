-- ===== src/Voicews/Input/Segments.antt =====
-- What the input handlers keep true of a session: its stream, its segment and its partial
-- transcription.
use text.Mathlib.TextLemmas.{append-eq-nil_iff, length-nil}
use Prim.Native.String.{count}
use Prim.Native.String.{◌++◌ as join}
use agen_sense.Prelude.{
  ℕ, ℤ, suc, ◌+◌, ◌≤◌, String, Bool, true, false, not, ◌&&◌, Option, none, some, List, [], length,
  length-append, leb_ℤ, pos, ◌==◌, ==_iff, string_eq, if◌then◌else◌, is_some, ◌≡◌, refl, sym, ap,
  subst, ◌∙◌, ◌⊎◌, inl, inr, arith, print_padded3,
}
use agen_sense.Provider.Types.{AudioFormat}
use agen_sense.Protocol.Types.{AudioStartPayload}
use agen_sense.Protocol.Stream.{StreamTracker, add_frame, active_stream}
use agen_sense.Voicews.State.{Levels, Vad, Partial, Session, Output, format_byte_duration}
use agen_sense.Voicews.Input.{complete_active_segment_locked}
use agen_sense.Voicews.Input.Chunks.{
  Heard, open_segment, detect, raise_peak, received, can_partial, begin_partial, hear, chunk_of,
  handle_audio_chunk,
}

abbrev pub streaming : AudioStartPayload → ℕ → StreamTracker
streaming p n = record { active = some p; frame_count = n }

module _ (L : Levels) where
  -- A segment is open exactly while there is speech, and begins within the audio.
  abbrev pub IsTracked : ℕ → Vad L → Type 0
  IsTracked size v =
      (not (v.active_segment_id == "") ≡ v.speech_active) × (v.segment_start_byte ≤ size)

  -- A session with a stream.
  abbrev pub IsStreaming : Session L → Type 0
  IsStreaming s =
      (p : AudioStartPayload) × (s.inbound.tracker ≡ streaming p s.inbound.seq)
      × IsTracked (length s.inbound.audio) s.vad
      × (s.partial.last_size ≤ length s.inbound.audio)

  abbrev pub IsIdle : Session L → Type 0
  IsIdle s = s.inbound.tracker.active ≡ none

  abbrev pub IsCancellable : Partial L → Type 0
  IsCancellable p = p.in_flight ≡ is_some p.cancel

  abbrev pub IsConsistent : Session L → Type 0
  IsConsistent s = IsCancellable s.partial × (IsIdle s ⊎ IsStreaming s)

  was_false : (b : Bool) → not b ≡ true → b ≡ false
  was_false false h = refl
  was_false true h = absurd (cc)

  segment-named : (n : ℕ) → not (join "segment-" (print_padded3 n) == "") ≡ true
  segment-named n = go (join "segment-" (print_padded3 n) == "") refl
    where
      go : (b : Bool) → (join "segment-" (print_padded3 n) == "") ≡ b → not b ≡ true
      go false h = refl
      go true h =
          let e = (append-eq-nil_iff.0 ((==_iff (join "segment-" (print_padded3 n)) "").0 h)).0 in
          let n : 8 ≡ count "" = ap count e in absurd (omega (arith, n, length-nil))

  complete-IsTracked :
      (stream_id : String) (format : AudioFormat) (audio : List ℕ) (n : ℕ) (level : L.Float)
      (v : Vad L)
      → not (v.active_segment_id == "") ≡ true
      → v.speech_active ≡ false
      → IsTracked
          (length audio)
          (complete_active_segment_locked L stream_id format audio n level v).1
  unfolding complete_active_segment_locked
  complete-IsTracked stream_id format audio n level v h q =
      rw (was_false (v.active_segment_id == "") h) (sym q, omega arith)

  raise-IsTracked :
      (size : ℕ) (level : L.Float) (v : Vad L)
      → IsTracked size v
      → IsTracked size (raise_peak L level v)
  unfolding raise_peak
  raise-IsTracked size level v h = go (v.speech_active && L.greater level v.segment_peak_level)
    where
      go : (b : Bool) → IsTracked size (if b then record v { segment_peak_level = level } else v)
      go true = h
      go false = h

  -- The audio grows from `before` by the chunk before the segments are looked at.
  detect-IsTracked :
      (stream_id : String) (format : AudioFormat) (before size : ℕ) (audio : List ℕ)
      (level : L.Float) (v : Vad L)
      → before ≤ length audio
      → IsTracked before v
      → IsTracked (length audio) (detect L stream_id format before audio size level v).1
  unfolding detect
  detect-IsTracked stream_id format before size audio level v grown h =
      go (L.is_speech level) v.speech_active refl
        (leb_ℤ (pos 220000000) (format_byte_duration L format (v.silence_bytes + size)))
    where
      quiet : Vad L
      quiet = record v { speech_active = false; silence_bytes = 0 }

      go :
          (speech active : Bool)
          → v.speech_active ≡ active
          → (long : Bool)
          → let ended =
              complete_active_segment_locked L stream_id format audio (length audio) level quiet in
            let r : Heard L =
              if speech
              then (if active
                  then (none, record v { silence_bytes = 0 }, none)
                  else (none, open_segment L format before level v, some true))
              else if active
              then (if long
                  then (ended.0, ended.1, some false)
                  else (none, record v { silence_bytes = v.silence_bytes + size }, none))
              else (none, v, none) in
            IsTracked (length audio) r.1
      go true true e long = (h.0, omega (arith, h.1, grown))
      go true false e long = (segment-named (suc v.segment_seq), grown)
      go false true e true =
          complete-IsTracked stream_id format audio (length audio) level quiet (h.0 ∙ e) refl
      go false true e false = (h.0, omega (arith, h.1, grown))
      go false false e long = (h.0, omega (arith, h.1, grown))

  -- A partial transcription that starts keeps the stream and can be cancelled.
  begin_partial-IsConsistent :
      (now : ℤ) (stream_id : String) (s : Session L)
      → IsCancellable s.partial
      → IsStreaming s
      → let r = (begin_partial L now stream_id s).0 in IsCancellable r.partial × IsStreaming r
  unfolding begin_partial
  begin_partial-IsConsistent now stream_id s c (p, e, tracked, size) =
      go (can_partial L now s) (s, []) _ (c, (p, e, tracked, size))
        (refl, (p, e, tracked, omega arith))
    where
      go :
          (b : Bool) (x y : Session L × List (Output L))
          → IsCancellable x.0.partial × IsStreaming x.0
          → IsCancellable y.0.partial × IsStreaming y.0
          → let r = (if b then y else x) in IsCancellable r.0.partial × IsStreaming r.0
      go true x y p q = q
      go false x y p q = p

  -- A chunk of a running stream is taken.
  pub chunk-streaming :
      (now : ℤ) (payload : List ℕ) (s : Session L) (p : AudioStartPayload)
      → s.inbound.tracker ≡ streaming p s.inbound.seq
      → let h = hear L now payload p.stream_id (streaming p (suc s.inbound.seq)) s in
        handle_audio_chunk L now payload s ≡ (none, h.0, h.1)
  unfolding handle_audio_chunk active_stream add_frame
  chunk-streaming now payload s p e = rw e refl

  hear-IsConsistent :
      (now : ℤ) (payload : List ℕ) (s : Session L) (p : AudioStartPayload)
      → IsCancellable s.partial
      → IsTracked (length s.inbound.audio) s.vad
      → s.partial.last_size ≤ length s.inbound.audio
      → IsConsistent (hear L now payload p.stream_id (streaming p (suc s.inbound.seq)) s).0
  unfolding hear
  hear-IsConsistent now payload s p c tracked size =
      let grown = length-append s.inbound.audio payload in
      let inbound = received L payload (streaming p (suc s.inbound.seq)) s.inbound in
      let level = L.pcm_level payload in
      let d =
        detect-IsTracked p.stream_id s.inbound.format (length s.inbound.audio) (length payload)
          inbound.audio level s.vad (omega (arith, grown)) tracked in
      let r =
        begin_partial-IsConsistent now p.stream_id _ c
          (p, refl, raise-IsTracked _ level _ d, omega (arith, grown, size)) in
      (r.0, inr r.1)

  -- Without a stream a chunk is refused and changes nothing.
  pub chunk-idle :
      (now : ℤ) (payload : List ℕ) (s : Session L)
      → IsIdle s
      → (handle_audio_chunk L now payload s).1 ≡ s
  unfolding handle_audio_chunk active_stream
  chunk-idle now payload s idle = go s.inbound.tracker.active idle
    where
      go :
          (o : Option AudioStartPayload)
          → o ≡ none
          → (chunk_of L now payload
              (elim o [ none ↦ none | some p ↦ some (p, s.inbound.tracker.frame_count) ])
              s).1
            ≡ s
      go none e = refl
      go (some p) e = absurd (cc)

  pub chunk-IsConsistent :
      (now : ℤ) (payload : List ℕ) (s : Session L)
      → IsConsistent s
      → IsConsistent (handle_audio_chunk L now payload s).1
  chunk-IsConsistent now payload s (c, inl idle) =
      subst IsConsistent (sym (chunk-idle now payload s idle)) (c, inl idle)
  chunk-IsConsistent now payload s (c, inr (p, e, tracked, size)) =
      rw (chunk-streaming now payload s p e) (hear-IsConsistent now payload s p c tracked size)
