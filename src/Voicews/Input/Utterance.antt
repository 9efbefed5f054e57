-- ===== src/Voicews/Input/Utterance.antt =====
-- One utterance: what the final transcription is given.
use mathlib.Core.List.{append_assoc, append-nil}
use agen_sense.Prelude.{
  ℕ, ℤ, suc, pos, ◌+◌, String, Bool, true, false, Option, none, some, List, [], ◌∷◌, ◌++◌, length,
  ◌==◌, ==_iff, string_eq, int_eq, is_positive, if◌then◌else◌, ◌≡◌, refl, sym, ap, subst, ◌∙◌,
  arith,
}
use agen_sense.Protocol.Types.{AudioStartPayload, AudioStopPayload}
use agen_sense.Protocol.Validate.{validate_audio_start}
use agen_sense.Protocol.Stream.{StreamTracker, new_tracker, start, start_from, stop, active_stream}
use agen_sense.Voicews.Values.{SessionConfig}
use agen_sense.Voicews.State.{Levels, Session, Handled, Output, final_asr}
use agen_sense.Voicews.Input.{
  begin_input, started, handle_audio_start, cancel_response, complete_open_trace, set_aside,
  cancel_partial_asr_locked, format_of, guards_echo,
}
use agen_sense.Voicews.Input.Chunks.{can_partial, begin_partial, hear}
use agen_sense.Voicews.Input.Stops.{end_input, finish_input, stop_outputs, handle_audio_stop}
use agen_sense.Voicews.Input.Segments.{streaming, IsIdle, chunk-streaming}
use agen_sense.Voicews.Input.Invariant.{Request, starts, chunk, handle, handle_all}

-- The chunks of a stream, each with a reading of the clock, as requests, and their bytes.
unfoldable pub chunks_of : List (ℤ × List ℕ) → List Request
chunks_of [] = []
chunks_of ((now, payload) ∷ rest) = chunk now payload ∷ chunks_of rest

abbrev pub bytes_of : List (ℤ × List ℕ) → List ℕ
bytes_of [] = []
bytes_of ((now, payload) ∷ rest) = payload ++ bytes_of rest

start-streaming :
    (p : AudioStartPayload) (t : StreamTracker)
    → t.active ≡ none
    → (p.stream_id == "") ≡ false
    → (p.codec == "pcm_s16le") ≡ true
    → is_positive p.sample_rate_hz ≡ true
    → is_positive p.channels ≡ true
    → start p t ≡ (none, streaming p 0)
unfolding start validate_audio_start
start-streaming p t idle named codec rate channels = go t.active idle
  where
    go : (o : Option AudioStartPayload) → o ≡ none → start_from o p t ≡ (none, streaming p 0)
    go none e = rw (named, codec, rate, channels) refl
    go (some x) e = absurd (cc)

module _ (L : Levels) where
  -- The session takes the stream of `p`, has taken `n` chunks and has their bytes.
  abbrev IsTaking : AudioStartPayload → SessionConfig → Bool → ℕ → List ℕ → Session L → Type 0
  IsTaking p cfg guard n audio s =
      (s.inbound.tracker ≡ streaming p n)
      × (s.inbound.seq ≡ n)
      × (s.inbound.audio ≡ audio)
      × (s.inbound.format ≡ format_of L p)
      × (s.inbound.echo_guard ≡ guard)
      × (s.has_asr ≡ true)
      × (s.cfg ≡ cfg)

  start-begins :
      (p : AudioStartPayload) (now : ℤ) (s : Session L)
      → (set_aside L s).0.inbound.tracker.active ≡ none
      → (p.stream_id == "") ≡ false
      → (p.codec == "pcm_s16le") ≡ true
      → is_positive p.sample_rate_hz ≡ true
      → is_positive p.channels ≡ true
      → handle_audio_start L now p s
        ≡ started L now p (none, streaming p 0) (set_aside L s).0 (set_aside L s).1
  unfolding handle_audio_start
  start-begins p now s idle named codec rate channels =
      let e = start-streaming p (set_aside L s).0.inbound.tracker idle named codec rate channels in
      rw (named, codec, rate, channels, e) refl

  module _ (p : AudioStartPayload) (cfg : SessionConfig) (guard : Bool) where
    partial-IsTaking :
        (now : ℤ) (stream_id : String) (n : ℕ) (audio : List ℕ) (s : Session L)
        → IsTaking p cfg guard n audio s
        → IsTaking p cfg guard n audio (begin_partial L now stream_id s).0
    unfolding begin_partial
    partial-IsTaking now stream_id n audio s h = go (can_partial L now s) (s, []) _ h h
      where
        go :
            (b : Bool) (x y : Session L × List (Output L))
            → IsTaking p cfg guard n audio x.0
            → IsTaking p cfg guard n audio y.0
            → IsTaking p cfg guard n audio (if b then y else x).0
        go true x y a b = b
        go false x y a b = a

    chunk-IsTaking :
        (now : ℤ) (payload : List ℕ) (n : ℕ) (audio : List ℕ) (s : Session L)
        → IsTaking p cfg guard n audio s
        → IsTaking p cfg guard (suc n) (audio ++ payload) (handle L (chunk now payload) s)
    unfolding handle hear
    chunk-IsTaking now payload n audio s (t, q, a, f, g, r, c) =
        subst (IsTaking p cfg guard (suc n) (audio ++ payload))
          (sym (ap (λ r. r.1) (chunk-streaming L now payload s p (t ∙ ap (streaming p) (sym q)))))
          (partial-IsTaking now p.stream_id (suc n) (audio ++ payload) _
            (ap (λ k. streaming p (suc k)) q, ap suc q, ap (λ x. x ++ payload) a, f, g, r, c))

    chunks-IsTaking :
        (chunks : List (ℤ × List ℕ)) (n : ℕ) (audio : List ℕ) (s : Session L)
        → IsTaking p cfg guard n audio s
        → IsTaking p cfg guard
            (n + length chunks)
            (audio ++ bytes_of chunks)
            (handle_all L (chunks_of chunks) s)
    unfolding handle_all chunks_of
    chunks-IsTaking [] n audio s h =
        let e : n ≡ n + 0 = omega arith in
        subst (λ k. IsTaking p cfg guard k (audio ++ []) s) e
          (subst (λ a. IsTaking p cfg guard n a s) (sym (append-nil audio)) h)
    chunks-IsTaking ((now, payload) ∷ rest) n audio s h =
        let e : suc n + length rest ≡ n + suc (length rest) = omega arith in
        let later = handle_all L (chunks_of rest) (handle L (chunk now payload) s) in
        subst (λ k. IsTaking p cfg guard k (audio ++ (payload ++ bytes_of rest)) later) e
          (subst (λ a. IsTaking p cfg guard (suc n + length rest) a later)
            (append_assoc audio payload (bytes_of rest))
            (chunks-IsTaking rest (suc n) (audio ++ payload) _
              (chunk-IsTaking now payload n audio s h)))

    -- The stream that the handler of audio.start takes.
    start-IsTaking :
        (now : ℤ) (s : Session L)
        → IsIdle L s
        → (p.stream_id == "") ≡ false
        → (p.codec == "pcm_s16le") ≡ true
        → is_positive p.sample_rate_hz ≡ true
        → is_positive p.channels ≡ true
        → s.has_asr ≡ true
        → s.cfg ≡ cfg
        → guards_echo L now s ≡ guard
        → IsTaking p cfg guard 0 [] (handle L (starts now p) s)
    unfolding handle set_aside cancel_response complete_open_trace begin_input
        cancel_partial_asr_locked
    start-IsTaking now s idle named codec rate channels asr c g =
        subst (IsTaking p cfg guard 0 [])
          (sym (ap (λ r. r.1) (start-begins p now s idle named codec rate channels)))
          (refl, refl, refl, refl, g, asr, c)

  -- The stop of a stream whose chunks were all counted.
  stop-streaming :
      (p : AudioStartPayload) (n : ℕ) (q : AudioStopPayload)
      → q.stream_id ≡ p.stream_id
      → q.last_seq ≡ pos n
      → stop q (streaming p n) ≡ (none, new_tracker)
  unfolding stop
  stop-streaming p n q named counted =
      rw ((==_iff q.stream_id p.stream_id).1 named, (==_iff q.last_seq (pos n)).1 counted) refl

  stop-finish :
      (p : AudioStartPayload) (n : ℕ) (q : AudioStopPayload) (s : Session L)
      → s.inbound.tracker ≡ streaming p n
      → q.stream_id ≡ p.stream_id
      → q.last_seq ≡ pos n
      → let e = end_input L q new_tracker s in
        handle_audio_stop L q s ≡ finish_input L q s e.1 (stop_outputs L q e.0 s)
  unfolding handle_audio_stop active_stream
  stop-finish p n q s t named counted =
      let e = stop-streaming p n q named counted in
      rw (t, (==_iff q.stream_id p.stream_id).1 named, (==_iff q.last_seq (pos n)).1 counted, e)
        refl

  unguarded :
      (q : AudioStopPayload) (s ended : Session L) (outs : List (Output L))
      → s.inbound.echo_guard ≡ false
      → s.has_asr ≡ true
      → finish_input L q s ended outs ≡ (
        none,
        ended,
        outs ++ final_asr s.cfg q.stream_id s.inbound.format s.inbound.audio s.turn_trace ∷ [],
      )
  unfolding finish_input
  unguarded q s ended outs g r = rw (g, r) refl

  -- What the handler of audio.stop returns when it hands the audio to the final transcription.
  abbrev pub HandsOver : SessionConfig → AudioStartPayload → List ℕ → Handled L → Type 0
  HandsOver cfg p audio r =
      (r.0 ≡ none)
      × IsIdle L r.1
      × ((outs : List (Output L)) × (trace : Option ℕ) × (r.2
            ≡ outs ++ final_asr cfg p.stream_id (format_of L p) audio trace ∷ []))

  stop-HandsOver :
      (p : AudioStartPayload) (cfg : SessionConfig) (n : ℕ) (audio : List ℕ) (q : AudioStopPayload)
      (s : Session L)
      → IsTaking p cfg false n audio s
      → q.stream_id ≡ p.stream_id
      → q.last_seq ≡ pos n
      → HandsOver cfg p audio (handle_audio_stop L q s)
  unfolding end_input
  stop-HandsOver p cfg n audio q s (t, k, a, f, g, r, c) named counted =
      let e = end_input L q new_tracker s in
      let outs = stop_outputs L q e.0 s in
      let given : final_asr s.cfg q.stream_id s.inbound.format s.inbound.audio s.turn_trace
          ≡ final_asr cfg p.stream_id (format_of L p) audio s.turn_trace =
        cc in
      subst (HandsOver cfg p audio)
        (sym (stop-finish p n q s t named counted ∙ unguarded q s e.1 outs g r))
        (refl, refl, (outs, s.turn_trace, ap (λ o. outs ++ o ∷ []) given))

  -- An utterance: when no stream runs and the session has a transcription, a valid audio.start
  -- outside the echo guard, any chunks, and an audio.stop that names the stream and counts the
  -- chunks leave no error from the stop and no stream, and the final transcription is given the
  -- bytes of all the chunks in their order, in the format of the stream.
  pub utterance_lem :
      (now : ℤ) (p : AudioStartPayload) (chunks : List (ℤ × List ℕ)) (q : AudioStopPayload)
      (s : Session L)
      → IsIdle L s
      → (p.stream_id == "") ≡ false
      → (p.codec == "pcm_s16le") ≡ true
      → is_positive p.sample_rate_hz ≡ true
      → is_positive p.channels ≡ true
      → s.has_asr ≡ true
      → guards_echo L now s ≡ false
      → q.stream_id ≡ p.stream_id
      → q.last_seq ≡ pos (length chunks)
      → let heard = handle_all L (starts now p ∷ chunks_of chunks) s in
        HandsOver s.cfg p (bytes_of chunks) (handle_audio_stop L q heard)
  unfolding handle_all
  utterance_lem now p chunks q s idle named codec rate channels asr g same counted =
      let begun = start-IsTaking p s.cfg false now s idle named codec rate channels asr refl g in
      let heard = chunks-IsTaking p s.cfg false chunks 0 [] (handle L (starts now p) s) begun in
      stop-HandsOver p s.cfg (0 + length chunks) (bytes_of chunks) q _ heard same
        (counted ∙ ap pos (plain (length chunks)))
    where
      plain : (n : ℕ) → n ≡ 0 + n
      plain n = omega arith
