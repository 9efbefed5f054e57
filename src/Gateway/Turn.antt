-- ===== src/Gateway/Turn.antt =====
-- One turn of the device through the loop of internal/gateway/handler.go: audio.start, binary
-- frames, audio.stop.
use agen_sense.Prelude.{
  ℕ, suc, ◌+◌, pos, String, none, some, Bool, true, false, ◌&&◌, List, [], ◌∷◌, ◌++◌, map, length,
  ◌==◌, ==_iff, string_eq, int_eq, is_blank, if◌then◌else◌, ◌≡◌, refl, sym, ap, subst, ◌∙◌, arith,
  trim_space, trim_left, trim_right, is_space,
}
use mathlib.Core.List.{append_assoc, append-nil}
use agen_sense.Protocol.Types.{
  Values, AudioStartPayload, AudioStopPayload, audio_start, audio_stop, k_audio_start, k_audio_stop,
  event_audio_start, event_audio_stop,
}
use agen_sense.Protocol.Validate.{
  PayloadJson, Envelope, validate_envelope, validate_payload, validate_typed_payload,
  validate_audio_start, expected_kind,
}
use agen_sense.Protocol.Envelope.{
  done, EnvelopeJson, decode_event, decode_payload, decode_event-marshal_event,
}
use agen_sense.Protocol.Stream.{start, add_frame, stop}
use agen_sense.Gateway.Handler.{
  AudioFormat, DeviceContext, StreamState, no_stream, Control, Session, turn, error_event, Frame,
  text, binary, write, on_audio_start, on_audio_stop, on_event, on_binary, on_frame, serve,
  format_of,
}

unfoldable pub concat : List (List ℕ) → List ℕ
concat [] = []
concat (x ∷ xs) = x ++ concat xs

-- The format that audio.start announces.
abbrev pub announced : AudioStartPayload → AudioFormat
announced p = record { codec = p.codec; sample_rate_hz = p.sample_rate_hz; channels = p.channels }

module _ (V : Values) (J : PayloadJson V) (E : EnvelopeJson) where
  -- The payload of a decoded audio.start is valid.
  pub valid_start :
      (a : E.Bytes) (event : Envelope) (p : AudioStartPayload)
      → decode_event V J E a ≡ done event
      → event.type ≡ event_audio_start
      → decode_payload V J k_audio_start event ≡ done (audio_start p)
      → validate_audio_start p ≡ none
  unfolding validate_envelope validate_payload validate_typed_payload expected_kind decode_payload
  valid_start a event p read named decoded =
      let valid = (decode_event-marshal_event V J E a event read).0 in
      let typed =
        subst (λ t. validate_envelope V J (record event { type = t }) ≡ none) named valid in
      let full = typed in ground arith

  module _ (C : Control) (dev : DeviceContext V)
      (pipeline : String → AudioFormat → List ℕ → Bool) where
    -- A session with an open stream.
    abbrev streaming : Session V C → AudioStartPayload → List ℕ → ℕ → Session V C
    streaming s p audio n = record s {
      stream = record {
        id = p.stream_id;
        format = announced p;
        audio = audio;
        tracker = record { active = some p; frame_count = n };
      };
    }

    -- What a valid audio.start announces is taken as it is: no default applies.
    pub format_announced :
        (p : AudioStartPayload)
        → validate_audio_start p ≡ none
        → (format_of V J E C dev pipeline p ≡ announced p) × ((p.stream_id == "") ≡ false)
    unfolding validate_audio_start is_blank trim_space trim_left trim_right is_space
    format_announced p valid =
        let codec : p.codec ≡ "pcm_s16le" = ground (arith, ==_iff p.codec "pcm_s16le") in
        let given : is_blank p.codec ≡ false = ap is_blank codec in (ground arith, ground arith)

    accepted_start :
        (event : Envelope) (p : AudioStartPayload) (s : Session V C)
        → decode_payload V J k_audio_start event ≡ done (audio_start p)
        → validate_audio_start p ≡ none
        → s.hello_seen ≡ true
        → s.stream ≡ no_stream
        → on_audio_start V J E C dev pipeline event s ≡ (true, streaming s p [] 0)
    unfolding on_audio_start start
    accepted_start event p s decoded valid greeted idle =
        let taken = (format_announced p valid).0 in
        let free = ap (λ (x : StreamState). x.tracker) idle in ground arith

    on_start :
        (event : Envelope) (p : AudioStartPayload) (s : Session V C)
        → event.type ≡ event_audio_start
        → decode_payload V J k_audio_start event ≡ done (audio_start p)
        → validate_audio_start p ≡ none
        → s.hello_seen ≡ true
        → s.stream ≡ no_stream
        → on_event V J E C dev pipeline event s ≡ (true, streaming s p [] 0)
    unfolding on_event on_audio_start decode_payload
    on_start event p s named decoded valid greeted idle =
        ap (λ t. on_event V J E C dev pipeline (record event { type = t }) s) named
        ∙ accepted_start event p s decoded valid greeted idle

    on_frames :
        (chunks : List (List ℕ)) (rest : List (Frame E.Bytes)) (p : AudioStartPayload)
        (s : Session V C) (audio : List ℕ) (n : ℕ)
        → (p.stream_id == "") ≡ false
        → serve V J E C dev pipeline (map binary chunks ++ rest) (streaming s p audio n)
          ≡ serve V J E C dev pipeline rest
              (streaming s p (audio ++ concat chunks) (n + length chunks))
    unfolding serve on_frame on_binary add_frame concat
    on_frames [] rest p s audio n named =
        ap (λ x. serve V J E C dev pipeline rest (streaming s p x n)) (sym (append-nil audio))
        ∙ ap (λ k. serve V J E C dev pipeline rest (streaming s p (audio ++ []) k)) (omega arith)
    on_frames (c ∷ chunks) rest p s audio n named = rw named (
        on_frames chunks rest p s (audio ++ c) (suc n) named
        ∙ ap (λ x. serve V J E C dev pipeline rest (streaming s p x (suc n + length chunks)))
            (append_assoc audio c (concat chunks))
        ∙ ap
            (λ k. serve V J E C dev pipeline rest (streaming s p (audio ++ (c ++ concat chunks)) k))
            (omega arith))

    -- The session after a turn that was handed to the pipeline, and after one that was refused.
    abbrev pub handed : AudioStartPayload → List ℕ → Session V C → Session V C
    handed p audio s =
        let s' : Session V C = record s {
          stream = no_stream;
          outputs = s.outputs ++ (turn p.stream_id (announced p) audio ∷ []);
        } in
        if pipeline p.stream_id (announced p) audio
        then s'
        else (write V J E C (error_event "" "pipeline_failed") s').1

    abbrev pub mismatched : Session V C → Session V C
    mismatched s = record (write V J E C (error_event "" "stream_mismatch") s).1 {
      stream = no_stream;
    }

    abbrev matches : AudioStartPayload → AudioStopPayload → ℕ → Bool
    matches p q n = q.stream_id == p.stream_id && q.last_seq == pos n

    accepted_stop :
        (event : Envelope) (p : AudioStartPayload) (q : AudioStopPayload) (s : Session V C)
        (audio : List ℕ) (n : ℕ)
        → decode_payload V J k_audio_stop event ≡ done (audio_stop q)
        → (p.stream_id == "") ≡ false
        → on_audio_stop V J E C dev pipeline event (streaming s p audio n)
          ≡ (true, if matches p q n then handed p audio s else mismatched s)
    unfolding on_audio_stop stop
    accepted_stop event p q s audio n decoded named = ground arith

    on_stop :
        (event : Envelope) (p : AudioStartPayload) (q : AudioStopPayload) (s : Session V C)
        (audio : List ℕ) (n : ℕ)
        → event.type ≡ event_audio_stop
        → decode_payload V J k_audio_stop event ≡ done (audio_stop q)
        → (p.stream_id == "") ≡ false
        → on_event V J E C dev pipeline event (streaming s p audio n)
          ≡ (true, if matches p q n then handed p audio s else mismatched s)
    unfolding on_event on_audio_stop decode_payload
    on_stop event p q s audio n named decoded given =
        ap (λ t. on_event V J E C dev pipeline (record event { type = t }) (streaming s p audio n))
          named
        ∙ accepted_stop event p q s audio n decoded given

    -- A frame of a decoded event that keeps the loop going.
    serve_text :
        (a : E.Bytes) (event : Envelope) (s s' : Session V C) (rest : List (Frame E.Bytes))
        → decode_event V J E a ≡ done event
        → on_event V J E C dev pipeline event s ≡ (true, s')
        → serve V J E C dev pipeline (text a ∷ rest) s ≡ serve V J E C dev pipeline rest s'
    unfolding serve on_frame
    serve_text a event s s' rest read next = rw read (rw next refl)

    -- After a hello and with no open stream, when the loop reads a decodable audio.start, binary
    -- frames and a decodable audio.stop, then if the stop carries the stream's id and the number of
    -- the frames, the pipeline is run once with the id, the announced format and the bytes of the
    -- frames in their order, otherwise the stop is answered with stream_mismatch; in both cases the
    -- stream is reset and the loop goes on.
    pub turn_lem :
        (a b : E.Bytes) (opening closing : Envelope) (p : AudioStartPayload) (q : AudioStopPayload)
        (chunks : List (List ℕ)) (rest : List (Frame E.Bytes)) (s : Session V C)
        → decode_event V J E a ≡ done opening
        → opening.type ≡ event_audio_start
        → decode_payload V J k_audio_start opening ≡ done (audio_start p)
        → decode_event V J E b ≡ done closing
        → closing.type ≡ event_audio_stop
        → decode_payload V J k_audio_stop closing ≡ done (audio_stop q)
        → s.hello_seen ≡ true
        → s.stream ≡ no_stream
        → serve V J E C dev pipeline (text a ∷ (map binary chunks ++ text b ∷ rest)) s
          ≡ serve V J E C dev pipeline rest (
              if q.stream_id == p.stream_id && q.last_seq == pos (length chunks)
              then handed p (concat chunks) s
              else mismatched s)
    turn_lem a b opening closing p q chunks rest s read named decoded read' named' decoded' greeted
          idle =
        let valid = valid_start a opening p read named decoded in
        let given = (format_announced p valid).1 in
        serve_text a opening s (streaming s p [] 0) _ read
          (on_start opening p s named decoded valid greeted idle)
        ∙ on_frames chunks (text b ∷ rest) p s [] 0 given
        ∙ ap (λ k. serve V J E C dev pipeline (text b ∷ rest) (streaming s p (concat chunks) k))
            (omega arith)
        ∙ serve_text b closing (streaming s p (concat chunks) (length chunks)) _ rest read'
            (on_stop closing p q s (concat chunks) (length chunks) named' decoded' given)
