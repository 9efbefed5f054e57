-- ===== src/Gateway/Invariant.antt =====
-- What the loop of internal/gateway/handler.go keeps of its stream state.
use agen_sense.Prelude.{
  ℕ, String, none, some, Bool, true, List, [], ◌∷◌, ==_iff, string_eq, int_eq, ◌≡◌, sym, subst, ◌⊎◌,
  arith, Option-cases, Bool-cases, inl, inr,
}
use agen_sense.Protocol.Types.{
  Values, Payload, AudioStartPayload, audio_start, k_audio_start, event_audio_start,
}
use agen_sense.Protocol.Validate.{PayloadJson, Envelope, validate_audio_start}
use agen_sense.Protocol.Envelope.{Outcome, done, failed, EnvelopeJson, decode_event, decode_payload}
use agen_sense.Protocol.Stream.{start, add_frame, stop}
use agen_sense.Gateway.Handler.{
  AudioFormat, DeviceContext, StreamState, no_stream, Control, Session, Frame, text, binary, close,
  unsupported, on_audio_start, on_audio_stop, on_event, on_binary, on_frame, serve, decoded,
  audio_start_of,
}
use agen_sense.Gateway.Turn.{announced, format_announced}

-- Either no stream, in the handler's state and in its tracker, or the same valid stream in both,
-- after a hello.
pub data IsConsistent : Bool → StreamState → Type 0 where
  idle : {greeted : Bool} → IsConsistent greeted no_stream
  streams :
      {p : AudioStartPayload} {audio : List ℕ} {n : ℕ}
      → validate_audio_start p ≡ none
      → IsConsistent true (record {
        id = p.stream_id;
        format = announced p;
        audio = audio;
        tracker = record { active = some p; frame_count = n };
      })

module _ (V : Values) (J : PayloadJson V) (E : EnvelopeJson) (C : Control) (dev : DeviceContext V)
    (pipeline : String → AudioFormat → List ℕ → Bool) where
  -- An event that is neither audio.start nor audio.stop leaves the stream, and never takes a hello back.
  on_event-cases :
      (event : Envelope) (s : Session V C)
      → (((on_event V J E C dev pipeline event s).1.stream ≡ s.stream)
          × (((on_event V J E C dev pipeline event s).1.hello_seen ≡ s.hello_seen)
              ⊎ ((on_event V J E C dev pipeline event s).1.hello_seen ≡ true)))
        ⊎ ((event.type ≡ event_audio_start)
            × (on_event V J E C dev pipeline event s ≡ on_audio_start V J E C dev pipeline event s))
        ⊎ (on_event V J E C dev pipeline event s ≡ on_audio_stop V J E C dev pipeline event s)
  unfolding on_event
  on_event-cases event s = ground (arith, ==_iff event.type event_audio_start)

  abbrev stream_started : AudioStartPayload → Session V C → Session V C
  stream_started p s = record s {
    stream = record {
      id = p.stream_id;
      format = announced p;
      audio = [];
      tracker = record { active = some p; frame_count = 0 };
    };
  }

  audio_start_of-some :
      (d : Outcome (Payload V)) (p : AudioStartPayload)
      → audio_start_of V J E C d ≡ some p
      → d ≡ done (audio_start p)
  audio_start_of-some d p e = ground arith

  -- An audio.start is refused, or opens its stream after a hello.
  on_audio_start-cases :
      (event : Envelope) (s : Session V C)
      → (((on_audio_start V J E C dev pipeline event s).1.stream ≡ s.stream)
          × ((on_audio_start V J E C dev pipeline event s).1.hello_seen ≡ s.hello_seen))
        ⊎ ((p : AudioStartPayload) × (decode_payload V J k_audio_start event ≡ done (audio_start p))
            × (s.hello_seen ≡ true)
            × (validate_audio_start p ≡ none)
            × (on_audio_start V J E C dev pipeline event s ≡ (true, stream_started p s)))
  unfolding on_audio_start start
  on_audio_start-cases event s = elim (Bool-cases s.hello_seen) [
    | inr e ↦ inl (ground arith, ground arith)
    | inl greeted ↦
        elim (Option-cases (audio_start_of V J E C (decode_payload V J k_audio_start event))) [
          | inl e ↦ inl (ground arith, ground arith)
          | inr (p, e) ↦
              let decoded = audio_start_of-some (decode_payload V J k_audio_start event) p e in
              elim (Option-cases s.stream.tracker.active) [
                | inr (q, busy) ↦ inl (ground arith, ground arith)
                | inl free ↦ elim (Option-cases (validate_audio_start p)) [
                  | inr (x, bad) ↦ inl (ground arith, ground arith)
                  | inl valid ↦
                      let taken = (format_announced V J E C dev pipeline p valid).0 in
                      inr (p, decoded, greeted, valid, ground arith)
                ]
              ]
        ]
  ]

  -- An audio.stop leaves the stream or ends it.
  on_audio_stop-cases :
      (event : Envelope) (s : Session V C)
      → (((on_audio_stop V J E C dev pipeline event s).1.stream ≡ s.stream)
          ⊎ ((on_audio_stop V J E C dev pipeline event s).1.stream ≡ no_stream))
        × ((on_audio_stop V J E C dev pipeline event s).1.hello_seen ≡ s.hello_seen)
  unfolding on_audio_stop stop
  on_audio_stop-cases event s = ground arith

  on_binary-IsConsistent :
      (payload : List ℕ) (s : Session V C) (greeted : Bool) (st : StreamState)
      → IsConsistent greeted st
      → IsConsistent
          (on_binary V J E C dev pipeline payload
            (record s { hello_seen = greeted; stream = st })).1.hello_seen
          (on_binary V J E C dev pipeline payload
            (record s { hello_seen = greeted; stream = st })).1.stream
  unfolding on_binary add_frame
  on_binary-IsConsistent payload s greeted st idle = idle
  on_binary-IsConsistent payload s greeted st (streams {p} {audio} {n} valid) =
      rw ((format_announced V J E C dev pipeline p valid).1) (streams valid)

  after_hello : {greeted : Bool} {st : StreamState} → IsConsistent greeted st → IsConsistent true st
  after_hello idle = idle
  after_hello (streams valid) = streams valid

  abbrev Kept : Session V C → Type 0
  Kept s = IsConsistent s.hello_seen s.stream

  same_stream :
      (s s' : Session V C)
      → s'.stream ≡ s.stream
      → (s'.hello_seen ≡ s.hello_seen) ⊎ (s'.hello_seen ≡ true)
      → Kept s
      → Kept s'
  same_stream s s' e (inl f) kept =
      subst (λ g. IsConsistent g s'.stream) (sym f)
        (subst (λ x. IsConsistent s.hello_seen x) (sym e) kept)
  same_stream s s' e (inr f) kept =
      subst (λ g. IsConsistent g s'.stream) (sym f)
        (subst (λ x. IsConsistent true x) (sym e) (after_hello kept))

  on_event-Kept :
      (event : Envelope) (s : Session V C) → Kept s → Kept (on_event V J E C dev pipeline event s).1
  on_event-Kept event s kept = elim (on_event-cases event s) [
    | inl (e, f) ↦ same_stream s (on_event V J E C dev pipeline event s).1 e f kept
    | inr (inl (named, path)) ↦
        subst (λ r. Kept r.1) (sym path)
          (elim (on_audio_start-cases event s) [
            | inl (e, f) ↦
                same_stream s (on_audio_start V J E C dev pipeline event s).1 e (inl f) kept
            | inr (p, decoded, greeted, valid, opens) ↦
                subst (λ r. Kept r.1) (sym opens)
                  (subst (λ g. IsConsistent g (stream_started p s).stream) (sym greeted)
                    (streams valid))
          ])
    | inr (inr path) ↦
        subst (λ r. Kept r.1) (sym path)
          (let (stays, same) = on_audio_stop-cases event s in
            elim stays [
              | inl e ↦
                  same_stream s (on_audio_stop V J E C dev pipeline event s).1 e (inl same) kept
              | inr e ↦
                  subst
                    (λ x. IsConsistent (on_audio_stop V J E C dev pipeline event s).1.hello_seen x)
                    (sym e) idle
            ])
  ]

  on_frame-Kept :
      (f : Frame E.Bytes) (s : Session V C) → Kept s → Kept (on_frame V J E C dev pipeline f s).1
  unfolding on_frame
  on_frame-Kept (text data_) s kept = by_outcome (decode_event V J E data_)
    where
      by_outcome : (d : Outcome Envelope) → Kept (decoded V J E C dev pipeline d s).1
      by_outcome (failed e) = kept
      by_outcome (done event) = on_event-Kept event s kept
  on_frame-Kept (binary payload) s kept =
      on_binary-IsConsistent payload s s.hello_seen s.stream kept
  on_frame-Kept close s kept = kept
  on_frame-Kept unsupported s kept = kept

  -- From a consistent session, any frames lead the loop to a consistent one: either the handler and
  -- its tracker have no stream, or both have the same valid stream in its announced format, which
  -- was opened after a hello.
  pub serve-IsConsistent :
      (fs : List (Frame E.Bytes)) (s : Session V C)
      → IsConsistent s.hello_seen s.stream
      → IsConsistent
          (serve V J E C dev pipeline fs s).hello_seen
          (serve V J E C dev pipeline fs s).stream
  unfolding serve
  serve-IsConsistent [] s kept = kept
  serve-IsConsistent (f ∷ fs) s kept =
      let next = on_frame-Kept f s kept in
      elim (Bool-cases (on_frame V J E C dev pipeline f s).0) [
        | inl e ↦ rw e (serve-IsConsistent fs (on_frame V J E C dev pipeline f s).1 next)
        | inr e ↦ rw e next
      ]
