-- ===== src/Gateway/Speech.antt =====
-- What the speech of a turn writes through gatewaySink of internal/gateway/handler.go.
use agen_sense.Prelude.{
  ℕ, suc, ◌+◌, pos, String, Option, none, some, List, [], ◌∷◌, ◌++◌, map, length, ◌≡◌, refl, sym,
  ap, ◌∙◌, arith, string_eq, ==_refl, int_eq,
}
use mathlib.Core.List.{append_assoc, append-nil}
use agen_sense.Protocol.Types.{
  Values, AudioStartPayload, audio_start, audio_stop, event_tts_start, event_tts_stop,
  event_action_execute,
}
use agen_sense.Protocol.Validate.{PayloadJson, validate_audio_start}
use agen_sense.Protocol.Envelope.{done, EnvelopeJson}
use agen_sense.Protocol.Stream.{new_tracker, start, add_frame, stop, active_stream}
use agen_sense.Provider.Types.{AudioChunk, AudioFormat}
use agen_sense.Provider.Clients.{next, deliver, TtsClient}
use agen_sense.Session.Types.{PipelineRequest, Action, TurnState}
use agen_sense.Session.Pipeline.{id_of, tts_format, tts_request, noop, speak}
use agen_sense.Session.Script.{call, play, speech_script, tts_chunk, tts_stop, action}
use agen_sense.Session.Streams.{deliver-append}
use agen_sense.Session.Speech.{at_sink, speak_lem}
use agen_sense.Trace.Types.{Floats}
use agen_sense.Gateway.Sink.{
  Written, text, binary, GatewaySink, SinkContext, start_payload, write_frame, encoded,
  write_protocol_event, on_tts_start, on_tts_chunk, on_tts_stop, on_action, executed, gateway_sink,
}

module _ (V : Values) (J : PayloadJson V) (E : EnvelopeJson) (X : SinkContext V) where
  -- A sink that has an open stream of n frames, on a connection that takes all.
  abbrev speaking : AudioStartPayload → ℕ → ℕ → List (Written E.Bytes) → GatewaySink E.Bytes
  speaking p n events written = record {
    outbound = record { active = some p; frame_count = n };
    written = written;
    events = events;
    faults = [];
  }

  -- A sink without a stream, on such a connection.
  abbrev pub resting : ℕ → List (Written E.Bytes) → GatewaySink E.Bytes
  resting events written = record {
    outbound = new_tracker;
    written = written;
    events = events;
    faults = [];
  }

  chunks_lem :
      (chunks : List AudioChunk) (p : AudioStartPayload) (n events : ℕ)
      (written : List (Written E.Bytes))
      → deliver
          (map (λ (c : AudioChunk). tts_chunk c.data_) chunks)
          none
          (call (gateway_sink V J E X))
          (speaking p n events written)
        ≡ (
          none,
          speaking p
              (n + length chunks)
              events
              (written ++ map (λ (c : AudioChunk). binary c.data_) chunks),
        )
  unfolding on_tts_chunk add_frame write_frame
  chunks_lem [] p n events written =
      ap (λ k. (none, speaking p k events written)) (sym (omega arith))
      ∙ ap (λ w. (none, speaking p (n + 0) events w)) (sym (append-nil written))
  chunks_lem (c ∷ chunks) p n events written =
      chunks_lem chunks p (suc n) events (written ++ (binary c.data_ ∷ []))
      ∙ ap
          (λ k. (
            none,
            speaking p k events (
                (written ++ (binary c.data_ ∷ []))
                ++ map (λ (c : AudioChunk). binary c.data_) chunks),
          ))
          (omega arith)
      ∙ ap (λ w. (none, speaking p (n + suc (length chunks)) events w))
          (append_assoc written (binary c.data_ ∷ [])
            (map (λ (c : AudioChunk). binary c.data_) chunks))

  started :
      (stream_id : String) (format : AudioFormat) (spoken : String) (events : ℕ)
      (written : List (Written E.Bytes)) (b : E.Bytes)
      → validate_audio_start (start_payload stream_id format) ≡ none
      → encoded V J E X events event_tts_start (audio_start (start_payload stream_id format))
        ≡ done b
      → on_tts_start V J E X stream_id format spoken (resting events written) ≡ (
        none,
        speaking (start_payload stream_id format) 0 (suc events) (written ++ (text b ∷ [])),
      )
  unfolding on_tts_start start write_protocol_event write_frame
  started stream_id format spoken events written b valid bytes = rw (valid, bytes) refl

  stopped :
      (p : AudioStartPayload) (n events : ℕ) (written : List (Written E.Bytes)) (b : E.Bytes)
      → encoded V J E X events event_tts_stop
          (audio_stop (record { stream_id = p.stream_id; last_seq = pos n }))
        ≡ done b
      → on_tts_stop V J E X p.stream_id (speaking p n events written)
        ≡ (none, resting (suc events) (written ++ (text b ∷ [])))
  unfolding on_tts_stop stop active_stream write_protocol_event write_frame
  stopped p n events written b bytes = rw (==_refl p.stream_id, ==_refl (pos n), bytes) refl

  acted :
      (a : Action) (events : ℕ) (written : List (Written E.Bytes)) (b : E.Bytes)
      → encoded V J E X events event_action_execute (executed V X a) ≡ done b
      → on_action V J E X a (resting events written)
        ≡ (none, resting (suc events) (written ++ (text b ∷ [])))
  unfolding on_action write_protocol_event write_frame
  acted a events written b bytes = rw bytes refl

  -- The list of what is written.
  in_order :
      (written frames : List (Written E.Bytes)) (b c d : E.Bytes)
      → (((written ++ (text b ∷ [])) ++ frames) ++ (text c ∷ [])) ++ (text d ∷ [])
        ≡ written ++ (text b ∷ (frames ++ (text c ∷ text d ∷ [])))
  in_order written frames b c d =
      append_assoc ((written ++ (text b ∷ [])) ++ frames) (text c ∷ []) (text d ∷ [])
      ∙ append_assoc (written ++ (text b ∷ [])) frames (text c ∷ text d ∷ [])
      ∙ append_assoc written (text b ∷ []) (frames ++ (text c ∷ text d ∷ []))

  -- The script of the speech, played on the sink.
  script_lem :
      (tts : TtsClient) (req : PipelineRequest) (reply : String) (k events : ℕ)
      (written : List (Written E.Bytes)) (b c d : E.Bytes)
      → let id = id_of "tts" (suc k) in
        let p = start_payload id (tts_format req.format) in
        let chunks = tts.chunks (tts_request req reply) in
        tts.ending (tts_request req reply) ≡ none
        → validate_audio_start p ≡ none
        → encoded V J E X events event_tts_start (audio_start p) ≡ done b
        → encoded V J E X
            (suc events)
            event_tts_stop
            (audio_stop (record { stream_id = id; last_seq = pos (length chunks) }))
          ≡ done c
        → encoded V J E X
            (suc (suc events))
            event_action_execute
            (executed V X (noop (suc (suc k))))
          ≡ done d
        → play (gateway_sink V J E X) (speech_script tts req reply k) (resting events written) ≡ (
          none,
          resting (suc (suc (suc events))) (
              written
              ++ (text b
                  ∷ (map (λ (x : AudioChunk). binary x.data_) chunks ++ (text c ∷ text d ∷ [])))),
        )
  unfolding speech_script
  script_lem tts req reply k events written b c d ends valid first middle last =
      let id = id_of "tts" (suc k) in
      let p = start_payload id (tts_format req.format) in
      let chunks = tts.chunks (tts_request req reply) in
      let K = gateway_sink V J E X in
      let calls = map (λ (x : AudioChunk). tts_chunk x.data_) chunks in
      let frames : List (Written E.Bytes) = map (λ (x : AudioChunk). binary x.data_) chunks in
      let w = written ++ (text b ∷ []) in
      let act = action (noop (suc (suc k))) ∷ [] in
      let rest = tts_stop id ∷ act in
      let counted : 0 + length chunks ≡ length chunks = omega arith in
      rw ends (
        ap (λ m. next m (deliver (calls ++ rest) none (call K)))
          (started id (tts_format req.format) reply events written b valid first)
        ∙ deliver-append calls rest none (call K) (speaking p 0 (suc events) w)
        ∙ ap (λ m. next m (deliver rest none (call K))) (chunks_lem chunks p 0 (suc events) w)
        ∙ ap
            (λ n. next (none, speaking p n (suc events) (w ++ frames)) (deliver rest none (call K)))
            counted
        ∙ ap (λ m. next m (deliver act none (call K)))
            (stopped p (length chunks) (suc events) (w ++ frames) c middle)
        ∙ ap (λ m. next m (deliver [] none (call K)))
            (acted (noop (suc (suc k))) (suc (suc events)) ((w ++ frames) ++ (text c ∷ [])) d last)
        ∙ ap (λ z. (none, resting (suc (suc (suc events))) z)) (in_order written frames b c d))

  -- On a sink of the gateway without an outbound stream, whose connection takes every write and
  -- whose three events encode, the speech of a turn in a valid format, when the synthesis does not
  -- fail, writes tts.start, one binary frame for each chunk in their order, tts.stop with the
  -- number of the chunks as its last sequence, and the closing action, and leaves no outbound
  -- stream; it returns no error.
  pub speech_lem :
      (to_lower : String → String) (F : Floats) (base : String → String) (tts : TtsClient)
      (handle : Option String) (req : PipelineRequest) (reply : String) (events : ℕ)
      (written : List (Written E.Bytes)) (b c d : E.Bytes)
      (t : TurnState F base (gateway_sink V J E X))
      → let id = id_of "tts" (suc t.id_counter) in
        let p = start_payload id (tts_format req.format) in
        let chunks = tts.chunks (tts_request req reply) in
        t.sink ≡ resting events written
        → tts.ending (tts_request req reply) ≡ none
        → validate_audio_start p ≡ none
        → encoded V J E X events event_tts_start (audio_start p) ≡ done b
        → encoded V J E X
            (suc events)
            event_tts_stop
            (audio_stop (record { stream_id = id; last_seq = pos (length chunks) }))
          ≡ done c
        → encoded V J E X
            (suc (suc events))
            event_action_execute
            (executed V X (noop (suc (suc t.id_counter))))
          ≡ done d
        → at_sink to_lower F base
            (gateway_sink V J E X)
            (speak to_lower F base (gateway_sink V J E X) tts handle req reply t)
          ≡ (
            none,
            resting (suc (suc (suc events))) (
                written
                ++ (text b
                    ∷ (map (λ (x : AudioChunk). binary x.data_) chunks ++ (text c ∷ text d ∷ [])))),
          )
  speech_lem to_lower F base tts handle req reply events written b c d t rests ends valid first
        middle last =
      let K = gateway_sink V J E X in
      speak_lem to_lower F base K tts handle req reply t.id_counter t refl
      ∙ ap (play K (speech_script tts req reply t.id_counter)) rests
      ∙ script_lem tts req reply t.id_counter events written b c d ends valid first middle last
