-- ===== src/Session/Speech.antt =====
-- That the speech of a turn of internal/session/pipeline.go follows its script.
use agen_sense.Prelude.{
  ℕ, suc, String, Option, none, some, [], ◌∷◌, map, ◌≡◌, refl, sym, ap, subst, ◌∙◌,
}
use agen_sense.Provider.Types.{AudioChunk}
use agen_sense.Provider.Clients.{next, deliver, TtsClient}
use agen_sense.Trace.Types.{Floats}
use agen_sense.Session.Types.{Sink, PipelineRequest, TurnState}
use agen_sense.Session.Pipeline
use agen_sense.Session.Script.{
  call, Script, then_, play, speech_script, tts_start, tts_chunk, tts_stop, action,
}
use agen_sense.Session.Streams.{
  next_assoc, next_end, deliver-append, deliver-failing, deliver-Kept, deliver-map, viewed,
}

pub play-then_ :
    (K : Sink) (a b : Script) (s : K.State) → play K (then_ a b) s ≡ next (play K a s) (play K b)
play-then_ K (calls, none) b s = deliver-append calls b.0 b.1 (call K) s
play-then_ K (calls, some error) b s = sym (deliver-failing calls error (call K) s (play K b))

module _ (to_lower : String → String) (F : Floats) (base : String → String) (K : Sink) where
  abbrev T : Type 0
  T = TurnState F base K

  abbrev pub at_sink : Option String × T → Option String × K.State
  at_sink = viewed (λ (t : T). t.sink)

  pub attempt-next :
      (handle : Option String) (n : ℕ) (m : Option String × T) (f : T → Option String × T)
      (g : K.State → Option String × K.State)
      → m.1.id_counter ≡ n
      → ((t : T) → m.0 ≡ none → t.id_counter ≡ n → at_sink (f t) ≡ g t.sink)
      → at_sink (Pipeline.attempt to_lower F base K handle m f) ≡ next (at_sink m) g
  unfolding Pipeline.attempt
  attempt-next handle n (some e, t) f g counted follows = refl
  attempt-next handle n (none, t) f g counted follows = follows t refl counted

  finished_lem :
      (handle : Option String) (req : PipelineRequest) (n : ℕ) (t : T)
      → t.id_counter ≡ n
      → at_sink (Pipeline.finished to_lower F base K handle req t)
        ≡ play K (action (Pipeline.noop (suc n)) ∷ [], none) t.sink
  finished_lem handle req n t counted =
      ap (λ k. K.on_action (Pipeline.noop (suc k)) t.sink) counted
      ∙ sym (next_end (K.on_action (Pipeline.noop (suc n)) t.sink))

  synthesized :
      (tts : TtsClient) (handle : Option String) (req : PipelineRequest) (reply : String) (t : T)
      → at_sink (
          tts.synthesize_stream
            (Pipeline.tts_request req reply)
            (Pipeline.on_chunk to_lower F base K handle)
            t)
        ≡ deliver
            (map
              (λ (c : AudioChunk). tts_chunk c.data_)
              (tts.chunks (Pipeline.tts_request req reply)))
            (tts.ending (Pipeline.tts_request req reply))
            (call K)
            t.sink
  synthesized tts handle req reply t =
      ap at_sink (tts.synthesize_stream-deliver _ _ t)
      ∙ deliver-map (λ (c : AudioChunk). tts_chunk c.data_) (λ (t : T). t.sink)
          (Pipeline.on_chunk to_lower F base K handle) (call K) (λ c t. refl) _ _ t

  synthesized-Counted :
      (tts : TtsClient) (handle : Option String) (req : PipelineRequest) (reply : String) (n : ℕ)
      (t : T)
      → t.id_counter ≡ n
      → (tts.synthesize_stream
          (Pipeline.tts_request req reply)
          (Pipeline.on_chunk to_lower F base K handle)
          t).1.id_counter
        ≡ n
  synthesized-Counted tts handle req reply n t counted =
      subst (λ (m : Option String × T). m.1.id_counter ≡ n)
        (sym (tts.synthesize_stream-deliver _ _ t))
        (deliver-Kept (λ (t : T). t.id_counter ≡ n) (Pipeline.on_chunk to_lower F base K handle)
          (λ c t p. p) _ _ t counted)

  -- From the end of the synthesis on.
  stopped_lem :
      (handle : Option String) (req : PipelineRequest) (stream_id : String) (n : ℕ) (t : T)
      → t.id_counter ≡ n
      → at_sink (
          Pipeline.attempt to_lower F base K handle
            (Pipeline.sent to_lower F base K (K.on_tts_stop stream_id) t)
            (Pipeline.finished to_lower F base K handle req))
        ≡ play K (tts_stop stream_id ∷ action (Pipeline.noop (suc n)) ∷ [], none) t.sink
  stopped_lem handle req stream_id n t counted =
      attempt-next handle n (Pipeline.sent to_lower F base K (K.on_tts_stop stream_id) t) _
        (play K (action (Pipeline.noop (suc n)) ∷ [], none)) counted
        (λ t done c. finished_lem handle req n t c)

  pub speak_lem :
      (tts : TtsClient) (handle : Option String) (req : PipelineRequest) (reply : String) (n : ℕ)
      (t : T)
      → t.id_counter ≡ n
      → at_sink (Pipeline.speak to_lower F base K tts handle req reply t)
        ≡ play K (speech_script tts req reply n) t.sink
  unfolding Pipeline.speak speech_script
  speak_lem tts handle req reply n t counted =
      let stream_id = Pipeline.id_of "tts" (suc t.id_counter) in
      let ends : Script =
        (tts_stop stream_id ∷ action (Pipeline.noop (suc (suc t.id_counter))) ∷ [], none) in
      let request = Pipeline.tts_request req reply in
      let chunks = map (λ (c : AudioChunk). tts_chunk c.data_) (tts.chunks request) in
      let start = K.on_tts_start stream_id (Pipeline.tts_format req.format) reply in
      let streamed = λ (s : K.State). deliver chunks (tts.ending request) (call K) s in
      let rest = λ (s : K.State). next (streamed s) (play K ends) in
      let spoken = λ (u : T) (done : (start t.sink).0 ≡ none) (c : u.id_counter ≡ suc t.id_counter).
        attempt-next handle (suc t.id_counter)
          (tts.synthesize_stream request (Pipeline.on_chunk to_lower F base K handle) u) _
          (play K ends) (synthesized-Counted tts handle req reply (suc t.id_counter) u c)
          (λ v done d. stopped_lem handle req stream_id (suc t.id_counter) v d)
        ∙ ap (λ m. next m (play K ends)) (synthesized tts handle req reply u) in
      let started = attempt-next handle (suc t.id_counter) _ _ rest refl spoken in
      started
      ∙ sym (next_assoc (start t.sink) streamed (play K ends))
      ∙ sym (
          play-then_ K
            (
              tts_start stream_id (Pipeline.tts_format req.format) reply ∷ chunks,
              tts.ending request,
            )
            ends t.sink)
      ∙ ap (λ k. play K (speech_script tts req reply k) t.sink) counted
