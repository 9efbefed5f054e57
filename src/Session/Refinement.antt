-- ===== src/Session/Refinement.antt =====
-- That a turn of internal/session/pipeline.go follows its script.
use agen_sense.Prelude.{
  Option-cases, inl, inr, ℕ, String, Option, none, some, List, [], ◌∷◌, map, ◌≡◌, refl, sym, ap,
  subst, ◌∙◌,
}
use Prim.Native.String.{◌++◌ as joined}
use agen_sense.Provider.Clients.{
  next, deliver, AsrClient, LlmClient, TtsClient, Transcribed, heard, unheard,
}
use agen_sense.Trace.Types.{Floats}
use agen_sense.Trace.Changes.{Method}
use agen_sense.Session.Types.{Sink, PipelineRequest, TurnState}
use agen_sense.Session.Pipeline
use agen_sense.Session.Script.{
  call, Script, play, gathered, speech_script, chat_script, turn_script, after_asr, llm_delta,
  llm_done,
}
use agen_sense.Session.Streams.{deliver-Kept, deliver-map, viewed}
use agen_sense.Session.Speech.{play-then_, at_sink, attempt-next, speak_lem}

next-done :
    {S : Type 0} (m : Option String × S) (f : S → Option String × S) (P : S → Type 0)
    → ((f m.1).0 ≡ none → P (f m.1).1)
    → (next m f).0 ≡ none
    → P (next m f).1
next-done (some e, s) f P follows done = absurd (cc)
next-done (none, s) f P follows done = follows done

module _ (to_lower : String → String) (F : Floats) (base : String → String) (K : Sink) where
  abbrev T : Type 0
  T = TurnState F base K

  -- The chat.
  asked :
      (llm : LlmClient) (handle : Option String) (req : PipelineRequest) (text : String) (t : T)
      → viewed
          (λ (s : String × T). s.1.sink)
          (llm.chat_stream
            (Pipeline.chat_request to_lower req text)
            (Pipeline.on_delta to_lower F base K handle)
            ("", t))
        ≡ deliver
            (map llm_delta (llm.deltas (Pipeline.chat_request to_lower req text)))
            (llm.ending (Pipeline.chat_request to_lower req text))
            (call K)
            t.sink
  asked llm handle req text t =
      ap (viewed (λ (s : String × T). s.1.sink)) (llm.chat_stream-deliver _ _ ("", t))
      ∙ deliver-map llm_delta (λ (s : String × T). s.1.sink)
          (Pipeline.on_delta to_lower F base K handle) (call K) (λ c s. refl) _ _ ("", t)

  asked-Counted :
      (llm : LlmClient) (handle : Option String) (req : PipelineRequest) (text : String) (n : ℕ)
      (t : T)
      → t.id_counter ≡ n
      → (llm.chat_stream
          (Pipeline.chat_request to_lower req text)
          (Pipeline.on_delta to_lower F base K handle)
          ("", t)).1.1.id_counter
        ≡ n
  asked-Counted llm handle req text n t counted =
      subst (λ (m : Option String × (String × T)). m.1.1.id_counter ≡ n)
        (sym (llm.chat_stream-deliver _ _ ("", t)))
        (deliver-Kept (λ (s : String × T). s.1.id_counter ≡ n)
          (Pipeline.on_delta to_lower F base K handle) (λ c s p. p) _ _ ("", t) counted)

  -- A chat that does not fail leaves all its texts in the builder.
  gathered_lem :
      (handle : Option String) (texts : List String) (ending : Option String) (reply : String)
      (t : T)
      → (deliver texts ending (Pipeline.on_delta to_lower F base K handle) (reply, t)).0 ≡ none
      → (deliver texts ending (Pipeline.on_delta to_lower F base K handle) (reply, t)).1.0
        ≡ gathered reply texts
  gathered_lem handle [] ending reply t done = refl
  gathered_lem handle (text ∷ texts) ending reply t done =
      next-done (Pipeline.on_delta to_lower F base K handle text (reply, t)) _
        (λ (s : String × T). s.0 ≡ gathered reply (text ∷ texts))
        (gathered_lem handle texts ending (joined reply text) _) done

  gathered_reply :
      (llm : LlmClient) (handle : Option String) (req : PipelineRequest) (text : String) (t : T)
      → let m =
          llm.chat_stream
            (Pipeline.chat_request to_lower req text)
            (Pipeline.on_delta to_lower F base K handle)
            ("", t) in
        m.0 ≡ none → m.1.0 ≡ gathered "" (llm.deltas (Pipeline.chat_request to_lower req text))
  gathered_reply llm handle req text t =
      subst
        (λ (m : Option String × (String × T)).
          m.0 ≡ none → m.1.0 ≡ gathered "" (llm.deltas (Pipeline.chat_request to_lower req text)))
        (sym (llm.chat_stream-deliver _ _ ("", t))) (gathered_lem handle _ _ "" t)

  -- From the end of the chat on.
  said_lem :
      (tts : TtsClient) (handle : Option String) (req : PipelineRequest) (reply : String) (n : ℕ)
      (t : T)
      → t.id_counter ≡ n
      → at_sink to_lower F base K (
          Pipeline.attempt to_lower F base K handle
            (Pipeline.sent to_lower F base K
              (K.on_llm_done reply)
              (Pipeline.traced to_lower F base K handle (Method.complete_llm reply) t))
            (Pipeline.speak to_lower F base K tts handle req reply))
        ≡ play K
            (llm_done reply ∷ (speech_script tts req reply n).0, (speech_script tts req reply n).1)
            t.sink
  said_lem tts handle req reply n t counted =
      attempt-next to_lower F base K handle n _
        (Pipeline.speak to_lower F base K tts handle req reply)
        (play K (speech_script tts req reply n)) counted
        (λ u done c. speak_lem to_lower F base K tts handle req reply n u c)

  ask_lem :
      (llm : LlmClient) (tts : TtsClient) (handle : Option String) (req : PipelineRequest)
      (text : String) (n : ℕ) (t : T)
      → t.id_counter ≡ n
      → at_sink to_lower F base K (Pipeline.ask to_lower F base K llm tts handle req text t)
        ≡ play K (chat_script to_lower llm tts req text n) t.sink
  unfolding Pipeline.ask chat_script
  ask_lem llm tts handle req text n t counted =
      let request = Pipeline.chat_request to_lower req text in
      let t' =
        Pipeline.traced to_lower F base K handle
          (Method.start_llm (Pipeline.chat_messages to_lower text)) t in
      let m = llm.chat_stream request (Pipeline.on_delta to_lower F base K handle) ("", t') in
      let reply = Pipeline.reply_of (gathered "" (llm.deltas request)) in
      let speech = speech_script tts req reply n in
      let rest : Script = (llm_done reply ∷ speech.0, speech.1) in
      attempt-next to_lower F base K handle n (m.0, m.1.1) _ (play K rest)
        (asked-Counted llm handle req text n t' counted)
        (λ u done c.
          said_lem tts handle req (Pipeline.reply_of m.1.0) n u c
          ∙ ap
              (λ r.
                play K
                  (
                    llm_done (Pipeline.reply_of r)
                        ∷ (speech_script tts req (Pipeline.reply_of r) n).0,
                    (speech_script tts req (Pipeline.reply_of r) n).1,
                  )
                  u.sink)
              (gathered_reply llm handle req text t' done))
      ∙ ap (λ x. next x (play K rest)) (asked llm handle req text t')
      ∙ sym (play-then_ K (map llm_delta (llm.deltas request), llm.ending request) rest t.sink)

  -- Started.
  start_trace_same :
      (req : PipelineRequest) (t : T)
      → ((Pipeline.start_trace to_lower F base K req t).1.sink ≡ t.sink)
        × ((Pipeline.start_trace to_lower F base K req t).1.id_counter ≡ t.id_counter)
  unfolding Pipeline.start_trace
  start_trace_same req t = elim (Option-cases t.debug) [
    | inl e ↦ rw e (refl, refl)
    | inr (s, e) ↦ rw e (refl, refl)
  ]

  transcribed_lem :
      (llm : LlmClient) (tts : TtsClient) (handle : Option String) (req : PipelineRequest)
      (result : Transcribed) (n : ℕ) (t : T)
      → t.id_counter ≡ n
      → at_sink to_lower F base K
          (Pipeline.transcribed to_lower F base K llm tts handle req result t)
        ≡ play K (after_asr to_lower llm tts req n result) t.sink
  transcribed_lem llm tts handle req (unheard e) n t counted = refl
  transcribed_lem llm tts handle req (heard text) n t counted =
      attempt-next to_lower F base K handle n _
        (Pipeline.ask to_lower F base K llm tts handle req text)
        (play K (chat_script to_lower llm tts req text n)) counted
        (λ u done c. ask_lem llm tts handle req text n u c)

  -- Over any providers and any sink, the error of a turn and the sink after it are those of playing
  -- the turn's script to the sink up to the first call that fails: the transcript, the texts of the
  -- chat, the reply that they make, the start of the speech, its chunks, its stop, and the closing
  -- action, cut where a provider ends with an error, which is then the turn's.
  pub run_with_lem :
      (asr : AsrClient) (llm : LlmClient) (tts : TtsClient) (req : PipelineRequest) (t : T)
      → at_sink to_lower F base K (Pipeline.run_with to_lower F base K asr llm tts req t)
        ≡ play K (turn_script to_lower asr llm tts req t.id_counter) t.sink
  unfolding Pipeline.run_with turn_script
  run_with_lem asr llm tts req t =
      let (same_sink, same_counter) = start_trace_same req t in
      let (handle, u) = Pipeline.start_trace to_lower F base K req t in
      let (result, u') = Pipeline.listened to_lower F base K asr handle req u in
      transcribed_lem llm tts handle req result t.id_counter u' same_counter
      ∙ ap (play K (turn_script to_lower asr llm tts req t.id_counter)) same_sink
