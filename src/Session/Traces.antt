-- ===== src/Session/Traces.antt =====
-- What a turn of internal/session/pipeline.go leaves in the store of traces.
use agen_sense.Prelude.{
  String, Option, none, some, lookup, lookup-insert, string_eq, ==_refl, ◌≡◌, refl, ◌⊎◌, inl, inr,
  arith, ap, sym, subst, ◌∙◌,
}
use agen_sense.Provider.Clients.{AsrClient, LlmClient, TtsClient, Transcribed, heard, unheard}
use agen_sense.Trace.Types.{Floats, TraceRecord}
use agen_sense.Trace.Store.{Store, mutate, changed, stamped}
use agen_sense.Trace.Changes.{Method, Call, change, after}
use agen_sense.Trace.Handle
use agen_sense.Session.Types.{Sink, PipelineRequest, TurnState}
use agen_sense.Session.Pipeline

module _ (F : Floats) (base : String → String) where
  -- A trace that is completed without an error, or that failed with the error of a result.
  abbrev pub IsSettled : Option String → TraceRecord F → Type 0
  IsSettled result r =
      ((r.trace.status ≡ "completed") × (r.trace.error ≡ ""))
      ⊎ ((r.trace.status ≡ "error") × (result ≡ some r.trace.error))

  -- The trace of a handle, if the store still has it, is settled.
  abbrev pub HasSettled : Option String → Option String → Option (Store F base) → Type 0
  HasSettled handle result debug =
      (id : String) (s : Store F base) (r : TraceRecord F)
      → handle ≡ some id
      → debug ≡ some s
      → lookup id s.traces ≡ some r
      → IsSettled result r

  module _ (to_lower : String → String) (K : Sink) where
    abbrev Settled : Option String → Option String × TurnState F base K → Type 0
    Settled handle m = HasSettled handle m.0 m.1.debug

    finished_record :
        (id error status : String) (s : Store F base) (r : TraceRecord F)
        (o : Option (TraceRecord F))
        → lookup id s.traces ≡ o
        → lookup id
            (changed F base
              (change F base s.max_asset_size s.asset_dir (Method.finish error status))
              id
              s
              o).traces
          ≡ some r
        → (r.trace.status ≡ status) × (r.trace.error ≡ error)
    unfolding change Handle.finish
    finished_record id error status s r none e found = absurd (cc)
    finished_record id error status s r (some old) e found =
        let result =
          (change F base s.max_asset_size s.asset_dir (Method.finish error status)
            (s.clock s.readings) (old, s.disk)).0 in
        let now = stamped F base (s.clock s.readings) result in
        let stored = lookup-insert id id now s.traces in
        let same : now ≡ r = ground (arith, stored, found, ==_refl id) in
        subst (λ (x : TraceRecord F). (x.trace.status ≡ status) × (x.trace.error ≡ error)) same
          (refl, refl)

    finish-Settled :
        (handle result : Option String) (error status : String) (t : TurnState F base K)
        → ((r : TraceRecord F)
            → r.trace.status ≡ status
            → r.trace.error ≡ error
            → IsSettled result r)
        → HasSettled handle result
            (Pipeline.traced to_lower F base K handle (Method.finish error status) t).debug
    unfolding after mutate
    finish-Settled handle result error status t ends id s r h d found = settled handle t.debug h d
      where
        settled :
            (handle : Option String) (debug : Option (Store F base))
            → handle ≡ some id
            → Pipeline.told to_lower F base K handle (Method.finish error status) debug ≡ some s
            → IsSettled result r
        settled none debug h d = absurd (cc)
        settled (some other) none h d = absurd (cc)
        settled (some other) (some old) h d =
            let same : other ≡ id = cc in
            let by = λ (i : String). after F base old (Call.calls i (Method.finish error status)) in
            let last : by other ≡ s = cc in
            let found' =
              ap (λ (x : Store F base). lookup id x.traces) (ap by (sym same) ∙ last) ∙ found in
            let kept = finished_record id error status old r (lookup id old.traces) refl found' in
            ends r kept.0 kept.1

    attempt-Settled :
        (handle : Option String) (m : Option String × TurnState F base K)
        (f : TurnState F base K → Option String × TurnState F base K)
        → ((t : TurnState F base K) → Settled handle (f t))
        → Settled handle (Pipeline.attempt to_lower F base K handle m f)
    unfolding Pipeline.attempt
    attempt-Settled handle (some e, t) f rest =
        finish-Settled handle (some e) e "error" t (λ r a b. inr (a, ap some (sym b)))
    attempt-Settled handle (none, t) f rest = rest t

    finished-Settled :
        (handle : Option String) (req : PipelineRequest) (t : TurnState F base K)
        → Settled handle (Pipeline.finished to_lower F base K handle req t)
    finished-Settled handle req t =
        finish-Settled handle _ "" "completed"
          (Pipeline.traced to_lower F base K handle
            (Method.complete_tts (Pipeline.tts_format req.format)) t)
          (λ r a b. inl (a, b))

    speak-Settled :
        (tts : TtsClient) (handle : Option String) (req : PipelineRequest) (reply : String)
        (t : TurnState F base K)
        → Settled handle (Pipeline.speak to_lower F base K tts handle req reply t)
    unfolding Pipeline.speak
    speak-Settled tts handle req reply t = attempt-Settled handle _ _ λ u.
        attempt-Settled handle _ _
          λ v. attempt-Settled handle _ _ λ w. finished-Settled handle req w

    ask-Settled :
        (llm : LlmClient) (tts : TtsClient) (handle : Option String) (req : PipelineRequest)
        (text : String) (t : TurnState F base K)
        → Settled handle (Pipeline.ask to_lower F base K llm tts handle req text t)
    unfolding Pipeline.ask
    ask-Settled llm tts handle req text t =
        attempt-Settled handle _ _
          λ u. attempt-Settled handle _ _ λ v. speak-Settled tts handle req _ v

    transcribed-Settled :
        (llm : LlmClient) (tts : TtsClient) (handle : Option String) (req : PipelineRequest)
        (result : Transcribed) (t : TurnState F base K)
        → Settled handle (Pipeline.transcribed to_lower F base K llm tts handle req result t)
    transcribed-Settled llm tts handle req (unheard e) t =
        finish-Settled handle (some e) e "error" t (λ r a b. inr (a, ap some (sym b)))
    transcribed-Settled llm tts handle req (heard text) t =
        attempt-Settled handle _ _ λ u. ask-Settled llm tts handle req text u

    -- After a turn, the trace that it started, if the store still has it, is not running: it is
    -- completed without an error, or it has failed with the error that the turn returns.
    pub run_with-HasSettled :
        (asr : AsrClient) (llm : LlmClient) (tts : TtsClient) (req : PipelineRequest)
        (t : TurnState F base K)
        → HasSettled
            (Pipeline.start_trace to_lower F base K req t).0
            (Pipeline.run_with to_lower F base K asr llm tts req t).0
            (Pipeline.run_with to_lower F base K asr llm tts req t).1.debug
    unfolding Pipeline.run_with
    run_with-HasSettled asr llm tts req t =
        transcribed-Settled llm tts (Pipeline.start_trace to_lower F base K req t).0 req _ _
