-- ===== src/Session/Pipeline.antt =====
-- internal/session/pipeline.go: Run.
use agen_sense.Prelude.{
  ℕ, suc, String, Option, none, some, List, [], ◌∷◌, length, ◌==◌, string_eq, if◌then◌else◌,
  trim_space, print_padded,
}
use Prim.Native.String.{◌++◌ as joined}
use agen_sense.Provider.Types.{
  AudioFormat, ChatMessage, ChatRequest, TtsRequest, TranscribeRequest, AudioChunk,
}
use agen_sense.Provider.Clients.{
  Callback, AsrClient, LlmClient, TtsClient, Transcribed, heard, unheard,
}
use agen_sense.Voicelang
use agen_sense.Trace.Types.{Floats, TraceMeta}
use agen_sense.Trace.Store.{Store}
use agen_sense.Trace.Store
use agen_sense.Trace.Changes.{Method, Call, after}
use agen_sense.Session.Types.{Action, Sink, PipelineRequest, Pipeline, TurnState}

abbrev voice_gateway_system_prompt : String
voice_gateway_system_prompt =
    "You are AgenSense, a shared voice orchestration assistant for AgenDash-style clients.\n\nRespond for speech playback instead of terminal output.\n- Keep the reply to one or two short sentences.\n- Prefer the concrete outcome, next step, or blocking issue.\n- Treat the user's message as a raw ASR transcript: it may be colloquial, fragmented, misheard, or contain filler words.\n- Silently infer the user's real intent before answering; preserve names, numbers, commands, file paths, model names, and technical terms exactly when they matter.\n- If the transcript appears to contain acoustic echo from recent assistant speech, ignore the echoed wording and answer only the user's new intent.\n- If the transcript is mostly echo or too ambiguous to act on, give a very short clarification instead of advancing the task.\n- Do not output markdown, JSON, XML, ANSI escapes, tool-call notation, or hidden reasoning.\n- If a request requires a focused remote code agent and none is attached, say that directly and ask the user to focus an agent first.\n- If the input is an approval or control command, keep the confirmation short and explicit."

abbrev pub incomplete : String
incomplete = "session pipeline: provider dependencies are incomplete"

abbrev pub turn_meta : PipelineRequest → TraceMeta
turn_meta req = record {
  device_id = req.device_id;
  device_label = "";
  hardware_sku = "";
  firmware_version = "";
  firmware_channel = "";
  client_id = "";
  session_id = req.session_id;
  provider_profile_id = "";
  http_path = "";
}

-- fmt.Sprintf("%s-%06d", prefix, n)
abbrev pub id_of : String → ℕ → String
id_of prefix n = joined prefix (joined "-" (print_padded n))

abbrev pub transcribe_request : PipelineRequest → TranscribeRequest
transcribe_request req = record {
  device_id = req.device_id;
  session_id = req.session_id;
  format = req.format;
  audio = req.audio;
}

-- The reply that is spoken.
unfoldable pub reply_of : String → String
unfolding trim_space
reply_of llm_reply =
    let reply_text = trim_space llm_reply in
    if reply_text == "" then "Mock agent reply." else reply_text

abbrev pub tts_format : AudioFormat → AudioFormat
tts_format format = record format {
  codec = if format.codec == "" then "pcm_s16le" else format.codec;
}

abbrev pub tts_request : PipelineRequest → String → TtsRequest
tts_request req reply = record {
  device_id = req.device_id;
  session_id = req.session_id;
  text = reply;
  format = tts_format req.format;
}

abbrev pub noop : ℕ → Action
noop n = record {
  action_id = id_of "act" n;
  kind = "noop";
  payload = ("reason", "mock pipeline complete") ∷ [];
}

module _ (to_lower : String → String) where
  unfoldable pub chat_messages : String → List ChatMessage
  chat_messages text =
      record { role = "system"; content = voice_gateway_system_prompt }
      ∷ record { role = "system"; content = Voicelang.instruction to_lower Voicelang.auto text }
      ∷ record { role = "user"; content = text }
      ∷ []

  abbrev pub chat_request : PipelineRequest → String → ChatRequest
  chat_request req text = record {
    device_id = req.device_id;
    session_id = req.session_id;
    messages = chat_messages text;
  }

  module _ (F : Floats) (base : String → String) (K : Sink) where
    abbrev pub Turn : Type 0
    Turn = TurnState F base K

    -- A handle is nil when there is no store.
    abbrev pub told : Option String → Method F base → Option (Store F base) → Option (Store F base)
    told none method debug = debug
    told (some trace_id) method none = none
    told (some trace_id) method (some s) = some (after F base s (Call.calls trace_id method))

    abbrev pub traced : Option String → Method F base → Turn → Turn
    traced handle method t = record t { debug = told handle method t.debug }

    abbrev begun : PipelineRequest → Option (Store F base) → Turn → Option String × Turn
    begun req none t = (none, t)
    begun req (some s) t =
        let (trace_id, s') = Store.start_trace F base "voice_turn" "ws" (turn_meta req) s in
        (some trace_id, record t { debug = some s' })

    unfoldable pub start_trace : PipelineRequest → Turn → Option String × Turn
    start_trace req t = begun req t.debug t

    abbrev next_id : Turn → ℕ × Turn
    next_id t = (suc t.id_counter, record t { id_counter = suc t.id_counter })

    abbrev pub sent : (K.State → Option String × K.State) → Turn → Option String × Turn
    sent f t = let (e, s) = f t.sink in (e, record t { sink = s })

    -- `if err != nil { trace.Fail(err); return err }` and what follows.
    unfoldable pub attempt :
        Option String → Option String × Turn → (Turn → Option String × Turn) → Option String × Turn
    attempt handle (some e, t) next = (some e, traced handle (Method.finish e "error") t)
    attempt handle (none, t) next = next t

    -- From `trace.CompleteTTS` on.
    abbrev pub finished : Option String → PipelineRequest → Turn → Option String × Turn
    finished handle req t =
        let t' = traced handle (Method.complete_tts (tts_format req.format)) t in
        let (n, t'') = next_id (traced handle (Method.finish "" "completed") t') in
        sent (K.on_action (noop n)) t''

    -- The callback of the synthesis.
    abbrev pub on_chunk : Option String → Callback AudioChunk Turn
    on_chunk handle chunk t =
        sent (K.on_tts_chunk chunk.data_) (traced handle (Method.add_tts_chunk chunk.data_) t)

    abbrev pub speak_as :
        String → TtsClient → Option String → PipelineRequest → String → Turn → Option String × Turn
    speak_as stream_id tts handle req reply t =
        let t' = traced handle (Method.start_tts reply (tts_format req.format)) t in
        attempt handle (sent (K.on_tts_start stream_id (tts_format req.format) reply) t') λ t.
          attempt handle (tts.synthesize_stream (tts_request req reply) (on_chunk handle) t)
            λ t. attempt handle (sent (K.on_tts_stop stream_id) t) λ t. finished handle req t

    unfoldable pub speak :
        TtsClient → Option String → PipelineRequest → String → Turn → Option String × Turn
    speak tts handle req reply t =
        let (n, t') = next_id t in speak_as (id_of "tts" n) tts handle req reply t'

    -- The callback of the chat, which also builds the reply.
    abbrev pub on_delta : Option String → Callback String (String × Turn)
    on_delta handle text (reply, t) =
        let (e, t') = sent (K.on_llm_delta text) (traced handle (Method.add_llm_delta text) t) in
        (e, (joined reply text, t'))

    abbrev pub replied :
        TtsClient
        → Option String
        → PipelineRequest
        → Option String × (String × Turn)
        → Option String × Turn
    replied tts handle req (e, (llm_reply, t)) =
        attempt handle (e, t)
          λ t.
            let t' = traced handle (Method.complete_llm (reply_of llm_reply)) t in
            attempt handle (sent (K.on_llm_done (reply_of llm_reply)) t')
              λ t. speak tts handle req (reply_of llm_reply) t

    unfoldable pub ask :
        LlmClient
        → TtsClient
        → Option String
        → PipelineRequest
        → String
        → Turn
        → Option String × Turn
    ask llm tts handle req text t =
        let t' = traced handle (Method.start_llm (chat_messages text)) t in
        replied tts handle req (llm.chat_stream (chat_request req text) (on_delta handle) ("", t'))

    abbrev pub transcribed :
        LlmClient
        → TtsClient
        → Option String
        → PipelineRequest
        → Transcribed
        → Turn
        → Option String × Turn
    transcribed llm tts handle req (unheard e) t =
        (some e, traced handle (Method.finish e "error") t)
    transcribed llm tts handle req (heard text) t =
        attempt handle (sent (K.on_asr_final text) (traced handle (Method.complete_asr text) t))
          λ t. ask llm tts handle req text t

    abbrev pub listened : AsrClient → Option String → PipelineRequest → Turn → Transcribed × Turn
    listened asr handle req t =
        let t' = traced handle (Method.set_input_audio req.format req.audio) t in
        (
          asr.transcribe (transcribe_request req),
          traced handle (Method.start_asr req.format (length req.audio)) t',
        )

    unfoldable pub run_with :
        AsrClient → LlmClient → TtsClient → PipelineRequest → Turn → Option String × Turn
    run_with asr llm tts req t =
        let (handle, t1) = start_trace req t in
        let (result, t2) = listened asr handle req t1 in transcribed llm tts handle req result t2

    abbrev run_some :
        Option AsrClient
        → Option LlmClient
        → Option TtsClient
        → PipelineRequest
        → Turn
        → Option String × Turn
    run_some (some asr) (some llm) (some tts) req t = run_with asr llm tts req t
    run_some _ _ _ req t = (some incomplete, t)

    unfoldable pub run : Pipeline → PipelineRequest → Turn → Option String × Turn
    run p req t = run_some p.asr p.llm p.tts req t
