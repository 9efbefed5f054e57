-- ===== src/Session/Script.antt =====
-- What a turn of internal/session/pipeline.go does to its sink: a script of calls that does not
-- depend on the sink, on the traces or on the log.
use agen_sense.Prelude.{ℕ, suc, String, Option, none, some, List, [], ◌∷◌, ◌++◌, map}
use Prim.Native.String.{◌++◌ as joined}
use agen_sense.Provider.Types.{AudioFormat, AudioChunk}
use agen_sense.Provider.Clients.{
  Callback, deliver, AsrClient, LlmClient, TtsClient, Transcribed, heard, unheard,
}
use agen_sense.Session.Types.{Action, Sink, PipelineRequest}
use agen_sense.Session.Pipeline

pub data SinkCall : Type 0 where
  asr_final llm_delta llm_done : String → SinkCall
  tts_start : String → AudioFormat → String → SinkCall
  tts_chunk : List ℕ → SinkCall
  tts_stop : String → SinkCall
  action : Action → SinkCall

abbrev pub call : (K : Sink) → Callback SinkCall K.State
call K (asr_final text) = K.on_asr_final text
call K (llm_delta text) = K.on_llm_delta text
call K (llm_done text) = K.on_llm_done text
call K (tts_start id format text) = K.on_tts_start id format text
call K (tts_chunk data_) = K.on_tts_chunk data_
call K (tts_stop id) = K.on_tts_stop id
call K (action a) = K.on_action a

-- Calls, and the error that comes after them, if any.
abbrev pub Script : Type 0
Script = List SinkCall × Option String

abbrev pub then_ : Script → Script → Script
then_ (calls, some e) b = (calls, some e)
then_ (calls, none) b = (calls ++ b.0, b.1)

-- The calls in their order, up to the first that fails.
abbrev pub play : (K : Sink) → Script → K.State → Option String × K.State
play K script s = deliver script.0 script.1 (call K) s

-- The reply of a builder.
abbrev pub gathered : String → List String → String
gathered reply [] = reply
gathered reply (text ∷ texts) = gathered (joined reply text) texts

unfoldable pub speech_script : TtsClient → PipelineRequest → String → ℕ → Script
speech_script tts req reply n =
    let stream_id = Pipeline.id_of "tts" (suc n) in
    let request = Pipeline.tts_request req reply in
    then_
      (
        tts_start stream_id (Pipeline.tts_format req.format) reply
            ∷ map (λ (c : AudioChunk). tts_chunk c.data_) (tts.chunks request),
        tts.ending request,
      )
      (tts_stop stream_id ∷ action (Pipeline.noop (suc (suc n))) ∷ [], none)

module _ (to_lower : String → String) where
  unfoldable pub chat_script : LlmClient → TtsClient → PipelineRequest → String → ℕ → Script
  chat_script llm tts req text n =
      let request = Pipeline.chat_request to_lower req text in
      let reply = Pipeline.reply_of (gathered "" (llm.deltas request)) in
      let speech = speech_script tts req reply n in
      then_ (map llm_delta (llm.deltas request), llm.ending request)
        (llm_done reply ∷ speech.0, speech.1)

  abbrev pub after_asr : LlmClient → TtsClient → PipelineRequest → ℕ → Transcribed → Script
  after_asr llm tts req n (unheard e) = ([], some e)
  after_asr llm tts req n (heard text) =
      let chat = chat_script llm tts req text n in (asr_final text ∷ chat.0, chat.1)

  unfoldable pub turn_script : AsrClient → LlmClient → TtsClient → PipelineRequest → ℕ → Script
  turn_script asr llm tts req n =
      after_asr llm tts req n (asr.transcribe (Pipeline.transcribe_request req))
