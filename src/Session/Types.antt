-- ===== src/Session/Types.antt =====
-- internal/session/pipeline.go: the types of a turn.
use agen_sense.Prelude.{ℕ, String, Option, List, Map}
use agen_sense.Provider.Types.{AudioFormat}
use agen_sense.Provider.Clients.{AsrClient, LlmClient, TtsClient}
use agen_sense.Trace.Types.{Floats}
use agen_sense.Trace.Store.{Store}

-- The payload of the one action that the pipeline makes has texts only.
pub record Action : Type 0 where
  pub action_id : String
  pub kind : String
  pub payload : Map String String

pub record Sink : Type 1 where
  pub State : Type 0
  pub on_asr_final : String → State → Option String × State
  pub on_llm_delta : String → State → Option String × State
  pub on_llm_done : String → State → Option String × State
  pub on_tts_start : String → AudioFormat → String → State → Option String × State
  pub on_tts_chunk : List ℕ → State → Option String × State
  pub on_tts_stop : String → State → Option String × State
  pub on_action : Action → State → Option String × State

pub record PipelineRequest : Type 0 where
  pub session_id : String
  pub device_id : String
  pub stream_id : String
  pub format : AudioFormat
  pub audio : List ℕ

-- What a pipeline calls; a nil provider is `none`.
pub record Pipeline : Type 1 where
  pub asr : Option AsrClient
  pub llm : Option LlmClient
  pub tts : Option TtsClient

-- What a turn changes: the store of traces, if there is one, the counter, and the sink.
pub record TurnState (F : Floats) (base : String → String) (K : Sink) : Type 0 where
  pub debug : Option (Store F base)
  pub id_counter : ℕ
  pub sink : K.State
