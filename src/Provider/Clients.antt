-- ===== src/Provider/Clients.antt =====
-- The interfaces of internal/provider/types.go, with what a client relies on: a stream is given to
-- the callback item by item, in its order, and ends with the first error of the callback. An error
-- is its text.
use agen_sense.Prelude.{String, Option, none, some, List, [], ◌∷◌, ◌≡◌}
use agen_sense.Provider.Types.{TranscribeRequest, ChatRequest, TtsRequest, AudioChunk}

-- A call back: an error, if any, and the state after it.
abbrev pub Callback : Type 0 → Type 0 → Type 0
Callback A S = A → S → Option String × S

-- A first part, and what follows when it does not fail.
abbrev pub next : {S : Type 0} → Option String × S → (S → Option String × S) → Option String × S
next (some e, s) f = (some e, s)
next (none, s) f = f s

abbrev pub deliver : {A S : Type 0} → List A → Option String → Callback A S → S → Option String × S
deliver [] ending cb s = (ending, s)
deliver (x ∷ xs) ending cb s = next (cb x s) (deliver xs ending cb)

pub data Transcribed : Type 0 where
  heard : String → Transcribed
  unheard : String → Transcribed

pub record AsrClient : Type 0 where
  pub transcribe : TranscribeRequest → Transcribed

pub record LlmClient : Type 1 where
  pub chat_stream : {S : Type 0} → ChatRequest → Callback String S → S → Option String × S
  pub deltas : ChatRequest → List String
  pub ending : ChatRequest → Option String
  pub chat_stream-deliver :
      {S : Type 0} (req : ChatRequest) (cb : Callback String S) (s : S)
      → chat_stream req cb s ≡ deliver (deltas req) (ending req) cb s

pub record TtsClient : Type 1 where
  pub synthesize_stream : {S : Type 0} → TtsRequest → Callback AudioChunk S → S → Option String × S
  pub chunks : TtsRequest → List AudioChunk
  pub ending : TtsRequest → Option String
  pub synthesize_stream-deliver :
      {S : Type 0} (req : TtsRequest) (cb : Callback AudioChunk S) (s : S)
      → synthesize_stream req cb s ≡ deliver (chunks req) (ending req) cb s
