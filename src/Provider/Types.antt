-- ===== src/Provider/Types.antt =====
-- internal/provider/types.go: what a voice turn gives to its providers and takes from them.
use agen_sense.Prelude.{ℕ, ℤ, String, List}

pub record AudioFormat : Type 0 where
  pub codec : String
  pub sample_rate_hz : ℤ
  pub channels : ℤ

pub record ChatMessage : Type 0 where
  pub role : String
  pub content : String

pub record TranscribeRequest : Type 0 where
  pub device_id : String
  pub session_id : String
  pub format : AudioFormat
  pub audio : List ℕ

pub record ChatRequest : Type 0 where
  pub device_id : String
  pub session_id : String
  pub messages : List ChatMessage

pub record TtsRequest : Type 0 where
  pub device_id : String
  pub session_id : String
  pub text : String
  pub format : AudioFormat

pub record AudioChunk : Type 0 where
  pub data_ : List ℕ
  pub format : AudioFormat
