-- ===== src/Trace/Changes.antt =====
-- The methods of internal/debugtrace/store.go that write, as one type of calls.
use agen_sense.Prelude.{ℕ, ℤ, String, List, [], ◌∷◌}
use agen_sense.Provider.Types.{AudioFormat, ChatMessage}
use agen_sense.Trace.Audio.{Bytes}
use agen_sense.Trace.Types.{Floats, TraceMeta}
use agen_sense.Trace.Store.{Store, Change, start_trace, mutate}
use agen_sense.Trace.Handle

module _ (F : Floats) (base : String → String) where
  pub data Method : Type 0 where
    set_http_path : String → Method
    set_provider_profile_id : String → Method
    add_event : String → String → Method
    set_input_audio : AudioFormat → Bytes → Method
    start_segment : String → String → AudioFormat → ℤ → F.Float → Method
    complete_segment : String → AudioFormat → Bytes → ℤ → ℤ → F.Float → F.Float → Method
    set_segment_text : String → String → Method
    start_asr : AudioFormat → ℕ → Method
    complete_asr : String → Method
    start_llm : List ChatMessage → Method
    add_llm_delta : String → Method
    complete_llm : String → Method
    start_tts : String → AudioFormat → Method
    add_tts_chunk : Bytes → Method
    complete_tts : AudioFormat → Method
    finish : String → String → Method

  -- What a method does with the store's size limit and directory.
  unfoldable pub change : ℤ → String → Method → Change F base
  change max dir (set_http_path path) = Handle.set_http_path F base path
  change max dir (set_provider_profile_id profile_id) =
      Handle.set_provider_profile_id F base profile_id
  change max dir (add_event name detail) = Handle.add_event F base name detail
  change max dir (set_input_audio format audio) = Handle.set_input_audio F base max dir format audio
  change max dir (start_segment segment_id stream_id format start level) =
      Handle.start_segment F base segment_id stream_id format start level
  change max dir (complete_segment segment_id format audio start end level peak) =
      Handle.complete_segment F base max dir segment_id format audio start end level peak
  change max dir (set_segment_text segment_id text) = Handle.set_segment_text F base segment_id text
  change max dir (start_asr format audio_bytes) = Handle.start_asr F base format audio_bytes
  change max dir (complete_asr text) = Handle.complete_asr F base text
  change max dir (start_llm messages) = Handle.start_llm F base messages
  change max dir (add_llm_delta text) = Handle.add_llm_delta F base text
  change max dir (complete_llm text) = Handle.complete_llm F base text
  change max dir (start_tts text format) = Handle.start_tts F base text format
  change max dir (add_tts_chunk data_) = Handle.add_tts_chunk F base max data_
  change max dir (complete_tts format) = Handle.complete_tts F base max dir format
  change max dir (finish message status) = Handle.finish F base message status

  pub data Call : Type 0 where
    starts : String → String → TraceMeta → Call
    calls : String → Method → Call

  unfoldable pub after : Store F base → Call → Store F base
  unfolding change
  after s (starts kind source meta) = (start_trace F base kind source meta s).1
  after s (calls trace_id method) =
      mutate F base (change s.max_asset_size s.asset_dir method) trace_id s

  unfoldable pub after_all : Store F base → List Call → Store F base
  after_all s [] = s
  after_all s (c ∷ cs) = after_all (after s c) cs
