-- ===== src/Trace/Handle/Stages.antt =====
-- internal/debugtrace/store.go: the stages of a turn and the end of a trace.
use agen_sense.Prelude.{
  ℕ, suc, ◌+◌, ℤ, pos, String, Bool, true, false, not, ◌&&◌, ◌||◌, none, some, List, [], ◌∷◌, ◌++◌,
  length, ltb, nat_beq, ◌==◌, string_eq, int_eq, if◌then◌else◌, utf8,
}
use Prim.Native.String.{◌++◌ as joined}
use agen_sense.Device.Model.{Time, zero_time}
use agen_sense.Provider.Types.{AudioFormat, ChatMessage}
use agen_sense.Trace.Audio.{Bytes, append_limited, encode_audio_asset}
use agen_sense.Trace.Types.{
  Floats, AsrStage, LlmStage, TtsStage, no_asr, no_llm, no_tts, TraceRecord,
}
use agen_sense.Trace.Store.{ms_between, Change}
use agen_sense.Trace.Handle.Events.{preview_text, elapsed, with_event, on_record, persisted}

abbrev pub max_stored_deltas : ℕ
max_stored_deltas = 2048

module _ (F : Floats) (base : String → String) where
  abbrev ensure_asr : TraceRecord F → AsrStage
  ensure_asr r = elim r.trace.asr [ none ↦ no_asr | some stage ↦ stage ]

  abbrev pub ensure_llm : TraceRecord F → LlmStage
  ensure_llm r = elim r.trace.llm [ none ↦ no_llm | some stage ↦ stage ]

  abbrev pub ensure_tts : TraceRecord F → TtsStage
  ensure_tts r = elim r.trace.tts [ none ↦ no_tts | some stage ↦ stage ]

  abbrev with_asr : AsrStage → TraceRecord F → TraceRecord F
  with_asr stage r = record r { trace = record r.trace { asr = some stage } }

  abbrev pub with_llm : LlmStage → TraceRecord F → TraceRecord F
  with_llm stage r = record r { trace = record r.trace { llm = some stage } }

  abbrev pub with_tts : TtsStage → TraceRecord F → TraceRecord F
  with_tts stage r = record r { trace = record r.trace { tts = some stage } }

  unfoldable pub start_asr : AudioFormat → ℕ → Change F base
  start_asr format audio_bytes = on_record F base λ now r.
      let stage = ensure_asr r in
      with_event F base "asr.started" [] now
        (with_asr (record stage { started_at = now; audio_bytes = audio_bytes; format = format }) r)

  unfoldable pub complete_asr : String → Change F base
  complete_asr text = on_record F base λ now r.
      let stage = ensure_asr r in
      with_event F base "asr.completed" (preview_text text 96) now (
        with_asr
          (record stage {
            completed_at = now;
            duration_ms = elapsed stage.started_at now stage.duration_ms;
            text = text;
          })
          r)

  unfoldable pub start_llm : List ChatMessage → Change F base
  start_llm messages = on_record F base λ now r.
      let stage = ensure_llm r in
      with_event F base "llm.started" [] now (
        with_llm
          (record stage {
            started_at = now;
            messages = messages;
            message_count = length messages;
            deltas = [];
            deltas_truncated = false;
            delta_count = 0;
            delta_chars = 0;
            first_delta_ms = pos 0;
            response_text = "";
          })
          r)

  abbrev pub is_first : ℕ → Time → Bool
  is_first count started_at = nat_beq count 0 && not (started_at == zero_time)

  unfoldable pub add_llm_delta : String → Change F base
  add_llm_delta text = on_record F base λ now r.
      let stage = ensure_llm r in
      let first = is_first stage.delta_count stage.started_at in
      let room = ltb (length stage.deltas) max_stored_deltas in
      let r' =
        if first then with_event F base "llm.first_delta" (preview_text text 64) now r else r in
      with_llm
        (record stage {
          first_delta_ms = if first then ms_between stage.started_at now else stage.first_delta_ms;
          delta_count = suc stage.delta_count;
          delta_chars = stage.delta_chars + length (utf8 text);
          deltas = if room then stage.deltas ++ (text ∷ []) else stage.deltas;
          deltas_truncated = if room then stage.deltas_truncated else true;
          response_text = joined stage.response_text text;
        })
        r'

  unfoldable pub complete_llm : String → Change F base
  complete_llm text = on_record F base λ now r.
      let stage = ensure_llm r in
      let response = if text == "" then stage.response_text else text in
      with_event F base "llm.completed" (preview_text response 96) now (
        with_llm
          (record stage {
            completed_at = now;
            duration_ms = elapsed stage.started_at now stage.duration_ms;
            response_text = response;
          })
          r)

  unfoldable pub start_tts : String → AudioFormat → Change F base
  start_tts text format = on_record F base λ now r.
      let stage = ensure_tts r in
      with_event F base "tts.started" (preview_text text 96) now
        (record (with_tts
          (record stage {
            started_at = now;
            text = text;
            format = format;
            chunk_count = 0;
            audio_bytes = 0;
            first_chunk_ms = pos 0;
            audio = none;
          })
          r) { tts_raw = []; tts_raw_truncated = false; tts_audio_data = []; tts_audio_mime = "" })

  unfoldable pub add_tts_chunk : ℤ → Bytes → Change F base
  add_tts_chunk max data_ = on_record F base λ now r.
      let stage = ensure_tts r in
      let first = is_first stage.chunk_count stage.started_at in
      let (raw, truncated) = append_limited r.tts_raw data_ max in
      let r' = if first then with_event F base "tts.first_chunk" [] now r else r in
      record (with_tts
        (record stage {
          first_chunk_ms = if first then ms_between stage.started_at now else stage.first_chunk_ms;
          chunk_count = suc stage.chunk_count;
          audio_bytes = stage.audio_bytes + length data_;
        })
        r') { tts_raw = raw; tts_raw_truncated = truncated }

  unfoldable pub complete_tts : ℤ → String → AudioFormat → Change F base
  complete_tts max asset_dir format now (r, d) =
      let stage = ensure_tts r in
      let (data_, mime, extra) = encode_audio_asset format r.tts_raw max in
      let r' : TraceRecord F =
        record (with_tts
          (record stage {
            completed_at = now;
            duration_ms = elapsed stage.started_at now stage.duration_ms;
            format = format;
            audio = some (record {
              mime = mime;
              bytes = length data_;
              truncated = r.tts_raw_truncated || extra;
            });
          })
          r) { tts_audio_data = data_; tts_audio_mime = mime } in
      persisted F base asset_dir "tts.wav" data_ "tts.completed" [] now (r', d)

  -- Complete and Fail.
  unfoldable pub finish : String → String → Change F base
  finish message status = on_record F base λ now r.
      with_event F base (if status == "error" then "trace.failed" else "trace.completed")
        (preview_text message 96) now
        (record r {
          trace = record r.trace {
            status = status;
            error = message;
            completed_at = now;
            total_duration_ms = ms_between r.trace.started_at now;
          };
        })
