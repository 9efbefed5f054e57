-- ===== src/Voicews/Response.antt =====
-- How a voice session of internal/voicews/session.go comes to answer: resolveResponseLanguage,
-- handleResponseCreate, runFinalASR, the cancels of a response and the window of the playback's echo,
-- with MergeVoiceAssistantMetadata of internal/service/provider_api.go. strings.ToLower, and what the
-- transcription returns, `none` for an error, are arguments.
pub mod Final
pub mod Echoes
use agen_sense.Prelude.{
  ℕ, ℤ, pos, suc, ◌+ℤ◌, ltb_ℤ, is_positive, String, Bool, true, false, not, ◌&&◌, ◌||◌, Option,
  none, some, List, [], ◌∷◌, ◌++◌, length, nat_beq, Map, ◌==◌, string_eq, if◌then◌else◌, trim_space,
  is_some,
}
use agen_sense.Provider.Types.{AudioFormat}
use agen_sense.Voicelang
use agen_sense.Voicews.Values.{
  Any, number, text, items, mapping, other, Entries, no_entries, entry, VoiceAssistantIntent,
  VoiceAssistantMetadata, SessionConfig,
}
use agen_sense.Voicews.Echo.{
  Unicode, RecentSpeechEchoMatch, recent_speech_snapshot, remember_recent_speech,
  mostly_recent_speech_echo,
}
use agen_sense.Voicews.Memory.Context.{is_blank_asr_text}
use agen_sense.Voicews.State.{
  Levels, format_byte_duration, Session, TraceCall, event, asr_completed, segment_text, failed,
  completed, Output, response_done, asr_final, wrote_error, respond, Failure, because, Handled,
  on_trace,
}
use agen_sense.Voicews.Input.{cancel_response}

abbrev pub has_entries : Entries → Bool
has_entries no_entries = false
has_entries (entry k v rest) = true

-- Empty
unfoldable pub is_empty : VoiceAssistantMetadata → Bool
is_empty m =
    m.contract == ""
    && not (has_entries m.ui_context)
    && not (is_some m.assistant_intent)
    && not (has_entries m.metadata)

abbrev pub or_else :
    Option VoiceAssistantIntent → Option VoiceAssistantIntent → Option VoiceAssistantIntent
or_else none old = old
or_else (some intent) old = some intent

unfoldable pub merge_voice_assistant_metadata :
    VoiceAssistantMetadata
    → Entries
    → Option VoiceAssistantIntent
    → Entries
    → VoiceAssistantMetadata
merge_voice_assistant_metadata base ui_context intent metadata =
    let out : VoiceAssistantMetadata = record base {
      ui_context = if has_entries ui_context then ui_context else base.ui_context;
      assistant_intent = or_else intent base.assistant_intent;
      metadata = if has_entries metadata then metadata else base.metadata;
    } in
    if out.contract == "" && not (is_empty out)
    then record out { contract = "universal_voice_layer_v1" }
    else out

abbrev language_value : Any → agen_sense.Voicelang.Value
language_value (text s) = agen_sense.Voicelang.text s
language_value _ = agen_sense.Voicelang.other

-- The metadata as internal/voicelang reads it.
unfoldable pub language_values : Entries → Map String agen_sense.Voicelang.Value
language_values no_entries = []
language_values (entry k v rest) = (k, language_value v) ∷ language_values rest

unfoldable pub resolve_response_language :
    (String → String) → String → String → Entries → Entries → String
resolve_response_language to_lower current explicit metadata voice_metadata =
    let first = agen_sense.Voicelang.from_metadata to_lower (language_values metadata) in
    let second = agen_sense.Voicelang.from_metadata to_lower (language_values voice_metadata) in
    if not (trim_space explicit == "")
    then agen_sense.Voicelang.normalize to_lower explicit
    else if not (first == agen_sense.Voicelang.auto)
    then first
    else if not (second == agen_sense.Voicelang.auto)
    then second
    else if not (trim_space current == "")
    then agen_sense.Voicelang.normalize to_lower current
    else agen_sense.Voicelang.auto

pub record ResponseCreatePayload : Type 0 where
  pub text : String
  pub response_language : String
  pub voice_assistant : VoiceAssistantMetadata
  pub ui_context : Entries
  pub assistant_intent : Option VoiceAssistantIntent
  pub metadata : Entries

abbrev pub with_defaults : AudioFormat → AudioFormat
with_defaults f = record {
  codec = if f.codec == "" then "pcm_s16le" else f.codec;
  sample_rate_hz = if is_positive f.sample_rate_hz then f.sample_rate_hz else pos 16000;
  channels = if is_positive f.channels then f.channels else pos 1;
}

module _ (L : Levels) (to_lower : String → String) where
  -- clearResponse
  unfoldable pub clear_response : Session L → Session L
  clear_response s = record s { response_cancel = none; response_active = false }

  -- completeOpenTraceWithResponseDone
  unfoldable pub complete_open_trace_with_response_done :
      String → Session L → Session L × List (Output L)
  complete_open_trace_with_response_done status s = (
    record s { turn_trace = none },
    on_trace L s.turn_trace (event "response.done") ++ on_trace L s.turn_trace completed,
  )

  -- The case of response.cancel in handleEvent.
  unfoldable pub handle_response_cancel : Session L → Session L × List (Output L)
  handle_response_cancel s =
      let (active, s1, first) = cancel_response L s in
      let (s2, more) = complete_open_trace_with_response_done "cancelled" s1 in
      if active
      then (s1, first ++ response_done "cancelled" ∷ [])
      else (s2, first ++ more ++ response_done "cancelled" ∷ [])

  unfoldable pub handle_response_create : ResponseCreatePayload → Session L → Handled L
  handle_response_create payload s =
      let words = trim_space payload.text in
      let (was_active, s1, first) = cancel_response L s in
      let base =
        if is_empty payload.voice_assistant
        then s1.cfg.voice_assistant
        else payload.voice_assistant in
      let voice_assistant =
        merge_voice_assistant_metadata base payload.ui_context payload.assistant_intent
          payload.metadata in
      let language =
        resolve_response_language to_lower s1.cfg.response_language payload.response_language
          payload.metadata voice_assistant.metadata in
      let cfg : SessionConfig = record s1.cfg { response_language = language } in
      if words == ""
      then (some (because "response.create.payload.text is required"), s, [])
      else if not s1.has_llm || not s1.has_tts
      then (some (because "voice session is not configured"), s1, first)
      else (
        none,
        record s1 { response_cancel = some s1.fresh; response_active = true; fresh = suc s1.fresh },
        first ++ respond cfg (with_defaults s1.cfg.format) words voice_assistant s1.turn_trace ∷ [],
      )

  -- playbackEchoGuardDuration
  unfoldable pub playback_echo_guard_duration : AudioFormat → ℕ → ℤ
  playback_echo_guard_duration format audio_bytes =
      let playback = format_byte_duration L format audio_bytes in
      if not (is_positive playback)
      then pos 0
      else (if ltb_ℤ playback (pos 2000000000) then pos 2000000000 else playback) +ℤ pos 1500000000

  -- extendPlaybackEchoWindow: the end of the window that is returned, and the session after it.
  unfoldable pub extend_playback_echo_window : ℤ → AudioFormat → ℕ → Session L → ℤ × Session L
  extend_playback_echo_window now format audio_bytes s =
      let duration = playback_echo_guard_duration format audio_bytes in
      let until = now +ℤ duration in
      let end = if ltb_ℤ s.playback_echo_until until then until else s.playback_echo_until in
      if not (is_positive duration)
      then (pos 0, s)
      else (end, record s { playback_echo_until = end })
