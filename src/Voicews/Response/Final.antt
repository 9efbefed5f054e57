-- ===== src/Voicews/Response/Final.antt =====
-- runFinalASR of internal/voicews/session.go: what becomes of the audio of an utterance. The log is
-- left out, and so is the error of a write.
use Prim.Native.String.{count}
use agen_sense.Prelude.{
  ℕ, ℤ, String, Bool, false, not, ◌&&◌, Option, none, some, List, [], ◌∷◌, ◌++◌, length, ltb,
  nat_beq, ◌==◌, string_eq, if◌then◌else◌, trim_space,
}
use agen_sense.Voicews.Values.{SessionConfig}
use agen_sense.Voicews.Echo.{
  Unicode, RecentSpeechEchoMatch, echo_min_runes, normalize_echo_text, recent_speech_snapshot,
  mostly_recent_speech_echo,
}
use agen_sense.Voicews.Memory.Context.{is_blank_asr_text}
use agen_sense.Voicews.State.{
  Levels, Session, event, asr_completed, segment_text, failed, completed, Output, response_done,
  asr_final, wrote_error, Handled, on_trace,
}
use agen_sense.Voicews.Response.{ResponseCreatePayload, handle_response_create}

abbrev pub same_trace : Option ℕ → Option ℕ → Bool
same_trace (some a) (some b) = nat_beq a b
same_trace _ _ = false

-- Whether mostlyRecentSpeechEcho found a match.
abbrev pub is_match : Option (RecentSpeechEchoMatch × Bool) → Bool
is_match none = false
is_match (some (m, b)) = b

module _ (L : Levels) (to_lower : String → String) (is_cjk_script : ℕ → Bool) (rfc3339 : ℤ → String)
    (u : Unicode) where
  unfoldable pub clear_turn_trace : Option ℕ → Session L → Session L
  clear_turn_trace trace s =
      if same_trace s.turn_trace trace then record s { turn_trace = none } else s

  -- The session after mostlyRecentSpeechEcho, whose snapshot forgets what is too old.
  unfoldable pub after_search : ℤ → String → Session L → Session L
  after_search now text s =
      if ltb (count (normalize_echo_text u text)) echo_min_runes
      then s
      else record s { recent_speech = recent_speech_snapshot now s.recent_speech }

  abbrev pub segment_outputs : Option ℕ → String → String → List (Output L)
  segment_outputs trace id text = if id == "" then [] else on_trace L trace (segment_text id text)

  abbrev pub blank_fallback : String
  blank_fallback =
      "Speech-like audio was detected, but ASR returned no stable transcript. Ask the user to repeat briefly."

  -- The end of runFinalASR, after handleResponseCreate.
  abbrev pub responded : Option ℕ → Handled L → Session L × List (Output L)
  responded trace (none, s, outs) = (s, outs)
  responded trace (some e, s, outs) = (
    clear_turn_trace trace s,
    outs
        ++ on_trace L trace failed
        ++ wrote_error "response_create_failed" ∷ response_done "failed" ∷ [],
  )

  -- From the write of asr.final on.
  unfoldable pub answer_final :
      SessionConfig → String → String → Option ℕ → Session L → Session L × List (Output L)
  answer_final cfg stream_id text trace s =
      let blank = is_blank_asr_text to_lower is_cjk_script rfc3339 text in
      let payload : ResponseCreatePayload = record {
        text = if blank then blank_fallback else text;
        response_language = cfg.response_language;
        voice_assistant = cfg.voice_assistant;
        ui_context = cfg.voice_assistant.ui_context;
        assistant_intent = cfg.voice_assistant.assistant_intent;
        metadata = cfg.voice_assistant.metadata;
      } in
      let (next, outs) = responded trace (handle_response_create L to_lower payload s) in
      let said = asr_final stream_id text ∷ [] in
      if not cfg.auto_respond then (s, said) else (
        next,
        said ++ (if blank then on_trace L trace (event "asr.blank_fallback") else []) ++ outs,
      )

  -- From a transcript on.
  unfoldable pub transcribed :
      ℤ → SessionConfig → String → String → Option ℕ → Session L → Session L × List (Output L)
  transcribed now cfg stream_id text trace s =
      let first =
        on_trace L trace (asr_completed text) ++ segment_outputs trace s.vad.last_segment_id text in
      let searched = if cfg.auto_respond then after_search now text s else s in
      let (next, outs) = answer_final cfg stream_id text trace searched in
      if cfg.auto_respond && is_match (mostly_recent_speech_echo u now text s.recent_speech)
      then (
        clear_turn_trace trace searched,
        first
            ++ on_trace L trace (event "echo.suppressed")
            ++ on_trace L trace (event "response.done")
            ++ on_trace L trace completed
            ++ response_done "echo_suppressed" ∷ [],
      )
      else (next, first ++ outs)

  abbrev pub after_asr :
      Option String
      → ℤ
      → SessionConfig
      → String
      → Option ℕ
      → Session L
      → Session L × List (Output L)
  after_asr none now cfg stream_id trace s =
      (clear_turn_trace trace s, wrote_error "asr_failed" ∷ on_trace L trace failed)
  after_asr (some raw) now cfg stream_id trace s =
      transcribed now cfg stream_id (trim_space raw) trace s

  unfoldable pub run_final_asr :
      Option String
      → ℤ
      → SessionConfig
      → String
      → List ℕ
      → Option ℕ
      → Session L
      → Session L × List (Output L)
  run_final_asr answer now cfg stream_id audio trace s =
      if nat_beq (length audio) 0
      then (clear_turn_trace trace s, wrote_error "empty_audio" ∷ on_trace L trace failed)
      else after_asr answer now cfg stream_id trace s

  -- What runRealtimeTTS does with a text before it is synthesized.
  unfoldable pub speak_segment : ℤ → String → Session L → Session L
  speak_segment now segment s = record s {
    recent_speech = agen_sense.Voicews.Echo.remember_recent_speech u now segment s.recent_speech;
  }
