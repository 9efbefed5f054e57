-- ===== src/Voicews/Update.antt =====
-- session.update of internal/voicews/session.go: handleSessionUpdate with parseFormat and intValue. The
-- registry of provider profiles and the factory of clients are parameters: whether they know a
-- profile, and whether they build a client for it. `parse_format` has the entries of the input's
-- format, if there is one.
pub mod Laws
use Prim.Native.String.{◌++◌ as join}
use agen_sense.Prelude.{
  ℕ, ℤ, pos, String, Bool, true, false, not, ◌&&◌, Option, none, some, List, [], ◌∷◌, is_positive,
  ◌==◌, string_eq, if◌then◌else◌, trim_space, print_int,
}
use agen_sense.Provider.Types.{AudioFormat}
use agen_sense.Voicews.Values.{
  Any, number, text, Entries, value_at, VoiceAssistantIntent, VoiceAssistantMetadata, SessionConfig,
}
use agen_sense.Voicews.State.{Levels, Session, Failure, because}
use agen_sense.Voicews.Response.{
  is_empty, merge_voice_assistant_metadata, resolve_response_language,
}

abbrev pub text_or_empty : Option Any → String
text_or_empty (some (text s)) = s
text_or_empty _ = ""

-- intValue
abbrev pub int_value : Option Any → ℤ → ℤ
int_value (some (number value positive)) fallback = value
int_value _ fallback = fallback

unfoldable pub positive_or_default : ℤ → ℤ → ℤ
positive_or_default value fallback = if is_positive value then value else fallback

unfoldable pub codec_or_default : String → String
codec_or_default codec = if codec == "" then "pcm_s16le" else codec

unfoldable pub parse_format : Entries → AudioFormat → AudioFormat
parse_format input fallback =
    let codec = text_or_empty (value_at "codec" input) in
    record {
      codec = codec_or_default (if trim_space codec == "" then fallback.codec else codec);
      sample_rate_hz =
          positive_or_default (int_value (value_at "sample_rate_hz" input) fallback.sample_rate_hz)
            (pos 16000);
      channels =
          positive_or_default (int_value (value_at "channels" input) fallback.channels) (pos 1);
    }

pub record SessionUpdatePayload : Type 0 where
  pub client_id : String
  pub device_label : String
  pub session_id : String
  pub provider_profile_id : String
  pub response_language : String
  pub auto_respond : Bool
  pub format : Option Entries
  pub voice_assistant : Option VoiceAssistantMetadata
  pub ui_context : Entries
  pub assistant_intent : Option VoiceAssistantIntent
  pub metadata : Entries

-- A profile of the registry: its id and its language model, and what the factory builds for it.
pub record Profile : Type 0 where
  pub id : String
  pub llm_model : String
  pub builds_asr : Bool
  pub builds_llm : Bool
  pub builds_tts : Bool

-- `if strings.TrimSpace(x) != "" { old = strings.TrimSpace(x) }`
abbrev pub trimmed_or : String → String → String
trimmed_or old new = if trim_space new == "" then old else trim_space new

abbrev pub format_or : AudioFormat → Option Entries → AudioFormat
format_or old none = old
format_or old (some input) = parse_format input old

abbrev pub assistant_or :
    VoiceAssistantMetadata → Option VoiceAssistantMetadata → VoiceAssistantMetadata
assistant_or old none = old
assistant_or old (some new) = if is_empty new then old else new

module _ (L : Levels) (to_lower : String → String) (resolve : String → Option Profile) where
  -- The configuration before the profile is known. `unix_nano` is a reading of the clock.
  unfoldable pub updated_config : ℤ → SessionUpdatePayload → SessionConfig → SessionConfig
  updated_config unix_nano input old =
      let client_id = trimmed_or old.client_id input.client_id in
      let session_id = trimmed_or old.session_id input.session_id in
      let voice_assistant =
        merge_voice_assistant_metadata (assistant_or old.voice_assistant input.voice_assistant)
          input.ui_context input.assistant_intent input.metadata in
      record {
        client_id = if client_id == "" then "agendash-voice" else client_id;
        device_label = trimmed_or old.device_label input.device_label;
        session_id = if session_id == "" then join "voice-" (print_int unix_nano) else session_id;
        provider_profile_id = old.provider_profile_id;
        llm_model = old.llm_model;
        response_language =
            resolve_response_language to_lower old.response_language input.response_language
              input.metadata voice_assistant.metadata;
        auto_respond = input.auto_respond;
        format = format_or old.format input.format;
        voice_assistant = voice_assistant;
      }

  -- The error, if any, the session after it, and the configuration of the session.ready that is
  -- handed to the connection.
  abbrev pub Updated : Type 0
  Updated = Option (Failure L) × Session L × Option SessionConfig

  -- `wrote` is the error, if any, of the write of session.ready, by which the handler ends.
  abbrev pub configured : Option (Failure L) → SessionConfig → Option Profile → Session L → Updated
  configured wrote cfg none s = (some (because "provider profile"), s, none)
  configured wrote cfg (some profile) s =
      let next : SessionConfig = record cfg {
        provider_profile_id = profile.id;
        llm_model = trim_space profile.llm_model;
      } in
      if not profile.builds_asr
      then (some (because "asr client"), s, none)
      else if not profile.builds_llm
      then (some (because "llm client"), s, none)
      else if not profile.builds_tts
      then (some (because "tts client"), s, none)
      else (
        wrote,
        record s { cfg = next; has_asr = true; has_llm = true; has_tts = true },
        some next,
      )

  unfoldable pub handle_session_update :
      ℤ → Option (Failure L) → SessionUpdatePayload → Session L → Updated
  handle_session_update unix_nano wrote input s =
      configured wrote (updated_config unix_nano input s.cfg)
        (resolve (trim_space input.provider_profile_id)) s
