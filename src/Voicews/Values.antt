-- ===== src/Voicews/Values.antt =====
-- Values of type any that JSON gives, and the configuration of a voice session of
-- internal/voicews/session.go with its metadata of internal/service/provider_api.go. A number is what
-- `int` makes of it and whether it is above 0; a bool, a nil and a confidence are not read.
use agen_sense.Prelude.{ℤ, String, Bool, Option, none, some, ◌==◌, string_eq, if◌then◌else◌}
use agen_sense.Provider.Types.{AudioFormat}

mutual
  pub data Any : Type 0 where
    number : ℤ → Bool → Any
    text : String → Any
    items : Items → Any
    mapping : Entries → Any
    other : Any

  pub data Items : Type 0 where
    no_items : Items
    item : Any → Items → Items

  pub data Entries : Type 0 where
    no_entries : Entries
    entry : String → Any → Entries → Entries

unfoldable pub value_at : String → Entries → Option Any
value_at key no_entries = none
value_at key (entry k v rest) = let later = value_at key rest in if k == key then some v else later

pub record VoiceAssistantIntent : Type 0 where
  pub scope : String
  pub target_id : String
  pub action : String
  pub args : Entries
  pub requires_confirmation : Bool
  pub ui_surface : String
  pub label : String
  pub reason : String

pub record VoiceAssistantMetadata : Type 0 where
  pub contract : String
  pub ui_context : Entries
  pub assistant_intent : Option VoiceAssistantIntent
  pub metadata : Entries

pub record SessionConfig : Type 0 where
  pub client_id : String
  pub device_label : String
  pub session_id : String
  pub provider_profile_id : String
  pub llm_model : String
  pub response_language : String
  pub auto_respond : Bool
  pub format : AudioFormat
  pub voice_assistant : VoiceAssistantMetadata
