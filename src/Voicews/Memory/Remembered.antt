-- ===== src/Voicews/Memory/Remembered.antt =====
-- What rememberConversationTurn leaves in the memory of its session.
use agen_sense.Prelude.{
  ℕ, ℤ, ◌≤◌, String, Bool, false, some, List, [], ◌∷◌, ◌++◌, length, lookup, ◌==◌, string_eq,
  trim_space, ◌≡◌,
}
use agen_sense.Voicews.Values.{SessionConfig}
use agen_sense.Voicews.Memory.{ConversationTurn, ConversationMemory}
use agen_sense.Voicews.Memory.Options.{conversation_options_from_config_bounds}
use agen_sense.Voicews.Memory.Store.{Sessions}
use agen_sense.Voicews.Memory.Compression.{IsSmall, append_lem}
use agen_sense.Voicews.Memory.Context.{
  options_of, conversation_memory_key, is_blank_asr_text, remember_conversation_turn,
}

-- A turn with words on both sides, of a session with an id, is the last of the memory of its key,
-- whatever was there and whatever the metadata configures. That memory holds no more turns than the
-- configured limit, and is one turn or within the threshold of compression.
pub remember_conversation_turn_lem :
    (to_lower : String → String) (is_cjk_script : ℕ → Bool) (rfc3339 : ℤ → String)
    (api_key : String) (cfg : SessionConfig) (now : ℤ) (user assistant : String)
    (sessions : Sessions is_cjk_script rfc3339)
    → (trim_space user == "") ≡ false
    → (trim_space assistant == "") ≡ false
    → is_blank_asr_text to_lower is_cjk_script rfc3339 (trim_space user) ≡ false
    → (conversation_memory_key api_key cfg == "") ≡ false
    → let opts = options_of to_lower is_cjk_script rfc3339 cfg in
      let turn : ConversationTurn = record {
        user_text = trim_space user;
        assistant_text = trim_space assistant;
        at = now;
      } in
      (mem : ConversationMemory) × (earlier : List ConversationTurn) × (lookup
          (conversation_memory_key api_key cfg)
          (remember_conversation_turn to_lower is_cjk_script rfc3339 api_key cfg now user assistant
            sessions)
        ≡ some mem)
      × (mem.turns ≡ earlier ++ turn ∷ [])
      × (mem.last_interaction ≡ now)
      × (length mem.turns ≤ opts.recent_turn_limit)
      × IsSmall is_cjk_script rfc3339 opts mem.summary mem.turns
unfolding remember_conversation_turn
remember_conversation_turn_lem to_lower is_cjk_script rfc3339 api_key cfg now user assistant
      sessions a b c d =
    let opts = options_of to_lower is_cjk_script rfc3339 cfg in
    let bounds =
      conversation_options_from_config_bounds to_lower cfg.llm_model cfg.voice_assistant.metadata
        cfg.voice_assistant.ui_context in
    rw (a, b, c, d)
      (append_lem is_cjk_script rfc3339 opts (conversation_memory_key api_key cfg)
        (record { user_text = trim_space user; assistant_text = trim_space assistant; at = now })
        sessions bounds.5)
