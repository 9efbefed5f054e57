-- ===== src/Tests/Conversation.antt =====
-- The conversation memory and the MCP proposals of internal/voicews/session.go at small inputs.
use agen_sense.Prelude.{
  ℕ, ℤ, pos, pos_part, arith, ◌≤◌, ◌+◌, ◌*◌, ◌/◌, String, Bool, true, false, none, some, List, [],
  ◌∷◌, ◌++◌, length, lookup, string_eq, ◌⊎◌, ◌≡◌, refl, trim_space, trim_left, trim_right, is_space,
  ◌==◌,
}
use agen_sense.Provider.Types.{ChatMessage}
use agen_sense.Voicelang.{one_of}
use agen_sense.Voicews.Values.{
  number, text, items, item, no_items, Entries, no_entries, entry, value_at, VoiceAssistantMetadata,
  SessionConfig,
}
use agen_sense.Voicews.Memory.{ConversationTurn, ConversationMemory, estimate_messages_tokens}
use agen_sense.Voicews.Echo
use agen_sense.Voicews.Memory
use agen_sense.Voicews.Memory.Options
use agen_sense.Voicews.Memory.Options.{
  conversation_options_from_config, conversation_options_from_config_bounds,
}
use agen_sense.Voicews.Memory.Compression.{IsSmall}
use agen_sense.Voicews.Memory.Context.{
  options_of, conversation_memory_key, is_blank_asr_text, cut_left, cut_right, in_cutset,
  remember_conversation_turn, conversation_context_messages,
}
use agen_sense.Voicews.Memory.Store.{join_with}
use agen_sense.Voicews.Memory.Remembered.{remember_conversation_turn_lem}
use agen_sense.Voicews.Memory.Budget.{IsInRange, conversation_context_messages_lem}
use agen_sense.Voicews.Mcp.{
  append_mcp_tool, append_mcp_tools, append_source, mcp_tools_from_voice_assistant, Planner,
}
use agen_sense.Voicews.Mcp.Proposals.{has_no, Proposal, propose_mcp_call}
use agen_sense.Voicews.Mcp.Laws.{IsOffered, propose_mcp_call-IsOffered}

abbrev same_text : String → String
same_text s = s

abbrev no_script : ℕ → Bool
no_script c = false

abbrev no_time : ℤ → String
no_time t = ""

abbrev offering : Entries
offering =
    entry "mcp_tools" (items (item (text "create_note") no_items))
      (entry "target_context_percent" (number (pos 97) true) no_entries)

abbrev client : VoiceAssistantMetadata
client = record {
  contract = "";
  ui_context = no_entries;
  assistant_intent = none;
  metadata = offering;
}

abbrev config : SessionConfig
config = record {
  client_id = "c";
  device_label = "";
  session_id = "s";
  provider_profile_id = "p";
  llm_model = "tiny-4k";
  response_language = "";
  auto_respond = true;
  format = record { codec = "pcm_s16le"; sample_rate_hz = pos 16000; channels = pos 1 };
  voice_assistant = client;
}

conversation_options_from_config_bounds_example :
    let o = conversation_options_from_config same_text "tiny-4k" offering no_entries in
    (2048 ≤ o.context_limit_tokens)
    × (20 ≤ o.target_percent)
    × (o.target_percent ≤ 95)
    × (o.target_percent ≤ o.compress_percent)
    × (o.compress_percent ≤ 98)
    × (1 ≤ o.recent_turn_limit)
    × (o.recent_turn_limit ≤ 32)
    × (400 ≤ o.summary_rune_limit)
    × (o.summary_rune_limit ≤ 12000)
conversation_options_from_config_bounds_example =
    conversation_options_from_config_bounds same_text "tiny-4k" offering no_entries

abbrev said : ConversationTurn
said = record { user_text = "hi"; assistant_text = "yo"; at = pos 7 }

not_blank : is_blank_asr_text same_text no_script no_time "hi" ≡ false
unfolding is_blank_asr_text cut_left cut_right in_cutset one_of trim_space
not_blank = refl

named : (conversation_memory_key "key" config == "") ≡ false
unfolding conversation_memory_key join_with trim_space
named = refl

remember_conversation_turn_lem_example :
    let opts = options_of same_text no_script no_time config in
    (mem : ConversationMemory) × (earlier : List ConversationTurn) × (lookup
        (conversation_memory_key "key" config)
        (remember_conversation_turn same_text no_script no_time "key" config (pos 7) "hi" "yo" [])
      ≡ some mem)
    × (mem.turns ≡ earlier ++ said ∷ [])
    × (mem.last_interaction ≡ pos 7)
    × (length mem.turns ≤ opts.recent_turn_limit)
    × IsSmall no_script no_time opts mem.summary mem.turns
unfolding trim_space
remember_conversation_turn_lem_example =
    remember_conversation_turn_lem same_text no_script no_time "key" config (pos 7) "hi" "yo" []
      refl refl not_blank named

abbrev prompt : List ChatMessage
prompt = record { role = "system"; content = "Be brief." } ∷ []

in_range :
    IsInRange same_text no_script no_time
      (options_of same_text no_script no_time config)
      prompt
      "and now?"
unfolding conversation_options_from_config Options.with_floors Options.source_options
    Options.scoped_options Options.positive_int_value value_at Options.map_value
    Options.infer_model_context_limit_tokens trim_space trim_left trim_right is_space Echo.contains
    Echo.runes Echo.starts_with Options.clamp_int estimate_messages_tokens
    Memory.estimate_message_tokens Memory.estimate_tokens Memory.token_runes Memory.ascii_runes
    Memory.is_token
in_range = (refl, omega arith, omega arith)

conversation_context_messages_lem_example :
    let opts = options_of same_text no_script no_time config in
    let ((out, stats), after) =
      conversation_context_messages same_text no_script no_time "key" config
        (pos 9)
        prompt
        "and now?"
        [] in
    let chat = prompt ++ out ++ record { role = "user"; content = "and now?" } ∷ [] in
    (estimate_messages_tokens no_script out ≡ stats.included_tokens)
    × ((out ≡ [])
        ⊎ (estimate_messages_tokens no_script chat + pos_part opts.output_reserve_tokens
            ≤ opts.context_limit_tokens * opts.target_percent / 100))
conversation_context_messages_lem_example =
    conversation_context_messages_lem same_text no_script no_time "key" config (pos 9) prompt
      "and now?" [] in_range

-- A model whose answers are never JSON.
abbrev planner : Planner
planner = record { to_lower = same_text; unmarshal = λ s. none; error_text = "" }

abbrev heard_nothing : String → Bool
heard_nothing s = false

offers_a_tool : has_no (mcp_tools_from_voice_assistant client) ≡ false
unfolding mcp_tools_from_voice_assistant append_source append_mcp_tools append_mcp_tool value_at
    trim_space one_of
offers_a_tool = refl

propose_mcp_call-IsOffered_example :
    (p : Proposal planner heard_nothing) × (propose_mcp_call planner heard_nothing
        (some "note it")
        1
        "buy milk"
        client
      ≡ some p)
    × IsOffered planner heard_nothing (mcp_tools_from_voice_assistant client) p
unfolding trim_space
propose_mcp_call-IsOffered_example =
    propose_mcp_call-IsOffered planner heard_nothing (some "note it") 1 "buy milk" client refl refl
      offers_a_tool
