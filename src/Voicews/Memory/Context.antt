-- ===== src/Voicews/Memory/Context.antt =====
-- The voice session's use of the conversation memory in internal/voicews/session.go: its keys,
-- rememberConversationTurn and conversationContextMessages. strings.ToLower is a parameter, and of
-- the statistics the numbers are kept that a bound is about.
use Prim.Native.String.{◌++◌ as join}
use agen_sense.Prelude.{
  ℕ, ℤ, pos, suc, ◌+◌, ◌*◌, ◌+ℤ◌, ◌-ℤ◌, quot, is_positive, pos_part, String, Bool, true, false,
  ◌||◌, List, [], ◌∷◌, ◌++◌, leb, ltb, ◌==◌, string_eq, if◌then◌else◌, trim_space,
}
use agen_sense.Provider.Types.{ChatMessage}
use agen_sense.Voicelang.{one_of}
use agen_sense.Voicews.Values.{SessionConfig}
use agen_sense.Voicews.Memory.{
  ConversationTurn, ConversationOptions, estimate_message_tokens, estimate_messages_tokens,
  turn_messages,
}
use agen_sense.Voicews.Memory.Options.{conversation_options_from_config, wrap_int, wrap_int64}
use agen_sense.Voicews.Memory.Store.{Sessions, snapshot, append, join_with}

pub record ConversationContextStats : Type 0 where
  pub key : String
  pub reset : Bool
  pub compressed : Bool
  pub model : String
  pub context_limit : ℕ
  pub history_budget : ℤ
  pub included_tokens : ℕ
  pub included_turns : ℕ

unfoldable pub conversation_memory_key : String → SessionConfig → String
conversation_memory_key api_key cfg =
    let session_id = trim_space cfg.session_id in
    if session_id == ""
    then ""
    else join_with "\0" (
        trim_space api_key
        ∷ trim_space cfg.provider_profile_id
        ∷ trim_space cfg.client_id
        ∷ session_id
        ∷ [])

-- The parts that are not empty.
unfoldable pub clean : List String → List String
clean [] = []
clean (part ∷ parts) = let rest = clean parts in if part == "" then rest else part ∷ rest

unfoldable pub conversation_display_key : SessionConfig → String
conversation_display_key cfg =
    join_with "/" (clean (trim_space cfg.client_id ∷ trim_space cfg.session_id ∷ []))

abbrev pub reverse : List ConversationTurn → List ConversationTurn → List ConversationTurn
reverse [] out = out
reverse (x ∷ xs) out = reverse xs (x ∷ out)

abbrev pub summary_prompt : String
summary_prompt =
    "Conversation memory summary from earlier turns. Use it only to resolve pronouns, follow-up instructions, confirmations, and corrections. Do not quote it unless the user asks.\n"

-- A trailing set of characters is cut by strings.Trim: one of ` .。!！?？`.
unfoldable pub in_cutset : String → Bool
in_cutset s = one_of s (" " ∷ "." ∷ "。" ∷ "!" ∷ "！" ∷ "?" ∷ "？" ∷ [])

unfoldable pub cut_left : String → String
cut_left String.[] = ""
cut_left (String.◌∷◌ c s) =
    let rest = cut_left s in if in_cutset (String.◌∷◌ c "") then rest else String.◌∷◌ c s

unfoldable pub cut_right : String → String
cut_right String.[] = ""
cut_right (String.◌∷◌ c s) =
    let rest = cut_right s in
    if in_cutset (String.◌∷◌ c "")
    then (if rest == "" then "" else String.◌∷◌ c rest)
    else String.◌∷◌ c rest

-- The messages that were gathered, their estimate, and how many turns.
abbrev pub Gathered : Type 0
Gathered = List ChatMessage × ℕ × ℕ

module _ (to_lower : String → String) (is_cjk_script : ℕ → Bool) (rfc3339 : ℤ → String) where
  unfoldable pub is_blank_asr_text : String → Bool
  is_blank_asr_text text =
      let normalized = trim_space (to_lower text) in
      if normalized == ""
      then true
      else one_of (cut_right (cut_left normalized))
          ("[blank_audio]" ∷ "blank_audio" ∷ "[silence]" ∷ "silence" ∷ [])

  abbrev pub options_of : SessionConfig → ConversationOptions
  options_of cfg =
      conversation_options_from_config to_lower cfg.llm_model cfg.voice_assistant.metadata
        cfg.voice_assistant.ui_context

  -- rememberConversationTurn, at a reading of the clock.
  unfoldable pub remember_conversation_turn :
      String
      → SessionConfig
      → ℤ
      → String
      → String
      → Sessions is_cjk_script rfc3339
      → Sessions is_cjk_script rfc3339
  remember_conversation_turn api_key cfg now user assistant sessions =
      let user_text = trim_space user in
      let assistant_text = trim_space assistant in
      let key = conversation_memory_key api_key cfg in
      if user_text == "" || assistant_text == "" || is_blank_asr_text user_text
      then sessions
      else if key == ""
      then sessions
      else append is_cjk_script rfc3339 key
          (record { user_text = user_text; assistant_text = assistant_text; at = now })
          (options_of cfg) sessions

  -- The summary, if it is not blank and fits.
  unfoldable pub summary_messages : ℕ → String → Gathered
  summary_messages budget summary =
      let message : ChatMessage = record {
        role = "system";
        content = join summary_prompt summary;
      } in
      let tokens = estimate_message_tokens is_cjk_script message in
      if trim_space summary == ""
      then ([], 0, 0)
      else if leb tokens budget
      then (message ∷ [], tokens, 0)
      else ([], 0, 0)

  -- The loop over the turns, the last one first: the messages of the turns that were taken.
  unfoldable pub gather : ℕ → List ConversationTurn → Gathered → Gathered
  gather budget [] gathered = gathered
  gather budget (turn ∷ older) (recent, included, n) =
      let tokens = estimate_messages_tokens is_cjk_script (turn_messages is_cjk_script turn) in
      let skipped = gather budget older (recent, included, n) in
      let taken =
        gather budget older
          (turn_messages is_cjk_script turn ++ recent, included + tokens, suc n) in
      if ltb budget (included + tokens) then skipped else taken

  abbrev pub within_budget : ℕ → String → List ConversationTurn → Gathered
  within_budget budget summary turns =
      let (first, used, m) = summary_messages budget summary in
      let (recent, included, n) = gather budget (reverse turns []) ([], used, m) in
      (first ++ recent, included, n)

  -- Estimates are of texts in memory and do not wrap; the reserve is the client's.
  unfoldable pub base_tokens : ConversationOptions → List ChatMessage → String → ℤ
  base_tokens opts base_messages latest = wrap_int (
      pos (
        estimate_messages_tokens is_cjk_script base_messages
        + estimate_message_tokens is_cjk_script (record { role = "user"; content = latest }))
      +ℤ opts.output_reserve_tokens)

  unfoldable pub history_budget : ConversationOptions → List ChatMessage → String → ℤ
  history_budget opts base_messages latest = wrap_int (
      quot (wrap_int64 (opts.context_limit_tokens * opts.target_percent)) 100
      -ℤ base_tokens opts base_messages latest)

  -- conversationContextMessages, at a reading of the clock, with the memories after it.
  unfoldable pub conversation_context_messages :
      String
      → SessionConfig
      → ℤ
      → List ChatMessage
      → String
      → Sessions is_cjk_script rfc3339
      → (List ChatMessage × ConversationContextStats) × Sessions is_cjk_script rfc3339
  conversation_context_messages api_key cfg now base_messages latest sessions =
      let opts = options_of cfg in
      let key = conversation_memory_key api_key cfg in
      let stats : ConversationContextStats = record {
        key = conversation_display_key cfg;
        reset = false;
        compressed = false;
        model = cfg.llm_model;
        context_limit = opts.context_limit_tokens;
        history_budget = pos 0;
        included_tokens = 0;
        included_turns = 0;
      } in
      let ((summary, turns, reset, compressed), after) =
        snapshot is_cjk_script rfc3339 key now opts sessions in
      let budget = history_budget opts base_messages latest in
      let seen : ConversationContextStats = record stats {
        reset = reset;
        compressed = compressed;
        history_budget = budget;
      } in
      let (out, included, n) = within_budget (pos_part budget) summary turns in
      if key == ""
      then (([], stats), sessions)
      else if is_positive budget
      then ((out, record seen { included_tokens = included; included_turns = n }), after)
      else (([], seen), after)
