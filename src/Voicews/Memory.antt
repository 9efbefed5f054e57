-- ===== src/Voicews/Memory.antt =====
-- The conversation memory of internal/voicews/session.go: its records and the estimates of tokens.
-- The scripts of package unicode are a parameter: whether a rune is of Han, Hiragana, Katakana or
-- Hangul. Counts do not wrap.
pub mod Options
pub mod Tokens
pub mod Store
pub mod Compression
pub mod Context
pub mod Remembered
pub mod Budget
use Prim.Native.Char.{code}
use Prim.Native.String.{count}
use Prim.Native.String.{◌++◌ as join}
use agen_sense.Prelude.{
  ℕ, ℤ, zero, suc, ◌+◌, ◌/◌, String, Bool, ◌||◌, List, [], ◌∷◌, leb, ltb, nat_beq, ◌==◌, string_eq,
  if◌then◌else◌, trim_space,
}
use agen_sense.Provider.Types.{ChatMessage}

pub record ConversationTurn : Type 0 where
  pub user_text : String
  pub assistant_text : String
  pub at : ℤ

pub record ConversationMemory : Type 0 where
  pub summary : String
  pub turns : List ConversationTurn
  pub last_interaction : ℤ
  pub context_limit_tokens : ℕ

pub record ConversationOptions : Type 0 where
  pub context_limit_tokens : ℕ
  pub target_percent : ℕ
  pub compress_percent : ℕ
  pub output_reserve_tokens : ℤ
  pub recent_turn_limit : ℕ
  pub idle_timeout : ℤ
  pub summary_rune_limit : ℕ

-- `string(runes[:limit])`
unfoldable pub take_runes : ℕ → String → String
take_runes zero s = ""
take_runes (suc n) String.[] = ""
take_runes (suc n) (String.◌∷◌ c s) = String.◌∷◌ c (take_runes n s)

unfoldable pub truncate_runes : String → ℕ → String
truncate_runes text limit =
    if nat_beq limit 0 then "" else if leb (count text) limit then text else take_runes limit text

module _ (is_cjk_script : ℕ → Bool) where
  -- The runes that count a token each, by the first two cases of the switch.
  unfoldable pub is_token : ℕ → Bool
  is_token r = is_cjk_script r || ltb 127 r

  unfoldable pub token_runes : String → ℕ
  token_runes String.[] = 0
  token_runes (String.◌∷◌ c s) =
      let rest = token_runes s in if is_token (code c) then suc rest else rest

  unfoldable pub ascii_runes : String → ℕ
  ascii_runes String.[] = 0
  ascii_runes (String.◌∷◌ c s) =
      let rest = ascii_runes s in if is_token (code c) then rest else suc rest

  abbrev pub at_least_one : ℕ → ℕ
  at_least_one tokens = if leb tokens 0 then 1 else tokens

  unfoldable pub estimate_tokens : String → ℕ
  estimate_tokens raw =
      let text = trim_space raw in
      if text == "" then 0 else at_least_one (token_runes text + (ascii_runes text + 3) / 4)

  unfoldable pub estimate_message_tokens : ChatMessage → ℕ
  estimate_message_tokens message =
      4 + estimate_tokens message.role + estimate_tokens message.content

  unfoldable pub estimate_messages_tokens : List ChatMessage → ℕ
  estimate_messages_tokens [] = 0
  estimate_messages_tokens (message ∷ messages) =
      estimate_message_tokens message + estimate_messages_tokens messages

  abbrev pub turn_messages : ConversationTurn → List ChatMessage
  turn_messages turn =
      record { role = "user"; content = turn.user_text }
      ∷ record { role = "assistant"; content = turn.assistant_text }
      ∷ []

  unfoldable pub turns_tokens : List ConversationTurn → ℕ
  turns_tokens [] = 0
  turns_tokens (turn ∷ turns) = estimate_messages_tokens (turn_messages turn) + turns_tokens turns

  unfoldable pub estimate_conversation_memory_tokens : String → List ConversationTurn → ℕ
  estimate_conversation_memory_tokens summary turns = estimate_tokens summary + turns_tokens turns
