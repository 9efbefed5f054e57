-- ===== src/Voicews/Mcp.antt =====
-- The proposals of MCP calls of internal/voicews/session.go: which tools a client offers, and how the
-- answer of the language model becomes a proposal. json.Unmarshal, strings.ToLower and the texts of
-- errors are parameters; the model's whole answer, or the error of its stream, is an argument. `seen` holds the names that `out` has.
pub mod Proposals
pub mod Laws
use Prim.Native.Char.{Char, code}
use Prim.Native.String.{◌++◌ as join}
use agen_sense.Prelude.{
  ℕ, ℤ, zero, suc, ◌+◌, ◌-◌, String, Bool, true, false, not, ◌&&◌, ◌||◌, Option, none, some, List,
  [], ◌∷◌, ◌++◌, ltb, nat_beq, ◌==◌, string_eq, if◌then◌else◌, trim_space, print_padded, is_some,
}
use agen_sense.Voicelang.{one_of}
use agen_sense.Voicews.Values.{
  Any, number, text, items, mapping, other, Items, no_items, item, Entries, no_entries, entry,
  value_at, VoiceAssistantIntent, VoiceAssistantMetadata,
}
use agen_sense.Voicews.Memory.{take_runes}
use agen_sense.Voicews.Echo.{contains, runes}

unfoldable pub append_mcp_tool : List String → String → List String
append_mcp_tool out raw =
    let name = trim_space raw in if name == "" || one_of name out then out else out ++ name ∷ []

-- The string under a key, if there is one.
abbrev pub append_text : List String → Option Any → List String
append_text out (some (text name)) = append_mcp_tool out name
append_text out _ = out

unfoldable mutual
  pub append_mcp_tools : List String → Any → List String
  append_mcp_tools out (number value positive) = out
  append_mcp_tools out (text name) = append_mcp_tool out name
  append_mcp_tools out (items list) = append_items out list
  append_mcp_tools out (mapping m) =
      append_text (append_text (append_text out (value_at "tool_name" m)) (value_at "name" m))
        (value_at "id" m)
  append_mcp_tools out other = out

  pub append_items : List String → Items → List String
  append_items out no_items = out
  append_items out (item value rest) = append_items (append_mcp_tools out value) rest

-- A missing key gives a nil, which has no tools.
abbrev pub append_value : List String → Option Any → List String
append_value out none = out
append_value out (some value) = append_mcp_tools out value

-- The loop over the keys of one source.
unfoldable pub append_source : List String → Entries → List String
append_source out source =
    append_value
      (append_value (append_value out (value_at "mcp_tools" source))
        (value_at "available_mcp_tools" source))
      (value_at "tools" source)

abbrev pub append_intent : List String → Option VoiceAssistantIntent → List String
append_intent out none = out
append_intent out (some intent) = append_source out intent.args

unfoldable pub mcp_tools_from_voice_assistant : VoiceAssistantMetadata → List String
mcp_tools_from_voice_assistant metadata =
    append_intent (append_source (append_source [] metadata.metadata) metadata.ui_context)
      metadata.assistant_intent

unfoldable pub mcp_tool_allowed : String → List String → Bool
mcp_tool_allowed tool_name tools = one_of tool_name tools

-- strings.Index and strings.LastIndex of one character.
abbrev pub next_index : Option ℕ → Option ℕ
next_index none = none
next_index (some n) = some (suc n)

unfoldable pub index_of : ℕ → String → Option ℕ
index_of r String.[] = none
index_of r (String.◌∷◌ c s) =
    let later = index_of r s in if nat_beq (code c) r then some 0 else next_index later

unfoldable pub last_index_of : ℕ → String → Option ℕ
last_index_of r String.[] = none
last_index_of r (String.◌∷◌ c s) = elim (last_index_of r s) [
  | some n ↦ some (suc n)
  | none ↦ if nat_beq (code c) r then some 0 else none
]

unfoldable pub drop_runes : ℕ → String → String
drop_runes zero s = s
drop_runes (suc n) String.[] = ""
drop_runes (suc n) (String.◌∷◌ c s) = drop_runes n s

abbrev pub between : String → Option ℕ → Option ℕ → Option String
between raw (some start) (some end) =
    if ltb end start then none else some (take_runes (suc end - start) (drop_runes start raw))
between raw _ _ = none

-- `none` for its error.
unfoldable pub extract_json_object : String → Option String
extract_json_object raw =
    let trimmed = trim_space raw in
    between trimmed (index_of b'{' trimmed) (last_index_of b'}' trimmed)

-- The first of the tools whose lower name contains the word.
unfoldable pub preferred_tool : (String → String) → String → List String → Option String
preferred_tool to_lower word [] = none
preferred_tool to_lower word (tool ∷ tools) =
    let rest = preferred_tool to_lower word tools in
    if contains (runes (to_lower tool)) (runes word) then some tool else rest

abbrev pub first_tool : List String → String
first_tool [] = ""
first_tool (tool ∷ tools) = tool

-- The loop over the preferred words.
unfoldable pub safest_of : (String → String) → List String → List String → String
safest_of to_lower [] tools = first_tool tools
safest_of to_lower (word ∷ words) tools = elim (preferred_tool to_lower word tools) [
  | some tool ↦ tool
  | none ↦ safest_of to_lower words tools
]

unfoldable pub safest_mcp_tool : (String → String) → List String → String
safest_mcp_tool to_lower tools =
    safest_of to_lower ("capture_text" ∷ "create_note" ∷ "note" ∷ "memory" ∷ []) tools

-- A finite float64, the quotient of `mantissa` by a power of two. JSON has no others.
pub record Float64 : Type 0 where
  pub mantissa : ℤ
  pub shift : ℕ

pub record McpProposalModelOutput (Float : Type 0) : Type 0 where
  pub tool_name : String
  pub tool : String
  pub name : String
  pub arguments : Entries
  pub args : Entries
  pub transcript : String
  pub confidence : Option Float
  pub requires_confirmation : Bool
  pub reason : String

pub record McpCallProposedPayload (Float : Type 0) : Type 0 where
  pub proposal_id : String
  pub tool_name : String
  pub arguments : Entries
  pub transcript : String
  pub confidence : Float
  pub requires_confirmation : Bool
  pub reason : String

pub record Planner : Type 0 where
  pub to_lower : String → String
  pub unmarshal : String → Option (McpProposalModelOutput Float64)
  pub error_text : String
