-- ===== src/Voicews/Mcp/Proposals.antt =====
-- parseMCPProposal, fallbackMCPProposal and proposeMCPCall of internal/voicews/session.go. The error
-- of a stream or of the parsing is kept as one text. A trace's events and what the model is asked
-- are left out.
use Prim.Native.String.{◌++◌ as join}
use agen_sense.Prelude.{
  ℕ, pos, ltb_ℤ, ◌^◌, String, Bool, true, false, not, ◌||◌, Option, none, some, List, [], ◌==◌,
  string_eq, if◌then◌else◌, trim_space, print_padded,
}
use agen_sense.Voicews.Values.{
  Any, text, Entries, no_entries, entry, value_at, VoiceAssistantMetadata,
}
use agen_sense.Voicews.Mcp.{
  mcp_tools_from_voice_assistant, mcp_tool_allowed, extract_json_object, safest_mcp_tool,
  McpProposalModelOutput, McpCallProposedPayload, Planner, Float64,
}

abbrev pub has_no : List String → Bool
has_no [] = true
has_no _ = false

abbrev pub is_empty : Entries → Bool
is_empty no_entries = true
is_empty _ = false

-- `if _, ok := args["raw_text"]; !ok`
abbrev pub with_raw_text : String → Entries → Option Any → Entries
with_raw_text transcript args none = entry "raw_text" (text transcript) args
with_raw_text transcript args (some value) = args

-- firstNonEmpty of two texts
abbrev pub first_non_empty : String → String → String
first_non_empty a b =
    if not (trim_space a == "")
    then trim_space a
    else if not (trim_space b == "")
    then trim_space b
    else ""

-- The float64 values of the constants 0.7 and 0.35.
abbrev pub float_0_7 : Float64
float_0_7 = record { mantissa = pos 3152519739159347; shift = 52 }

abbrev pub float_0_35 : Float64
float_0_35 = record { mantissa = pos 3152519739159347; shift = 53 }

-- `confidence < 0 || confidence > 1`
abbrev pub outside : Float64 → Bool
outside x = ltb_ℤ x.mantissa (pos 0) || ltb_ℤ (pos (2 ^ x.shift)) x.mantissa

module _ (M : Planner) (is_blank_asr_text : String → Bool) where
  abbrev pub Proposal : Type 0
  Proposal = McpCallProposedPayload Float64

  unfoldable pub tool_of : McpProposalModelOutput Float64 → String
  tool_of parsed =
      let a = trim_space parsed.tool_name in
      let b = trim_space parsed.tool in
      if not (a == "") then a else if not (b == "") then b else trim_space parsed.name

  abbrev pub confidence_of : Option Float64 → Float64
  confidence_of none = float_0_7
  confidence_of (some confidence) = confidence

  unfoldable pub proposal_of :
      String → List String → McpProposalModelOutput Float64 → Option Proposal
  proposal_of transcript tools parsed =
      let tool_name = tool_of parsed in
      let args = if is_empty parsed.arguments then parsed.args else parsed.arguments in
      let confidence = confidence_of parsed.confidence in
      let proposal : Proposal = record {
        proposal_id = "";
        tool_name = tool_name;
        arguments = with_raw_text transcript args (value_at "raw_text" args);
        transcript = first_non_empty parsed.transcript transcript;
        confidence = confidence;
        requires_confirmation = parsed.requires_confirmation;
        reason = trim_space parsed.reason;
      } in
      if not (mcp_tool_allowed tool_name tools)
      then none
      else if outside confidence
      then none
      else some proposal

  abbrev pub parsed_proposal : String → List String → Option String → Option Proposal
  parsed_proposal transcript tools none = none
  parsed_proposal transcript tools (some data_) = elim (M.unmarshal data_) [
    | none ↦ none
    | some parsed ↦ proposal_of transcript tools parsed
  ]

  -- parseMCPProposal
  unfoldable pub parse_mcp_proposal : String → String → List String → Option Proposal
  parse_mcp_proposal raw transcript tools =
      parsed_proposal transcript tools (extract_json_object raw)

  unfoldable pub fallback_mcp_proposal : String → List String → Proposal
  fallback_mcp_proposal transcript tools =
      let reason : String =
        "LLM did not return a valid MCP proposal; falling back to raw transcript capture." in
      record {
        proposal_id = "";
        tool_name = safest_mcp_tool M.to_lower tools;
        arguments = entry "raw_text" (text transcript) no_entries;
        transcript = transcript;
        confidence = float_0_35;
        requires_confirmation = true;
        reason =
            if trim_space M.error_text == "" then reason else join reason (join " " M.error_text);
      }

  -- buildMCPProposal, with the answer of the model, `none` without a model or after an error.
  abbrev pub build_mcp_proposal : Option String → String → List String → Option Proposal
  build_mcp_proposal none transcript tools = none
  build_mcp_proposal (some raw) transcript tools = parse_mcp_proposal raw transcript tools

  abbrev pub or_fallback : String → List String → Option Proposal → Proposal
  or_fallback transcript tools none = fallback_mcp_proposal transcript tools
  or_fallback transcript tools (some proposal) = proposal

  -- A proposal with an identifier of its own and a transcript.
  unfoldable pub completed : ℕ → String → Proposal → Proposal
  completed id transcript p = record p {
    proposal_id = if p.proposal_id == "" then join "mcp-" (print_padded id) else p.proposal_id;
    transcript = if p.transcript == "" then transcript else p.transcript;
  }

  -- proposeMCPCall: the proposal that is written, if any. `id` is the next number of an identifier.
  unfoldable pub propose_mcp_call :
      Option String → ℕ → String → VoiceAssistantMetadata → Option Proposal
  propose_mcp_call answer id raw voice_assistant =
      let transcript = trim_space raw in
      let tools = mcp_tools_from_voice_assistant voice_assistant in
      let proposal = or_fallback transcript tools (build_mcp_proposal answer transcript tools) in
      if transcript == "" || is_blank_asr_text transcript
      then none
      else if has_no tools
      then none
      else some (completed id transcript proposal)
