-- ===== src/Voicews/Mcp/Laws.antt =====
-- Which tool a proposal names.
use agen_sense.Prelude.{
  ℕ, pos, ◌≤ℤ◌, ◌^◌, arith, String, Bool, true, false, not, ◌||◌, Option, none, some, List, [], ◌∷◌,
  ◌==◌, ==_refl, string_eq, if◌then◌else◌, trim_space, ◌≡◌, refl, ap, ◌∙◌,
}
use agen_sense.Voicelang.{one_of}
use agen_sense.Voicews.Values.{VoiceAssistantMetadata}
use agen_sense.Voicews.Echo.{contains, runes}
use agen_sense.Voicews.Mcp.{
  mcp_tools_from_voice_assistant, mcp_tool_allowed, extract_json_object, preferred_tool, safest_of,
  safest_mcp_tool, McpProposalModelOutput, Planner, Float64,
}
use agen_sense.Voicews.Mcp.Proposals.{
  has_no, Proposal, tool_of, confidence_of, outside, proposal_of, parsed_proposal,
  parse_mcp_proposal, fallback_mcp_proposal, build_mcp_proposal, or_fallback, completed,
  propose_mcp_call,
}

or_true : (b : Bool) → (b || true) ≡ true
or_true true = refl
or_true false = refl

-- The text of a choice among the tools is one of them.
abbrev AllIn : List String → Option String → Type 0
AllIn tools none = Unit
AllIn tools (some t) = one_of t tools ≡ true

AllIn-cons :
    (x : String) (tools : List String) (o : Option String) → AllIn tools o → AllIn (x ∷ tools) o
unfolding one_of
AllIn-cons x tools none h = tt
AllIn-cons x tools (some t) h = ap (λ b. t == x || b) h ∙ or_true (t == x)

preferred-AllIn :
    (to_lower : String → String) (word : String) (tools : List String)
    → AllIn tools (preferred_tool to_lower word tools)
unfolding preferred_tool one_of
preferred-AllIn to_lower word [] = tt
preferred-AllIn to_lower word (t ∷ tools) =
    go (contains (runes (to_lower t)) (runes word)) _
      (AllIn-cons t tools _ (preferred-AllIn to_lower word tools))
  where
    go :
        (b : Bool) (rest : Option String)
        → AllIn (t ∷ tools) rest
        → AllIn (t ∷ tools) (if b then some t else rest)
    go true rest h = ap (λ b. b || one_of t tools) (==_refl t)
    go false rest h = h

safest-AllIn :
    (to_lower : String → String) (words : List String) (t : String) (tools : List String)
    → one_of (safest_of to_lower words (t ∷ tools)) (t ∷ tools) ≡ true
unfolding safest_of one_of
safest-AllIn to_lower [] t tools = ap (λ b. b || one_of t tools) (==_refl t)
safest-AllIn to_lower (word ∷ words) t tools =
    go (preferred_tool to_lower word (t ∷ tools)) (preferred-AllIn to_lower word (t ∷ tools))
      (safest-AllIn to_lower words t tools)
  where
    go :
        (o : Option String)
        → AllIn (t ∷ tools) o
        → one_of (safest_of to_lower words (t ∷ tools)) (t ∷ tools) ≡ true
        → one_of
            (elim o [ some tool ↦ tool | none ↦ safest_of to_lower words (t ∷ tools) ])
            (t ∷ tools)
          ≡ true
    go none h rest = rest
    go (some tool) h rest = h

module _ (M : Planner) (is_blank_asr_text : String → Bool) where
  -- A number from 0 to 1.
  abbrev pub IsConfidence : Float64 → Type 0
  IsConfidence x = (pos 0 ≤ℤ x.mantissa) × (x.mantissa ≤ℤ pos (2 ^ x.shift))

  outside-IsConfidence : (x : Float64) → outside x ≡ false → IsConfidence x
  outside-IsConfidence x h = ground arith

  -- A proposal of one of the tools, with a confidence from 0 to 1.
  abbrev pub IsOffered : List String → Proposal M is_blank_asr_text → Type 0
  IsOffered tools p = (one_of p.tool_name tools ≡ true) × IsConfidence p.confidence

  abbrev AllOffered : List String → Option (Proposal M is_blank_asr_text) → Type 0
  AllOffered tools none = Unit
  AllOffered tools (some p) = IsOffered tools p

  proposal-Offered :
      (transcript : String) (tools : List String) (parsed : McpProposalModelOutput Float64)
      → AllOffered tools (proposal_of M is_blank_asr_text transcript tools parsed)
  unfolding proposal_of mcp_tool_allowed
  proposal-Offered transcript tools parsed =
      go _ (one_of (tool_of M is_blank_asr_text parsed) tools) refl
        (outside (confidence_of M is_blank_asr_text parsed.confidence)) refl
    where
      go :
          (p : Proposal M is_blank_asr_text) (a : Bool)
          → one_of p.tool_name tools ≡ a
          → (b : Bool) → outside p.confidence ≡ b
          → AllOffered tools (if not a then none else if b then none else some p)
      go p false ha b hb = tt
      go p true ha true hb = tt
      go p true ha false hb = (ha, outside-IsConfidence p.confidence hb)

  build-Offered :
      (answer : Option String) (transcript : String) (tools : List String)
      → AllOffered tools (build_mcp_proposal M is_blank_asr_text answer transcript tools)
  unfolding parse_mcp_proposal
  build-Offered none transcript tools = tt
  build-Offered (some raw) transcript tools = found (extract_json_object raw)
    where
      read :
          (o : Option (McpProposalModelOutput Float64))
          → AllOffered tools (elim o [
            | none ↦ none
            | some parsed ↦ proposal_of M is_blank_asr_text transcript tools parsed
          ])
      read none = tt
      read (some parsed) = proposal-Offered transcript tools parsed

      found :
          (o : Option String)
          → AllOffered tools (parsed_proposal M is_blank_asr_text transcript tools o)
      found none = tt
      found (some data_) = read (M.unmarshal data_)

  chosen-Offered :
      (transcript t : String) (tools : List String) (o : Option (Proposal M is_blank_asr_text))
      → AllOffered (t ∷ tools) o
      → IsOffered (t ∷ tools) (or_fallback M is_blank_asr_text transcript (t ∷ tools) o)
  unfolding fallback_mcp_proposal safest_mcp_tool
  chosen-Offered transcript t tools none h =
      (safest-AllIn M.to_lower _ t tools, (omega arith, omega arith))
  chosen-Offered transcript t tools (some p) h = h

  -- Whatever the model answers, or if it fails, a transcript with words from a client that offers
  -- tools gives a proposal, its tool is one that the client offers, and its confidence is from 0 to
  -- 1.
  pub propose_mcp_call-IsOffered :
      (answer : Option String) (id : ℕ) (raw : String) (voice_assistant : VoiceAssistantMetadata)
      → (trim_space raw == "") ≡ false
      → is_blank_asr_text (trim_space raw) ≡ false
      → has_no (mcp_tools_from_voice_assistant voice_assistant) ≡ false
      → (p : Proposal M is_blank_asr_text) × (propose_mcp_call M is_blank_asr_text answer id raw
            voice_assistant
          ≡ some p)
        × IsOffered (mcp_tools_from_voice_assistant voice_assistant) p
  unfolding propose_mcp_call completed
  propose_mcp_call-IsOffered answer id raw voice_assistant words blank offered =
      rw (words, blank, offered)
        (_, refl, go (mcp_tools_from_voice_assistant voice_assistant) offered)
    where
      go :
          (tools : List String)
          → has_no tools ≡ false
          → IsOffered tools (
              or_fallback M is_blank_asr_text
                (trim_space raw)
                tools
                (build_mcp_proposal M is_blank_asr_text answer (trim_space raw) tools))
      go [] e = absurd (cc)
      go (t ∷ tools) e =
          chosen-Offered (trim_space raw) t tools _
            (build-Offered answer (trim_space raw) (t ∷ tools))
