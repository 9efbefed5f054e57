-- ===== src/Voicews/Memory/Store.antt =====
-- conversationMemoryStore of internal/voicews/session.go, and the compression of a memory. The map
-- holds what its pointers point to. The texts of times, `t.UTC().Format(time.RFC3339)`, are a
-- parameter. The difference of two times does not saturate.
use Prim.Native.String.{◌++◌ as join}
use agen_sense.Prelude.{
  ℕ, ℤ, pos, ◌-◌, ◌*◌, ◌/◌, ◌-ℤ◌, quot, ltb_ℤ, beq_ℤ, String, Bool, true, false, not, ◌&&◌, Option,
  none, some, List, [], ◌∷◌, ◌++◌, length, take, drop, ltb, ◌==◌, string_eq, if◌then◌else◌,
  trim_space, Map, lookup, insert,
}
use agen_sense.Voicews.Memory.{
  ConversationTurn, ConversationMemory, ConversationOptions, truncate_runes, estimate_tokens,
  estimate_conversation_memory_tokens,
}
use agen_sense.Voicews.Memory.Options.{wrap_int64}

-- strings.Join
unfoldable pub join_with : String → List String → String
join_with sep [] = ""
join_with sep (x ∷ []) = x
join_with sep (x ∷ y ∷ xs) = join x (join sep (join_with sep (y ∷ xs)))

module _ (is_cjk_script : ℕ → Bool) (rfc3339 : ℤ → String) where
  unfoldable pub turn_line : ConversationTurn → String
  turn_line turn = join "- " (
      join (rfc3339 turn.at) (
        join " user: " (
          join (truncate_runes (trim_space turn.user_text) 220)
            (join " assistant: " (truncate_runes (trim_space turn.assistant_text) 220)))))

  unfoldable pub turn_lines : List ConversationTurn → List String
  turn_lines [] = []
  turn_lines (turn ∷ turns) = turn_line turn ∷ turn_lines turns

  unfoldable pub merge_conversation_summary : String → List ConversationTurn → ℕ → String
  merge_conversation_summary existing turns limit =
      let lines = turn_lines turns in
      truncate_runes
        (join_with "\n" (if trim_space existing == "" then lines else trim_space existing ∷ lines))
        limit

  -- The summary and the turns of a memory, and whether they were compressed.
  abbrev pub Compressed : Type 0
  Compressed = String × List ConversationTurn × Bool

  -- The first `if` of compressConversationMemoryLocked.
  unfoldable pub cut_turns : ConversationOptions → String → List ConversationTurn → Compressed
  cut_turns opts summary turns =
      let surplus = length turns - opts.recent_turn_limit in
      if ltb opts.recent_turn_limit (length turns)
      then (
        merge_conversation_summary summary (take surplus turns) opts.summary_rune_limit,
        drop surplus turns,
        true,
      )
      else (summary, turns, false)

  unfoldable pub threshold : ConversationOptions → ℤ
  threshold opts = quot (wrap_int64 (opts.context_limit_tokens * opts.compress_percent)) 100

  -- The loop: a round drops a turn.
  unfoldable pub shrink : ConversationOptions → String → List ConversationTurn → Bool → Compressed
  shrink opts summary [] compressed = (summary, [], compressed)
  shrink opts summary (turn ∷ []) compressed = (summary, turn ∷ [], compressed)
  shrink opts summary (turn ∷ next ∷ turns) compressed =
      let merged = merge_conversation_summary summary (turn ∷ []) opts.summary_rune_limit in
      let round = shrink opts merged (next ∷ turns) true in
      if ltb_ℤ (threshold opts)
        (pos (estimate_conversation_memory_tokens is_cjk_script summary (turn ∷ next ∷ turns)))
      then round
      else (summary, turn ∷ next ∷ turns, compressed)

  -- The last `if`.
  unfoldable pub cut_summary : ConversationOptions → Compressed → Compressed
  cut_summary opts (summary, turns, compressed) =
      if ltb_ℤ (quot (threshold opts) 2) (pos (estimate_tokens is_cjk_script summary))
      then (truncate_runes summary (opts.summary_rune_limit / 2), turns, true)
      else (summary, turns, compressed)

  unfoldable pub compress : ConversationOptions → String → List ConversationTurn → Compressed
  compress opts summary turns =
      let (kept_summary, kept, compressed) = cut_turns opts summary turns in
      cut_summary opts (shrink opts kept_summary kept compressed)

  -- compressConversationMemoryLocked: whether it compressed, and the memory after it.
  unfoldable pub compress_conversation_memory :
      ConversationOptions → ConversationMemory → Bool × ConversationMemory
  compress_conversation_memory opts mem =
      let (summary, turns, compressed) = compress opts mem.summary mem.turns in
      (compressed, record mem { summary = summary; turns = turns })

  abbrev pub Sessions : Type 0
  Sessions = Map String ConversationMemory

  abbrev pub memory_or_new : ConversationOptions → Option ConversationMemory → ConversationMemory
  memory_or_new opts none = record {
    summary = "";
    turns = [];
    last_interaction = pos 0;
    context_limit_tokens = opts.context_limit_tokens;
  }
  memory_or_new opts (some mem) = mem

  -- The test for a memory that was idle for too long.
  unfoldable pub is_idle : ConversationOptions → ℤ → ConversationMemory → Bool
  is_idle opts now mem =
      not (beq_ℤ mem.last_interaction (pos 0))
      && ltb_ℤ opts.idle_timeout (now -ℤ mem.last_interaction)

  -- Forgets an idle memory, and notes the limit.
  unfoldable pub awake : ConversationOptions → ℤ → ConversationMemory → ConversationMemory
  awake opts now mem =
      if is_idle opts now mem
      then record mem { summary = ""; turns = []; context_limit_tokens = opts.context_limit_tokens }
      else record mem { context_limit_tokens = opts.context_limit_tokens }

  -- What snapshot returns: the summary, the turns, whether the memory was reset and compressed.
  abbrev pub Snapshot : Type 0
  Snapshot = String × List ConversationTurn × Bool × Bool

  unfoldable pub snapshot : String → ℤ → ConversationOptions → Sessions → Snapshot × Sessions
  snapshot key now opts sessions =
      let mem = memory_or_new opts (lookup key sessions) in
      let (compressed, next) = compress_conversation_memory opts (awake opts now mem) in
      ((next.summary, next.turns, is_idle opts now mem, compressed), insert key next sessions)

  unfoldable pub append : String → ConversationTurn → ConversationOptions → Sessions → Sessions
  append key turn opts sessions =
      let mem = awake opts turn.at (memory_or_new opts (lookup key sessions)) in
      let grown = record mem { turns = mem.turns ++ turn ∷ []; last_interaction = turn.at } in
      insert key (compress_conversation_memory opts grown).1 sessions
