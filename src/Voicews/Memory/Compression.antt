-- ===== src/Voicews/Memory/Compression.antt =====
-- What compressConversationMemoryLocked leaves of a memory.
use mathlib.Core.List.{append_assoc}
use agen_sense.Prelude.{
  pos, ◌≤ℤ◌, ltb_ℤ, quot, ℕ, ℤ, zero, suc, ◌-◌, ◌/◌, ◌≤◌, min, String, Bool, true, false, some,
  List, [], ◌∷◌, ◌++◌, length, take, drop, ltb, if◌then◌else◌, ◌≡◌, refl, sym, ap, ◌∙◌, ◌⊎◌, inl,
  inr, lookup, lookup-insert_self, string_eq, arith, length-append, length-drop,
}
use agen_sense.Voicews.Memory.{
  ConversationTurn, ConversationMemory, ConversationOptions, truncate_runes, estimate_tokens,
  estimate_conversation_memory_tokens,
}
use agen_sense.Voicews.Memory.Tokens.{estimate_tokens-truncate_runes}
use agen_sense.Voicews.Memory.Store.{
  merge_conversation_summary, cut_turns, threshold, shrink, cut_summary, compress,
  compress_conversation_memory, Sessions, memory_or_new, awake, append,
}

abbrev Turns : Type 0
Turns = List ConversationTurn

-- The last turns of `old`, at least one of them if it has any.
pub record IsRecent (old new : Turns) : Type 0 where
  pub forgotten : Turns
  pub recent : old ≡ forgotten ++ new
  pub newest : min 1 (length old) ≤ length new

IsRecent-refl : (t : Turns) → IsRecent t t
IsRecent-refl t = record { forgotten = []; recent = refl; newest = omega arith }

IsRecent-trans : (s t u : Turns) → IsRecent s t → IsRecent t u → IsRecent s u
IsRecent-trans s t u p q = record {
  forgotten = p.forgotten ++ q.forgotten;
  recent =
      p.recent ∙ ap (λ x. p.forgotten ++ x) q.recent ∙ sym (append_assoc p.forgotten q.forgotten u);
  newest = omega (arith, p.newest, q.newest);
}

take-drop : (n : ℕ) (t : Turns) → t ≡ take n t ++ drop n t
take-drop zero t = refl
take-drop (suc n) [] = refl
take-drop (suc n) (x ∷ t) = ap (λ u. x ∷ u) (take-drop n t)

abbrev Result : Type 0
Result = String × Turns × Bool

module _ (is_cjk_script : ℕ → Bool) (rfc3339 : ℤ → String) (opts : ConversationOptions) where
  -- One turn is left, or the memory is within the threshold.
  abbrev pub IsSmall : String → Turns → Type 0
  IsSmall summary turns =
      (length turns ≤ 1)
      ⊎ (pos (estimate_conversation_memory_tokens is_cjk_script summary turns)
          ≤ℤ threshold is_cjk_script rfc3339 opts)

  cut_turns-IsRecent :
      (summary : String) (turns : Turns)
      → 1 ≤ opts.recent_turn_limit
      → let r = cut_turns is_cjk_script rfc3339 opts summary turns in
        IsRecent turns r.1 × (length r.1 ≤ opts.recent_turn_limit)
  unfolding cut_turns
  cut_turns-IsRecent summary turns room = go (ltb opts.recent_turn_limit (length turns)) refl _
    where
      go :
          (b : Bool)
          → ltb opts.recent_turn_limit (length turns) ≡ b
          → (merged : String)
          → let n = length turns - opts.recent_turn_limit in
            let r : Result = if b then (merged, drop n turns, true) else (summary, turns, false) in
            IsRecent turns r.1 × (length r.1 ≤ opts.recent_turn_limit)
      go false h merged = (IsRecent-refl turns, ground arith)
      go true h merged =
          let n = length turns - opts.recent_turn_limit in
          let more : suc opts.recent_turn_limit ≤ length turns = ground arith in
          (
            record {
              forgotten = take n turns;
              recent = take-drop n turns;
              newest = omega (arith, length-drop n turns);
            },
            omega (arith, length-drop n turns),
          )

  -- What a step leaves: recent turns, no more than `n`, in a small memory.
  abbrev Leaves : Turns → ℕ → Result → Type 0
  Leaves old n r = IsRecent old r.1 × (length r.1 ≤ n) × IsSmall r.0 r.1

  shrink-Leaves :
      (summary : String) (turns : Turns) (b : Bool) (n : ℕ)
      → length turns ≤ n
      → Leaves turns n (shrink is_cjk_script rfc3339 opts summary turns b)
  unfolding shrink
  shrink-Leaves summary [] b n h = (IsRecent-refl [], h, inl (omega arith))
  shrink-Leaves summary (turn ∷ []) b n h = (IsRecent-refl (turn ∷ []), h, inl (omega arith))
  shrink-Leaves summary (turn ∷ next ∷ turns) b n h =
      go
        (ltb_ℤ (threshold is_cjk_script rfc3339 opts)
          (pos (estimate_conversation_memory_tokens is_cjk_script summary (turn ∷ next ∷ turns))))
        refl _
        (shrink-Leaves
          (merge_conversation_summary is_cjk_script rfc3339 summary (turn ∷ [])
            opts.summary_rune_limit)
          (next ∷ turns) true n (omega arith))
    where
      go :
          (c : Bool)
          → ltb_ℤ (threshold is_cjk_script rfc3339 opts) (
              pos (estimate_conversation_memory_tokens is_cjk_script summary (turn ∷ next ∷ turns)))
            ≡ c
          → (round : Result) → Leaves (next ∷ turns) n round
          → Leaves (turn ∷ next ∷ turns) n (if c then round else (summary, turn ∷ next ∷ turns, b))
      go false e round r = (IsRecent-refl (turn ∷ next ∷ turns), h, inr (ground arith))
      go true e round r =
          let first : IsRecent (turn ∷ next ∷ turns) (next ∷ turns) = record {
            forgotten = turn ∷ [];
            recent = refl;
            newest = omega arith;
          } in
          (IsRecent-trans _ _ _ first r.0, r.1, r.2)

  cut_summary-Leaves :
      (old : Turns) (n : ℕ) (r : Result)
      → Leaves old n r
      → Leaves old n (cut_summary is_cjk_script rfc3339 opts r)
  unfolding cut_summary estimate_conversation_memory_tokens
  cut_summary-Leaves old n (summary, turns, b) h =
      go
        (ltb_ℤ (quot (threshold is_cjk_script rfc3339 opts) 2)
          (pos (estimate_tokens is_cjk_script summary)))
        h.2
    where
      limit : ℕ
      limit = opts.summary_rune_limit / 2

      go :
          (c : Bool)
          → IsSmall summary turns
          → Leaves old n
              (if c then (truncate_runes summary limit, turns, true) else (summary, turns, b))
      go false small = h
      go true (inl one) = (h.0, h.1, inl one)
      go true (inr small) = (
        h.0,
        h.1,
        inr (omega (arith, estimate_tokens-truncate_runes is_cjk_script summary limit)),
      )

  compress-Leaves :
      (summary : String) (turns : Turns)
      → 1 ≤ opts.recent_turn_limit
      → Leaves turns opts.recent_turn_limit (compress is_cjk_script rfc3339 opts summary turns)
  unfolding compress
  compress-Leaves summary turns h =
      let r = cut_turns is_cjk_script rfc3339 opts summary turns in
      let first = cut_turns-IsRecent summary turns h in
      let second = shrink-Leaves r.0 r.1 r.2 opts.recent_turn_limit first.1 in
      cut_summary-Leaves turns opts.recent_turn_limit _
        (IsRecent-trans _ _ _ first.0 second.0, second.1, second.2)

  -- With room for a turn, compressing a memory ends, keeps its last turns, at least one of them if
  -- there is any and no more than the limit of turns, and leaves one turn or a memory whose estimate
  -- is within the threshold.
  pub compress_conversation_memory_lem :
      (mem : ConversationMemory)
      → 1 ≤ opts.recent_turn_limit
      → let after = (compress_conversation_memory is_cjk_script rfc3339 opts mem).1 in
        IsRecent mem.turns after.turns
        × (length after.turns ≤ opts.recent_turn_limit)
        × IsSmall after.summary after.turns
  unfolding compress_conversation_memory
  compress_conversation_memory_lem mem h = compress-Leaves mem.summary mem.turns h

tail : Turns → Turns
tail [] = []
tail (x ∷ xs) = xs

-- A suffix with a turn ends with the last turn.
last_of :
    (xs forgotten new : Turns) (t : ConversationTurn)
    → xs ++ t ∷ [] ≡ forgotten ++ new
    → 1 ≤ length new
    → (earlier : Turns) × (new ≡ earlier ++ t ∷ [])
unfolding tail
last_of xs [] new t e h = (xs, sym e)
last_of [] (y ∷ forgotten) new t e h =
    let rest : [] ≡ forgotten ++ new = ap tail e in
    let none_left : 0 ≡ length (forgotten ++ new) = ap length rest in
    absurd (omega (arith, none_left, length-append forgotten new, h))
last_of (x ∷ xs) (y ∷ forgotten) new t e h = last_of xs forgotten new t (ap tail e) h

-- With room for a turn, the memory of a key after a turn is appended ends with that turn, holds no
-- more turns than the limit, and is one turn or within the threshold of compression.
pub append_lem :
    (is_cjk_script : ℕ → Bool) (rfc3339 : ℤ → String) (opts : ConversationOptions) (key : String)
    (turn : ConversationTurn) (sessions : Sessions is_cjk_script rfc3339)
    → 1 ≤ opts.recent_turn_limit
    → (mem : ConversationMemory) × (earlier : Turns) × (lookup key
          (append is_cjk_script rfc3339 key turn opts sessions)
        ≡ some mem)
      × (mem.turns ≡ earlier ++ turn ∷ [])
      × (mem.last_interaction ≡ turn.at)
      × (length mem.turns ≤ opts.recent_turn_limit)
      × IsSmall is_cjk_script rfc3339 opts mem.summary mem.turns
unfolding append compress_conversation_memory
append_lem is_cjk_script rfc3339 opts key turn sessions h =
    let before =
      awake is_cjk_script rfc3339 opts turn.at
        (memory_or_new is_cjk_script rfc3339 opts (lookup key sessions)) in
    let r =
      compress-Leaves is_cjk_script rfc3339 opts before.summary (before.turns ++ turn ∷ []) h in
    let last =
      last_of before.turns r.0.forgotten _ turn r.0.recent
        (omega (arith, r.0.newest, length-append before.turns (turn ∷ []))) in
    (_, last.0, lookup-insert_self key _ sessions, last.1, refl, r.1, r.2)
