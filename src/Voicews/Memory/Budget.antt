-- ===== src/Voicews/Memory/Budget.antt =====
-- The messages that conversationContextMessages adds fit in the context.
use agen_sense.Prelude.{
  ℕ, ℤ, pos, suc, ◌+◌, ◌*◌, ◌/◌, ◌≤◌, ◌<◌, ◌-ℤ◌, quot, is_positive, pos_part, String, Bool, true,
  false, List, [], ◌∷◌, ◌++◌, leb, ltb, ◌==◌, string_eq, if◌then◌else◌, trim_space, ◌≡◌, refl, ◌⊎◌,
  inl, inr, arith,
}
use agen_sense.Provider.Types.{ChatMessage}
use agen_sense.Voicews.Values.{SessionConfig}
use agen_sense.Voicews.Memory.{
  ConversationTurn, ConversationOptions, estimate_message_tokens, estimate_messages_tokens,
  turn_messages,
}
use agen_sense.Voicews.Memory.Tokens.{estimate_messages_tokens-append}
use agen_sense.Voicews.Memory.Options.{wrap_int-add, wrap_int-sub, wrap_int64-small}
use agen_sense.Voicews.Memory.Store.{Sessions, snapshot}
use agen_sense.Voicews.Memory.Context.{
  Gathered, ConversationContextStats, options_of, conversation_memory_key, summary_messages, gather,
  reverse, within_budget, base_tokens, history_budget, conversation_context_messages,
}

left_within : (x y : ℕ) → is_positive (pos x -ℤ pos y) ≡ true → pos_part (pos x -ℤ pos y) + y ≤ x
unfolding ◌-ℤ◌
left_within x y h = ground arith

module _ (to_lower : String → String) (is_cjk_script : ℕ → Bool) (rfc3339 : ℤ → String) where
  abbrev tokens : List ChatMessage → ℕ
  tokens = estimate_messages_tokens is_cjk_script

  -- Messages with an estimate of their own and of `used` tokens more, within the budget.
  abbrev Fits : ℕ → ℕ → Gathered → Type 0
  Fits budget used r = (tokens r.0 + used ≡ r.1) × (r.1 ≤ budget)

  tokens-nil : tokens [] ≡ 0
  unfolding estimate_messages_tokens
  tokens-nil = refl

  tokens_one :
      (message : ChatMessage)
      → tokens (message ∷ []) ≡ estimate_message_tokens is_cjk_script message
  unfolding estimate_messages_tokens
  tokens_one message = omega arith

  -- A message that fits, or none.
  one-Fits :
      (budget : ℕ) (message : ChatMessage) (blank : Bool)
      → Fits budget 0 (
          if blank
          then ([], 0, 0)
          else if leb (estimate_message_tokens is_cjk_script message) budget
          then (message ∷ [], estimate_message_tokens is_cjk_script message, 0)
          else ([], 0, 0))
  unfolding estimate_messages_tokens
  one-Fits budget message true = (refl, omega arith)
  one-Fits budget message false =
      go (leb (estimate_message_tokens is_cjk_script message) budget) refl
    where
      go :
          (b : Bool)
          → leb (estimate_message_tokens is_cjk_script message) budget ≡ b
          → Fits budget 0 (
              if b
              then (message ∷ [], estimate_message_tokens is_cjk_script message, 0)
              else ([], 0, 0))
      go true h = (omega arith, ground arith)
      go false h = (refl, omega arith)

  summary-Fits :
      (budget : ℕ) (summary : String)
      → Fits budget 0 (summary_messages to_lower is_cjk_script rfc3339 budget summary)
  unfolding summary_messages
  summary-Fits budget summary = one-Fits budget _ (trim_space summary == "")

  gather-Fits :
      (budget used : ℕ) (turns : List ConversationTurn) (r : Gathered)
      → Fits budget used r
      → Fits budget used (gather to_lower is_cjk_script rfc3339 budget turns r)
  unfolding gather
  gather-Fits budget used [] r h = h
  gather-Fits budget used (turn ∷ older) (recent, included, n) h =
      go (ltb budget (included + tokens new)) refl _ _
        (gather-Fits budget used older (recent, included, n) h)
        (gather-Fits budget used older (new ++ recent, included + tokens new, suc n))
    where
      new : List ChatMessage
      new = turn_messages is_cjk_script turn

      go :
          (b : Bool)
          → ltb budget (included + tokens new) ≡ b
          → (skipped taken : Gathered) → Fits budget used skipped
          → (Fits budget used (new ++ recent, included + tokens new, suc n)
              → Fits budget used taken)
          → Fits budget used (if b then skipped else taken)
      go true e skipped taken p q = p
      go false e skipped taken p q = q (
        omega (arith, h.0, estimate_messages_tokens-append is_cjk_script new recent),
        ground arith,
      )

  within_budget-Fits :
      (budget : ℕ) (summary : String) (turns : List ConversationTurn)
      → Fits budget 0 (within_budget to_lower is_cjk_script rfc3339 budget summary turns)
  within_budget-Fits budget summary turns =
      let s = summary_messages to_lower is_cjk_script rfc3339 budget summary in
      let p = summary-Fits budget summary in
      let g = gather to_lower is_cjk_script rfc3339 budget (reverse turns []) ([], s.1, s.2) in
      let q =
        gather-Fits budget s.1 (reverse turns []) ([], s.1, s.2) (omega (arith, tokens-nil), p.1) in
      (omega (arith, p.0, q.0, estimate_messages_tokens-append is_cjk_script s.0 g.0), q.1)

  abbrev IsBounded : ConversationOptions → List ChatMessage → String → List ChatMessage → ℕ → Type 0
  IsBounded opts base_messages latest out included =
      (tokens out ≡ included)
      × ((out ≡ [])
          ⊎ (tokens (base_messages ++ out ++ record { role = "user"; content = latest } ∷ [])
                + pos_part opts.output_reserve_tokens
              ≤ opts.context_limit_tokens * opts.target_percent / 100))

  -- What the answer and the chat so far take is no number that wraps.
  abbrev pub IsInRange : ConversationOptions → List ChatMessage → String → Type 0
  IsInRange opts base_messages latest =
      (opts.output_reserve_tokens ≡ pos (pos_part opts.output_reserve_tokens))
      × (opts.context_limit_tokens * opts.target_percent < 9223372036854775808)
      × (tokens base_messages
            + estimate_message_tokens is_cjk_script (record { role = "user"; content = latest })
            + pos_part opts.output_reserve_tokens
          < 9223372036854775808)

  history_budget_lem :
      (opts : ConversationOptions) (base_messages : List ChatMessage) (latest : String)
      → IsInRange opts base_messages latest
      → history_budget to_lower is_cjk_script rfc3339 opts base_messages latest
        ≡ pos (opts.context_limit_tokens * opts.target_percent / 100)
          -ℤ pos (
              tokens base_messages
              + estimate_message_tokens is_cjk_script (record { role = "user"; content = latest })
              + pos_part opts.output_reserve_tokens)
  unfolding history_budget base_tokens quot
  history_budget_lem opts base_messages latest (reserve, product, sum) =
      rw (reserve, wrap_int64-small _ product, wrap_int-add _ _ sum)
        (wrap_int-sub _ _ (omega (arith, product)) sum)

  chat-Fits :
      (opts : ConversationOptions) (base_messages : List ChatMessage) (latest : String)
      (out : List ChatMessage) (included : ℕ)
      → IsInRange opts base_messages latest
      → is_positive (history_budget to_lower is_cjk_script rfc3339 opts base_messages latest) ≡ true
      → (tokens out + 0 ≡ included)
        × (included
            ≤ pos_part (history_budget to_lower is_cjk_script rfc3339 opts base_messages latest))
      → IsBounded opts base_messages latest out included
  chat-Fits opts base_messages latest out included range positive h =
      let last : List ChatMessage = record { role = "user"; content = latest } ∷ [] in
      let target = opts.context_limit_tokens * opts.target_percent / 100 in
      let budget =
        pos_part (history_budget to_lower is_cjk_script rfc3339 opts base_messages latest) in
      let room : budget + (tokens base_messages + tokens last + pos_part opts.output_reserve_tokens)
          ≤ target =
        rw
          (
            history_budget_lem opts base_messages latest range,
            tokens_one (record { role = "user"; content = latest }),
          )
          (left_within _ _ (rw (history_budget_lem opts base_messages latest range) at positive)) in
      let e1 : tokens (base_messages ++ out ++ last) ≡ tokens (base_messages ++ out) + tokens last =
        estimate_messages_tokens-append is_cjk_script (base_messages ++ out) last in
      let e2 : tokens (base_messages ++ out) ≡ tokens base_messages + tokens out =
        estimate_messages_tokens-append is_cjk_script base_messages out in
      (omega (arith, h.0), inr (sums _ _ _ _ _ _ _ _ _ room e1 e2 h.0 h.1))
    where
      sums :
          (budget base latest reserve target all late own total : ℕ)
          → budget + (base + latest + reserve) ≤ target
          → all ≡ late + latest
          → late ≡ base + own
          → own + 0 ≡ total
          → total ≤ budget
          → all + reserve ≤ target
      sums budget base latest reserve target all late own total a b c d e = omega arith

  -- When the reserve for the answer is not negative, and neither the estimate of the chat with it
  -- nor the product of the context limit and the target percentage leaves the range of int, what
  -- conversationContextMessages adds to the chat has the estimate that its statistics say, and if
  -- it adds anything, the chat with it, the latest text of the user and the reserve are estimated
  -- within the target share of the context limit.
  pub conversation_context_messages_lem :
      (api_key : String) (cfg : SessionConfig) (now : ℤ) (base_messages : List ChatMessage)
      (latest : String) (sessions : Sessions is_cjk_script rfc3339)
      → IsInRange (options_of to_lower is_cjk_script rfc3339 cfg) base_messages latest
      → let opts = options_of to_lower is_cjk_script rfc3339 cfg in
        let ((out, stats), after) =
          conversation_context_messages to_lower is_cjk_script rfc3339 api_key cfg now base_messages
            latest sessions in
        let chat = base_messages ++ out ++ record { role = "user"; content = latest } ∷ [] in
        (tokens out ≡ stats.included_tokens)
        × ((out ≡ [])
            ⊎ (tokens chat + pos_part opts.output_reserve_tokens
                ≤ opts.context_limit_tokens * opts.target_percent / 100))
  unfolding conversation_context_messages
  conversation_context_messages_lem api_key cfg now base_messages latest sessions range =
      let opts = options_of to_lower is_cjk_script rfc3339 cfg in
      let budget = history_budget to_lower is_cjk_script rfc3339 opts base_messages latest in
      let seen =
        snapshot is_cjk_script rfc3339 (conversation_memory_key api_key cfg) now opts sessions in
      go (conversation_memory_key api_key cfg == "") (is_positive budget) refl _ _ _
        (tokens-nil, inl refl)
        (λ positive.
          chat-Fits opts base_messages latest _ _ range positive
            (within_budget-Fits (pos_part budget) seen.0.0 seen.0.1))
        (tokens-nil, inl refl)
    where
      go :
          (a b : Bool)
          → is_positive (
              history_budget to_lower is_cjk_script rfc3339
                (options_of to_lower is_cjk_script rfc3339 cfg)
                base_messages
                latest)
            ≡ b
          → (x y z : (List ChatMessage × ConversationContextStats) × Sessions is_cjk_script rfc3339)
          → IsBounded
              (options_of to_lower is_cjk_script rfc3339 cfg)
              base_messages
              latest
              x.0.0
              x.0.1.included_tokens
          → (is_positive (
                  history_budget to_lower is_cjk_script rfc3339
                    (options_of to_lower is_cjk_script rfc3339 cfg)
                    base_messages
                    latest)
                ≡ true
              → IsBounded
                  (options_of to_lower is_cjk_script rfc3339 cfg)
                  base_messages
                  latest
                  y.0.0
                  y.0.1.included_tokens)
          → IsBounded
              (options_of to_lower is_cjk_script rfc3339 cfg)
              base_messages
              latest
              z.0.0
              z.0.1.included_tokens
          → let r = if a then x else if b then y else z in
            IsBounded
              (options_of to_lower is_cjk_script rfc3339 cfg)
              base_messages
              latest
              r.0.0
              r.0.1.included_tokens
      go true b h x y z p q r = p
      go false true h x y z p q r = q h
      go false false h x y z p q r = r
