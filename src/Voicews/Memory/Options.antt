-- ===== src/Voicews/Memory/Options.antt =====
-- conversationOptionsFromConfig of internal/voicews/session.go. A duration is an int64 that
-- wraps. The model name is matched after strings.ToLower, a parameter.
use agen_sense.Prelude.{
  ℕ, ℤ, pos, negsuc, suc, ltb_ℤ, ◌+◌, ◌+ℤ◌, ◌-ℤ◌, ◌<◌, ◌-◌, ◌*◌, ◌%◌, ◌≤◌, pos_part, String, true,
  ◌||◌, Option, none, some, ltb, ◌==◌, string_eq, if◌then◌else◌, trim_space, ◌≡◌, refl, arith,
}
use agen_sense.Voicews.Values.{Any, number, mapping, Entries, no_entries, value_at}
use agen_sense.Voicews.Memory.{ConversationOptions}
use agen_sense.Voicews.Echo.{contains, runes}

abbrev pub as_entries : Option Any → Entries
as_entries (some (mapping m)) = m
as_entries _ = no_entries

-- mapValue; a nil map has no entries.
unfoldable pub map_value : Entries → String → Entries
map_value source key = as_entries (value_at key source)

abbrev pub as_positive : Option Any → Option ℤ
as_positive (some (number value true)) = some value
as_positive _ = none

-- positiveIntValue of an entry. The integer of a positive number out of the range of int may be
-- negative.
unfoldable pub positive_int_value : Entries → String → Option ℤ
positive_int_value scoped key = as_positive (value_at key scoped)

unfoldable pub clamp_int : ℤ → ℕ → ℕ → ℕ
clamp_int value least most =
    if ltb_ℤ value (pos least)
    then least
    else if ltb_ℤ (pos most) value
    then most
    else pos_part value

-- An int64 of `n` modulo 2^64.
unfoldable pub wrap_int64 : ℕ → ℤ
wrap_int64 n =
    let m = n % 18446744073709551616 in
    if ltb m 9223372036854775808 then pos m else negsuc (18446744073709551616 - m - 1)

-- An int64 of any integer, modulo 2^64.
unfoldable pub wrap_int : ℤ → ℤ
wrap_int (pos n) = wrap_int64 n
wrap_int (negsuc n) = wrap_int64 (18446744073709551616 - suc n % 18446744073709551616)

-- `time.Duration(v) * time.Second`
abbrev pub seconds : ℤ → ℤ
seconds (pos n) = wrap_int (pos (n * 1000000000))
seconds (negsuc n) = wrap_int (negsuc (suc n * 1000000000 - 1))

-- One `if value, ok := positiveIntValue(...); ok` of the inner loop.
abbrev pub set_if :
    Option ℤ
    → (ℤ → ConversationOptions → ConversationOptions)
    → ConversationOptions
    → ConversationOptions
set_if none f o = o
set_if (some value) f o = f value o

-- A negative limit is kept as 0: the floor raises both.
abbrev pub set_context : ℤ → ConversationOptions → ConversationOptions
set_context v o = record o { context_limit_tokens = pos_part v }

abbrev pub set_target : ℤ → ConversationOptions → ConversationOptions
set_target v o = record o { target_percent = clamp_int v 20 95 }

abbrev pub set_compress : ℤ → ConversationOptions → ConversationOptions
set_compress v o = record o { compress_percent = clamp_int v o.target_percent 98 }

abbrev pub set_reserve : ℤ → ConversationOptions → ConversationOptions
set_reserve v o = record o { output_reserve_tokens = v }

abbrev pub set_recent : ℤ → ConversationOptions → ConversationOptions
set_recent v o = record o { recent_turn_limit = clamp_int v 1 32 }

abbrev pub set_idle : ℤ → ConversationOptions → ConversationOptions
set_idle v o = record o { idle_timeout = seconds v }

abbrev pub set_summary : ℤ → ConversationOptions → ConversationOptions
set_summary v o = record o { summary_rune_limit = clamp_int v 400 12000 }

-- The body of the inner loop. An empty map has none of its keys.
unfoldable pub scoped_options : Entries → ConversationOptions → ConversationOptions
scoped_options scoped o = set_if (positive_int_value scoped "summary_rune_limit") set_summary (
    set_if (positive_int_value scoped "idle_timeout_seconds") set_idle (
      set_if (positive_int_value scoped "recent_turns") set_recent (
        set_if (positive_int_value scoped "output_reserve_tokens") set_reserve (
          set_if (positive_int_value scoped "compress_context_percent") set_compress (
            set_if (positive_int_value scoped "target_context_percent") set_target
              (set_if (positive_int_value scoped "max_context_tokens") set_context o))))))

unfoldable pub source_options : Entries → ConversationOptions → ConversationOptions
source_options source opts =
    scoped_options (map_value source "session_context")
      (scoped_options (map_value source "context_management") (scoped_options source opts))

unfoldable pub with_floors : ConversationOptions → ConversationOptions
with_floors o = record o {
  context_limit_tokens = if ltb o.context_limit_tokens 2048 then 2048 else o.context_limit_tokens;
  compress_percent =
      if ltb o.compress_percent o.target_percent then o.target_percent else o.compress_percent;
}

-- Where nothing wraps.
pub wrap_int-sub :
    (a b : ℕ)
    → a < 9223372036854775808
    → b < 9223372036854775808
    → wrap_int (pos a -ℤ pos b) ≡ pos a -ℤ pos b
unfolding wrap_int ◌-ℤ◌ wrap_int64
wrap_int-sub a b h k = ground arith

pub wrap_int-add : (a b : ℕ) → a + b < 9223372036854775808 → wrap_int (pos a +ℤ pos b) ≡ pos (a + b)
unfolding wrap_int ◌+ℤ◌ wrap_int64
wrap_int-add a b h = ground arith

pub wrap_int64-small : (n : ℕ) → n < 9223372036854775808 → wrap_int64 n ≡ pos n
unfolding wrap_int64
wrap_int64-small n h = ground arith

module _ (to_lower : String → String) where
  unfoldable pub infer_model_context_limit_tokens : String → ℕ
  infer_model_context_limit_tokens model =
      let normalized = to_lower (trim_space model) in
      let has = λ (part : String). contains (runes normalized) (runes part) in
      if normalized == ""
      then 32768
      else if has "1m" || has "1000k" || has "1048k"
      then 1048576
      else if has "512k"
      then 524288
      else if has "256k" || has "262k" || has "qwen3.6"
      then 262144
      else if has "128k" || has "qwen3" || has "qwen2.5"
      then 131072
      else if has "64k"
      then 65536
      else if has "32k"
      then 32768
      else if has "16k"
      then 16384
      else if has "8k"
      then 8192
      else if has "4k"
      then 4096
      else 32768

  -- From the model, the metadata and the UI context of the configuration.
  unfoldable pub conversation_options_from_config : String → Entries → Entries → ConversationOptions
  conversation_options_from_config model metadata ui_context = with_floors (
      source_options ui_context (
        source_options metadata (record {
          context_limit_tokens = infer_model_context_limit_tokens model;
          target_percent = 70;
          compress_percent = 80;
          output_reserve_tokens = pos 768;
          recent_turn_limit = 6;
          idle_timeout = pos 180000000000;
          summary_rune_limit = 2400;
        })))

-- Options that the clamps leave.
pub record IsSane (o : ConversationOptions) : Type 0 where
  target : (20 ≤ o.target_percent) × (o.target_percent ≤ 95)
  compress : o.compress_percent ≤ 98
  recent : (1 ≤ o.recent_turn_limit) × (o.recent_turn_limit ≤ 32)
  summary : (400 ≤ o.summary_rune_limit) × (o.summary_rune_limit ≤ 12000)

clamp_int-bounds : (v : ℤ) (a b : ℕ) → a ≤ b → (a ≤ clamp_int v a b) × (clamp_int v a b ≤ b)
unfolding clamp_int
clamp_int-bounds v a b h = ground arith

-- A setter keeps sane options sane.
abbrev Keeps : (ℤ → ConversationOptions → ConversationOptions) → Type 0
Keeps f = (v : ℤ) (o : ConversationOptions) → IsSane o → IsSane (f v o)

set_if-IsSane :
    (x : Option ℤ) (f : ℤ → ConversationOptions → ConversationOptions) (o : ConversationOptions)
    → Keeps f
    → IsSane o
    → IsSane (set_if x f o)
set_if-IsSane none f o keeps h = h
set_if-IsSane (some v) f o keeps h = keeps v o h

target-Keeps : Keeps set_target
target-Keeps v o h = record {
  target = clamp_int-bounds v 20 95 (omega arith);
  compress = h.compress;
  recent = h.recent;
  summary = h.summary;
}

compress-Keeps : Keeps set_compress
compress-Keeps v o h = record {
  target = h.target;
  compress =
      let most = h.target.1 in let r = clamp_int-bounds v o.target_percent 98 (omega arith) in r.1;
  recent = h.recent;
  summary = h.summary;
}

recent-Keeps : Keeps set_recent
recent-Keeps v o h = record {
  target = h.target;
  compress = h.compress;
  recent = clamp_int-bounds v 1 32 (omega arith);
  summary = h.summary;
}

summary-Keeps : Keeps set_summary
summary-Keeps v o h = record {
  target = h.target;
  compress = h.compress;
  recent = h.recent;
  summary = clamp_int-bounds v 400 12000 (omega arith);
}

-- A setter of a field that the clamps leave alone.
same :
    (o p : ConversationOptions)
    → (o.target_percent ≡ p.target_percent)
      × (o.compress_percent ≡ p.compress_percent)
      × (o.recent_turn_limit ≡ p.recent_turn_limit)
      × (o.summary_rune_limit ≡ p.summary_rune_limit)
    → IsSane o
    → IsSane p
same o p e h = record {
  target = (omega (arith, e, h.target), omega (arith, e, h.target));
  compress = omega (arith, e, h.compress);
  recent = (omega (arith, e, h.recent), omega (arith, e, h.recent));
  summary = (omega (arith, e, h.summary), omega (arith, e, h.summary));
}

scoped-IsSane :
    (scoped : Entries) (o : ConversationOptions) → IsSane o → IsSane (scoped_options scoped o)
unfolding scoped_options
scoped-IsSane scoped o h =
    set_if-IsSane (positive_int_value scoped "summary_rune_limit") set_summary _ summary-Keeps (
      set_if-IsSane (positive_int_value scoped "idle_timeout_seconds") set_idle _
        (λ v p. same p (set_idle v p) (refl, refl, refl, refl))
        (set_if-IsSane (positive_int_value scoped "recent_turns") set_recent _ recent-Keeps (
          set_if-IsSane (positive_int_value scoped "output_reserve_tokens") set_reserve _
            (λ v p. same p (set_reserve v p) (refl, refl, refl, refl))
            (set_if-IsSane (positive_int_value scoped "compress_context_percent") set_compress _
              compress-Keeps
              (set_if-IsSane (positive_int_value scoped "target_context_percent") set_target _
                target-Keeps
                (set_if-IsSane (positive_int_value scoped "max_context_tokens") set_context o
                  (λ v p. same p (set_context v p) (refl, refl, refl, refl)) h))))))

source-IsSane :
    (source : Entries) (o : ConversationOptions) → IsSane o → IsSane (source_options source o)
unfolding source_options
source-IsSane source o h = scoped-IsSane _ _ (scoped-IsSane _ _ (scoped-IsSane source o h))

-- Whatever the model and the client's metadata say, the context limit is at least 2048 tokens, the
-- percentages are ordered, the target from 20 to 95 and the compression at most 98, at least 1 and
-- at most 32 turns are kept, and the summary has from 400 to 12000 runes.
pub conversation_options_from_config_bounds :
    (to_lower : String → String) (model : String) (metadata ui_context : Entries)
    → let o = conversation_options_from_config to_lower model metadata ui_context in
      (2048 ≤ o.context_limit_tokens)
      × (20 ≤ o.target_percent)
      × (o.target_percent ≤ 95)
      × (o.target_percent ≤ o.compress_percent)
      × (o.compress_percent ≤ 98)
      × (1 ≤ o.recent_turn_limit)
      × (o.recent_turn_limit ≤ 32)
      × (400 ≤ o.summary_rune_limit)
      × (o.summary_rune_limit ≤ 12000)
unfolding conversation_options_from_config with_floors
conversation_options_from_config_bounds to_lower model metadata ui_context = floors _ (
    source-IsSane ui_context _ (
      source-IsSane metadata _ (record {
        target = (omega arith, omega arith);
        compress = omega arith;
        recent = (omega arith, omega arith);
        summary = (omega arith, omega arith);
      })))
  where
    floors :
        (p : ConversationOptions)
        → IsSane p
        → let o = with_floors p in
          (2048 ≤ o.context_limit_tokens)
          × (20 ≤ o.target_percent)
          × (o.target_percent ≤ 95)
          × (o.target_percent ≤ o.compress_percent)
          × (o.compress_percent ≤ 98)
          × (1 ≤ o.recent_turn_limit)
          × (o.recent_turn_limit ≤ 32)
          × (400 ≤ o.summary_rune_limit)
          × (o.summary_rune_limit ≤ 12000)
    floors p h = ground (arith, h.target, h.compress, h.recent, h.summary)
