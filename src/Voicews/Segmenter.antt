-- ===== src/Voicews/Segmenter.antt =====
-- realtimeTTSSegmenter of internal/voicews/session.go: the text of a reply, which comes in pieces, is
-- cut into the texts that are spoken. os.Getenv is a parameter, and so is strconv.Atoi, `none` for
-- its error.
pub mod Laws
pub mod Bounds
use Prim.Native.Char.{Char, code}
use Prim.Native.String.{count}
use Prim.Native.String.{◌++◌ as join}
use agen_sense.Prelude.{
  ℕ, ℤ, pos, suc, String, Bool, true, false, not, ◌&&◌, ◌||◌, Option, none, some, List, [], ◌∷◌,
  ◌++◌, nat_beq, leb_ℤ, ltb_ℤ, is_positive, ◌==◌, string_eq, if◌then◌else◌, trim_space,
}

-- A case of a switch on a rune.
unfoldable pub rune_of : ℕ → List ℕ → Bool
rune_of r [] = false
rune_of r (x ∷ xs) = nat_beq r x || rune_of r xs

unfoldable pub is_sentence_break : ℕ → Bool
is_sentence_break r = rune_of r (b'.' ∷ b'!' ∷ b'?' ∷ b';' ∷ 0x3002 ∷ 0xff01 ∷ 0xff1f ∷ 0xff1b ∷ [])

unfoldable pub is_soft_break : ℕ → Bool
is_soft_break r = rune_of r (b',' ∷ b':' ∷ 0xff0c ∷ 0x3001 ∷ 0xff1a ∷ [])

-- os.Getenv and strconv.Atoi.
pub record Env : Type 0 where
  pub getenv : String → String
  pub atoi : String → Option ℤ

abbrev pub positive_or : ℤ → Option ℤ → ℤ
positive_or fallback none = fallback
positive_or fallback (some parsed) = if is_positive parsed then parsed else fallback

-- realtimeTTSEnvInt
unfoldable pub env_int : Env → String → ℤ → ℤ
env_int env name fallback =
    let value = trim_space (env.getenv name) in
    if value == "" then fallback else positive_or fallback (env.atoi value)

unfoldable pub max_runes : Env → ℤ
max_runes env = env_int env "AGENSENSE_REALTIME_TTS_MAX_RUNES" (pos 28)

unfoldable pub soft_min_runes : Env → ℤ → ℤ
soft_min_runes env most =
    let soft_min = env_int env "AGENSENSE_REALTIME_TTS_SOFT_MIN_RUNES" (pos 20) in
    if ltb_ℤ most soft_min then most else soft_min

pub record Segmenter : Type 0 where
  pub buf : String
  pub rune_count : ℕ

abbrev pub new_segmenter : Segmenter
new_segmenter = record { buf = ""; rune_count = 0 }

-- appendFlushedRealtimeTTSSegment: the segments after it and the segmenter after it.
unfoldable pub append_flushed : List String → Segmenter → List String × Segmenter
append_flushed segments s =
    let segment = trim_space s.buf in
    (if segment == "" then segments else segments ++ segment ∷ [], new_segmenter)

-- WriteRune, and the count of the runes.
abbrev pub written : Char → Segmenter → Segmenter
written c s = record { buf = join s.buf (String.◌∷◌ c ""); rune_count = suc s.rune_count }

module _ (env : Env) where
  -- The test that ends a segment after the rune `r`.
  unfoldable pub is_end : ℕ → ℕ → Bool
  is_end r n =
      is_sentence_break r
      || nat_beq r b'\n'
      || leb_ℤ (max_runes env) (pos n)
      || (leb_ℤ (soft_min_runes env (max_runes env)) (pos n) && is_soft_break r)

  -- The body of the loop of Add.
  unfoldable pub add_rune : Char → List String → Segmenter → List String × Segmenter
  add_rune c segments s =
      if is_end (code c) (suc s.rune_count)
      then append_flushed segments (written c s)
      else (segments, written c s)

  unfoldable pub add_from : String → List String → Segmenter → List String × Segmenter
  add_from String.[] segments s = (segments, s)
  add_from (String.◌∷◌ c text) segments s =
      let next = add_rune c segments s in add_from text next.0 next.1

  -- Add. A text without runes gives no segments, as the loop does.
  unfoldable pub add : String → Segmenter → List String × Segmenter
  add text s = if text == "" then ([], s) else add_from text [] s

unfoldable pub flush : Segmenter → List String × Segmenter
flush s = append_flushed [] s
