-- ===== src/Voicews/Segmenter/Bounds.antt =====
-- How long the segments of realtimeTTSSegmenter are.
use Prim.Native.Char.{Char, code}
use Prim.Native.String.{count}
use text.Mathlib.TextLemmas.{length-append, length-cons, length-nil}
use agen_sense.Prelude.{
  ℕ, ℤ, pos, negsuc, suc, ◌≢◌, String, Bool, true, false, ◌||◌, List, [], ◌∷◌, ◌++◌, ◌≡◌, ◌≤◌, ◌<◌,
  refl, leb_ℤ, pos_part, ◌==◌, ==_false, string_eq, if◌then◌else◌, trim_space, count-trim_space,
  Option, none, some, arith, All,
}
use agen_sense.Voicews.Segmenter.{
  Env, Segmenter, new_segmenter, append_flushed, written, is_end, is_sentence_break, add_rune,
  add_from, flush, positive_or, env_int, max_runes,
}
use agen_sense.Voicews.Segmenter.Laws.{spoken_from, add-add_from}

abbrev IsPositive : ℤ → Type 0
IsPositive z = 1 ≤ pos_part z

positive_or-IsPositive : (o : Option ℤ) (n : ℕ) → IsPositive (positive_or (pos (suc n)) o)
positive_or-IsPositive none n = omega arith
positive_or-IsPositive (some (pos z)) n = ground arith
positive_or-IsPositive (some (negsuc z)) n = ground arith

env_int-IsPositive :
    (env : Env) (name : String) (n : ℕ) → IsPositive (env_int env name (pos (suc n)))
unfolding env_int
env_int-IsPositive env name n =
    go (trim_space (env.getenv name) == "") (env.atoi (trim_space (env.getenv name)))
  where
    go :
        (b : Bool) (o : Option ℤ)
        → IsPositive (if b then pos (suc n) else positive_or (pos (suc n)) o)
    go true o = omega arith
    go false o = positive_or-IsPositive o n

-- The most runes of a segment.
abbrev pub most : Env → ℕ
most env = pos_part (max_runes env)

most-pos : (env : Env) → 1 ≤ most env
unfolding max_runes
most-pos env = env_int-IsPositive env "AGENSENSE_REALTIME_TTS_MAX_RUNES" 27

-- A text that is spoken: not blank, and not longer than `n` runes.
abbrev pub Fits : ℕ → String → Type 0
Fits n x = (x ≢ "") × (count x ≤ n)

-- The segmenter counts its runes and waits with fewer than `n`.
abbrev Waits : ℕ → Segmenter → Type 0
Waits n s = (count s.buf ≡ s.rune_count) × (s.rune_count < n)

All-snoc :
    (n : ℕ) (xs : List String) (x : String)
    → All (Fits n) xs
    → Fits n x
    → All (Fits n) (xs ++ x ∷ [])
All-snoc n [] x a f = (f, tt)
All-snoc n (y ∷ xs) x a f = (a.0, All-snoc n xs x a.1 f)

All-append :
    (n : ℕ) (xs ys : List String) → All (Fits n) xs → All (Fits n) ys → All (Fits n) (xs ++ ys)
All-append n [] ys a b = b
All-append n (y ∷ xs) ys a b = (a.0, All-append n xs ys a.1 b)

flushed-Fits :
    (n : ℕ) (xs : List String) (s : Segmenter)
    → All (Fits n) xs
    → count s.buf ≤ n
    → All (Fits n) (append_flushed xs s).0
unfolding append_flushed
flushed-Fits n xs s a c = go (trim_space s.buf == "") refl
  where
    go :
        (b : Bool)
        → (trim_space s.buf == "") ≡ b
        → All (Fits n) (if b then xs else xs ++ trim_space s.buf ∷ [])
    go true h = a
    go false h =
        All-snoc n xs (trim_space s.buf) a
          (==_false (trim_space s.buf) "" h, omega (arith, count-trim_space s.buf))

flushed-Waits : (n : ℕ) (xs : List String) (s : Segmenter) → 1 ≤ n → Waits n (append_flushed xs s).1
unfolding append_flushed
flushed-Waits n xs s p = (length-nil, omega arith)

written-count : (c : Char) (s : Segmenter) → count (written c s).buf ≡ suc (count s.buf)
written-count c s =
    omega (arith, length-append s.buf (String.◌∷◌ c ""), length-cons c "", length-nil)

module _ (env : Env) where
  at_most : (r n : ℕ) → is_end env r n ≡ false → n < most env
  unfolding is_end
  at_most r n h = go (is_sentence_break r) _ (max_runes env) _ (most-pos env) h
    where
      go :
          (a b : Bool) (z : ℤ) (d : Bool)
          → IsPositive z
          → (a || b || leb_ℤ z (pos n) || d) ≡ false
          → n < pos_part z
      go a b (pos z) d p e = ground arith
      go a b (negsuc z) d p e = absurd (omega arith)

  Sound : List String × Segmenter → Type 0
  Sound r = All (Fits (most env)) r.0 × Waits (most env) r.1

  add_rune-Sound :
      (c : Char) (xs : List String) (s : Segmenter) → Sound (xs, s) → Sound (add_rune env c xs s)
  unfolding add_rune Sound
  add_rune-Sound c xs s w = go (is_end env (code c) (suc s.rune_count)) refl
    where
      go :
          (b : Bool)
          → is_end env (code c) (suc s.rune_count) ≡ b
          → Sound (if b then append_flushed xs (written c s) else (xs, written c s))
      go true h = (
        flushed-Fits (most env) xs (written c s) w.0 (omega (arith, written-count c s, w.1)),
        flushed-Waits (most env) xs (written c s) (most-pos env),
      )
      go false h =
          (w.0, (omega (arith, written-count c s, w.1), at_most (code c) (suc s.rune_count) h))

  add_from-Sound :
      (text : String) (xs : List String) (s : Segmenter)
      → Sound (xs, s)
      → Sound (add_from env text xs s)
  unfolding add_from
  add_from-Sound String.[] xs s w = w
  add_from-Sound (String.◌∷◌ c text) xs s w = add_from-Sound text _ _ (add_rune-Sound c xs s w)

  spoken-Fits :
      (pieces : List String) (s : Segmenter)
      → Waits (most env) s
      → All (Fits (most env)) (spoken_from env pieces s)
  unfolding spoken_from flush Sound
  spoken-Fits [] s w = flushed-Fits (most env) [] s tt (omega (arith, w))
  spoken-Fits (piece ∷ pieces) s w =
      let r = add_from-Sound piece [] s (tt, w) in
      rw (add-add_from env piece s)
        (All-append (most env) _ _ r.0 (spoken-Fits pieces (add_from env piece [] s).1 r.1))

  -- Whatever the environment holds, no segment that is spoken is blank or has more runes than the
  -- limit that is read from it.
  pub spoken_from-Fits :
      (pieces : List String) → All (Fits (most env)) (spoken_from env pieces new_segmenter)
  spoken_from-Fits pieces = spoken-Fits pieces new_segmenter (length-nil, most-pos env)
