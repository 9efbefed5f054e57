-- ===== src/Tests/Speech.antt =====
-- The voice session of internal/voicews/session.go at small inputs: the segments of a reply, the
-- words in common of two texts, and the echo of a spoken segment.
use agen_sense.Prelude.{
  ℕ, ℤ, pos, negsuc, ◌≤◌, ◌+◌, ◌*◌, ◌/◌, String, Bool, true, false, Option, none, some, List, [],
  ◌∷◌, ltb, ltb_ℤ, length, is_space, spread, shown, ◌≡◌, refl, arith, All, if◌then◌else◌,
}
use agen_sense.Voicews.Segmenter.{
  Env, new_segmenter, append_flushed, is_sentence_break, is_soft_break, rune_of, env_int, max_runes,
  soft_min_runes, is_end, add_rune, add_from, add, flush,
}
use agen_sense.Voicews.Segmenter.Laws.{
  spoken_from, whole, shows, spoken_from-whole, shows-spoken_from,
}
use agen_sense.Voicews.Segmenter.Bounds.{most, Fits, spoken_from-Fits}
use agen_sense.Voicews.Subsequence.{fill, rows, longest_common_subsequence_runes}
use agen_sense.Voicews.Subsequence.Common.{Common, done, skip_left, skip_right, both}
use agen_sense.Voicews.Subsequence.Rows.{longest_common_subsequence_runes_lem}

-- An environment that sets nothing.
abbrev bare : Env
bare = record { getenv = λ name. ""; atoi = λ value. none }

abbrev pieces : List String
pieces = "Hi. Yo" ∷ "u the" ∷ "re" ∷ []

two_segments : spoken_from bare pieces new_segmenter ≡ "Hi." ∷ "You there" ∷ []
unfolding spoken_from add add_from add_rune is_end flush append_flushed max_runes soft_min_runes
    env_int is_sentence_break is_soft_break rune_of agen_sense.Prelude.trim_space
two_segments = refl

spoken_from-whole_example :
    spoken_from bare pieces new_segmenter ≡ spoken_from bare (whole bare pieces ∷ []) new_segmenter
spoken_from-whole_example = spoken_from-whole bare pieces

shows-spoken_from_example :
    shows (spoken_from bare pieces new_segmenter) ≡ spread shown (whole bare pieces)
shows-spoken_from_example = shows-spoken_from bare pieces

spoken_from-Fits_example : All (Fits (most bare)) (spoken_from bare pieces new_segmenter)
spoken_from-Fits_example = spoken_from-Fits bare pieces

abbrev left : List ℕ
left = 1 ∷ 2 ∷ 3 ∷ []

abbrev right : List ℕ
right = 2 ∷ 4 ∷ 3 ∷ []

two_common : longest_common_subsequence_runes left right ≡ some 2
unfolding longest_common_subsequence_runes rows fill
two_common = refl

-- One rune in common.
abbrev one_common : Common left right 1
one_common = skip_left (both (skip_left (skip_right (skip_right done))))

longest_common_subsequence_runes_lem_example :
    (n : ℕ) × (longest_common_subsequence_runes left right ≡ some n) × Common left right n × (1 ≤ n)
longest_common_subsequence_runes_lem_example =
    longest_common_subsequence_runes_lem left right one_common
