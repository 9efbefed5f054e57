-- ===== src/Voicews/Subsequence.antt =====
-- longestCommonSubsequenceRunes of internal/voicews/session.go, over the runes of its two texts. A row
-- is the slice `current` or `previous`; a read past its end, where Go panics, is `none`. The code
-- sets the row that it reuses to 0 and then writes all of it but the first cell, so a new row is 0
-- and the cells that the inner loop writes.
pub mod Common
pub mod Rows
use agen_sense.Prelude.{
  ℕ, zero, suc, ◌+◌, Option, none, some, List, [], ◌∷◌, length, leb, nat_beq, if◌then◌else◌,
}

abbrev pub max : ℕ → ℕ → ℕ
max a b = if leb a b then b else a

abbrev pub put : ℕ → Option (List ℕ) → Option (List ℕ)
put n none = none
put n (some row) = some (n ∷ row)

-- The inner loop: the cells of `current` after the one that holds `left_cell`, from the runes of the
-- right text that are left and the cells of `previous` from the same place on.
unfoldable pub fill : ℕ → List ℕ → List ℕ → ℕ → Option (List ℕ)
fill lr [] previous left_cell = some []
fill lr (rr ∷ right) [] left_cell = none
fill lr (rr ∷ right) (diagonal ∷ []) left_cell = none
fill lr (rr ∷ right) (diagonal ∷ above ∷ previous) left_cell =
    let cell = if nat_beq lr rr then suc diagonal else max left_cell above in
    put cell (fill lr right (above ∷ previous) cell)

abbrev pub zeros : ℕ → List ℕ
zeros zero = []
zeros (suc n) = 0 ∷ zeros n

-- The outer loop.
unfoldable pub rows : List ℕ → List ℕ → List ℕ → Option (List ℕ)
rows [] right previous = some previous
rows (lr ∷ left) right previous = elim (put 0 (fill lr right previous 0)) [
  | none ↦ none
  | some current ↦ rows left right current
]

abbrev pub cell_at : ℕ → List ℕ → Option ℕ
cell_at n [] = none
cell_at zero (x ∷ xs) = some x
cell_at (suc n) (x ∷ xs) = cell_at n xs

abbrev read_last : ℕ → Option (List ℕ) → Option ℕ
read_last n none = none
read_last n (some row) = cell_at n row

unfoldable pub longest_common_subsequence_runes : List ℕ → List ℕ → Option ℕ
longest_common_subsequence_runes [] right = some 0
longest_common_subsequence_runes (l ∷ left) [] = some 0
longest_common_subsequence_runes (l ∷ left) (r ∷ right) =
    read_last (length (r ∷ right)) (rows (l ∷ left) (r ∷ right) (zeros (suc (length (r ∷ right)))))
