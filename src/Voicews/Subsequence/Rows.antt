-- ===== src/Voicews/Subsequence/Rows.antt =====
-- The rows hold the lengths of longest common subsequences.
use mathlib.Core.List.{append-nil, append_assoc}
use agen_sense.Prelude.{
  ℕ, suc, ◌≤◌, none, some, List, [], ◌∷◌, ◌++◌, length, ◌≡◌, refl, sym, ap, ◌∙◌, subst,
}
use agen_sense.Voicews.Subsequence.{
  put, fill, zeros, rows, cell_at, longest_common_subsequence_runes,
}
use agen_sense.Voicews.Subsequence.Common.{
  Common, longest, longest-nil, Common-longest, longest-Common, rev, Common-rev, rev-rev,
}

-- The cells of the row of `a` after the one of `p`, when `right` is left.
after : List ℕ → List ℕ → List ℕ → List ℕ
after a p [] = []
after a p (r ∷ right) = longest a (r ∷ p) ∷ after a (r ∷ p) right

abbrev row : List ℕ → List ℕ → List ℕ → List ℕ
row a p right = longest a p ∷ after a p right

fill-row :
    (lr : ℕ) (a p right : List ℕ)
    → fill lr right (row a p right) (longest (lr ∷ a) p) ≡ some (after (lr ∷ a) p right)
unfolding fill after longest
fill-row lr a p [] = refl
fill-row lr a p (r ∷ right) = rw (fill-row lr a (r ∷ p) right) refl

fill_first :
    (lr : ℕ) (a right : List ℕ) → fill lr right (row a [] right) 0 ≡ some (after (lr ∷ a) [] right)
unfolding longest
fill_first lr a right = fill-row lr a [] right

rows-row :
    (left a right : List ℕ) → rows left right (row a [] right) ≡ some (row (rev left ++ a) [] right)
unfolding rows longest
rows-row [] a right = refl
rows-row (l ∷ left) a right =
    ap (λ o. elim (put 0 o) [ none ↦ none | some current ↦ rows left right current ])
      (fill_first l a right)
    ∙ rows-row left (l ∷ a) right
    ∙ ap (λ t. some (row t [] right)) (sym (append_assoc (rev left) (l ∷ []) a))

zeros-row : (p right : List ℕ) → zeros (suc (length right)) ≡ row [] p right
unfolding longest after
zeros-row p [] = refl
zeros-row p (r ∷ right) = ap (λ t. 0 ∷ t) (zeros-row (r ∷ p) right)

last-row :
    (a p right : List ℕ)
    → cell_at (length right) (row a p right) ≡ some (longest a (rev right ++ p))
unfolding after
last-row a p [] = refl
last-row a p (r ∷ right) =
    last-row a (r ∷ p) right
    ∙ ap (λ t. some (longest a t)) (sym (append_assoc (rev right) (r ∷ []) p))

lcs-longest :
    (left right : List ℕ)
    → longest_common_subsequence_runes left right ≡ some (longest (rev left) (rev right))
unfolding longest_common_subsequence_runes longest
lcs-longest [] right = refl
lcs-longest (l ∷ left) [] = ap some (sym (longest-nil (rev (l ∷ left))))
lcs-longest (l ∷ left) (r ∷ right) =
    rw (zeros-row [] (r ∷ right), rows-row (l ∷ left) [] (r ∷ right))
      (last-row (rev (l ∷ left) ++ []) [] (r ∷ right)
        ∙ ap some (
            ap (λ t. longest (rev (l ∷ left) ++ []) t) (append-nil (rev (r ∷ right)))
            ∙ ap (λ t. longest t (rev (r ∷ right))) (append-nil (rev (l ∷ left)))))

-- Given any common subsequence of two texts, the two rows never run out of range, and what
-- longestCommonSubsequenceRunes returns is the length of a common subsequence that is at least as
-- long as the given one.
pub longest_common_subsequence_runes_lem :
    (left right : List ℕ) {m : ℕ} (other : Common left right m)
    → (n : ℕ) × (longest_common_subsequence_runes left right ≡ some n)
      × Common left right n
      × (m ≤ n)
longest_common_subsequence_runes_lem left right {m} other = (
  longest (rev left) (rev right),
  lcs-longest left right,
  subst (λ a. Common a right (longest (rev left) (rev right))) (rev-rev left)
      (subst (λ b. Common (rev (rev left)) b (longest (rev left) (rev right))) (rev-rev right)
        (Common-rev (longest-Common (rev left) (rev right)))),
  Common-longest (Common-rev other),
)
