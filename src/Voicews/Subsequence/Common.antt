-- ===== src/Voicews/Subsequence/Common.antt =====
-- Common subsequences of two lists and the recursion for the length of a longest one.
use mathlib.Core.List.{append-nil, append_assoc}
use agen_sense.Prelude.{
  ℕ, suc, ◌≤◌, List, [], ◌∷◌, ◌++◌, nat_beq, nat_beq_iff, if◌then◌else◌, ◌≡◌, refl, sym, ap, ◌∙◌,
  subst, Bool, true, false, arith,
}
use agen_sense.Voicews.Subsequence.{max}

-- `n` runes that stand in both lists in the same order.
pub data Common : List ℕ → List ℕ → ℕ → Type 0 where
  done : Common [] [] 0
  skip_left : {x : ℕ} {a b : List ℕ} {n : ℕ} → Common a b n → Common (x ∷ a) b n
  skip_right : {y : ℕ} {a b : List ℕ} {n : ℕ} → Common a b n → Common a (y ∷ b) n
  both : {x : ℕ} {a b : List ℕ} {n : ℕ} → Common a b n → Common (x ∷ a) (x ∷ b) (suc n)

unfoldable pub longest : List ℕ → List ℕ → ℕ
longest [] b = 0
longest (x ∷ a) [] = 0
longest (x ∷ a) (y ∷ b) =
    let diagonal = longest a b in
    let above = longest a (y ∷ b) in
    let before = longest (x ∷ a) b in if nat_beq x y then suc diagonal else max before above

pub longest-nil : (a : List ℕ) → longest a [] ≡ 0
unfolding longest
longest-nil [] = refl
longest-nil (x ∷ a) = refl

-- How a rune more on one side changes the recursion.
Grows : List ℕ → List ℕ → Type 0
Grows a b =
    ((x : ℕ) → (longest a b ≤ longest (x ∷ a) b) × (longest (x ∷ a) b ≤ suc (longest a b)))
    × ((y : ℕ) → (longest a b ≤ longest a (y ∷ b)) × (longest a (y ∷ b) ≤ suc (longest a b)))

grow : (a b : List ℕ) → Grows a b
unfolding Grows longest
grow [] [] = (λ x. (omega arith, omega arith), λ y. (omega arith, omega arith))
grow [] (z ∷ b) = (λ x. ground (arith, (grow [] b).0 x), λ y. (omega arith, omega arith))
grow (w ∷ a) [] =
    (λ x. (omega arith, omega arith), λ y. ground (arith, longest-nil a, (grow a []).1 y))
grow (w ∷ a) (z ∷ b) =
    let p = grow a b in
    let q = grow (w ∷ a) b in
    let r = grow a (z ∷ b) in
    (
      λ x. ground (arith, p.0 w, p.1 z, q.0 x, q.1 z, r.0 w),
      λ y. ground (arith, p.0 w, p.1 z, q.1 z, r.0 w, r.1 y),
    )

longest_comm : (a b : List ℕ) → longest a b ≡ longest b a
unfolding longest
longest_comm [] b = sym (longest-nil b)
longest_comm (x ∷ a) [] = refl
longest_comm (x ∷ a) (y ∷ b) =
    ground (arith, longest_comm a b, longest_comm a (y ∷ b), longest_comm (x ∷ a) b)

-- No common subsequence is longer.
pub Common-longest : {a b : List ℕ} {n : ℕ} → Common a b n → n ≤ longest a b
unfolding Grows longest
Common-longest done = omega arith
Common-longest (skip_left {x} {a} {b} s) =
    let h = (grow a b).0 x in omega (arith, Common-longest s, h)
Common-longest (skip_right {y} {a} {b} s) =
    let h = (grow a b).1 y in omega (arith, Common-longest s, h)
Common-longest (both {x} s) = ground (arith, Common-longest s)

Common-nil_right : (b : List ℕ) → Common [] b 0
Common-nil_right [] = done
Common-nil_right (y ∷ b) = skip_right (Common-nil_right b)

Common-nil_left : (a : List ℕ) → Common a [] 0
Common-nil_left [] = done
Common-nil_left (x ∷ a) = skip_left (Common-nil_left a)

Common-choice :
    (c : Bool) {a b : List ℕ} {m n : ℕ}
    → Common a b m
    → Common a b n
    → Common a b (if c then m else n)
Common-choice true s t = s
Common-choice false s t = t

-- One of that length stands in both.
pub longest-Common : (a b : List ℕ) → Common a b (longest a b)
unfolding longest
longest-Common [] b = Common-nil_right b
longest-Common (x ∷ a) [] = Common-nil_left (x ∷ a)
longest-Common (x ∷ a) (y ∷ b) =
    go (nat_beq x y) refl (longest-Common a b) (longest-Common a (y ∷ b)) (longest-Common (x ∷ a) b)
  where
    go :
        (c : Bool)
        → nat_beq x y ≡ c
        → Common a b (longest a b)
        → Common a (y ∷ b) (longest a (y ∷ b))
        → Common (x ∷ a) b (longest (x ∷ a) b)
        → Common
            (x ∷ a)
            (y ∷ b)
            (if c then suc (longest a b) else max (longest (x ∷ a) b) (longest a (y ∷ b)))
    go true h s t u =
        subst (λ z. Common (x ∷ a) (z ∷ b) (suc (longest a b))) ((nat_beq_iff x y).0 h) (both s)
    go false h s t u = Common-choice _ (skip_left t) (skip_right u)

abbrev pub rev : List ℕ → List ℕ
rev [] = []
rev (x ∷ a) = rev a ++ x ∷ []

skip_left_end : {a b : List ℕ} {n : ℕ} (x : ℕ) → Common a b n → Common (a ++ x ∷ []) b n
skip_left_end x done = skip_left done
skip_left_end x (skip_left s) = skip_left (skip_left_end x s)
skip_left_end x (skip_right s) = skip_right (skip_left_end x s)
skip_left_end x (both s) = both (skip_left_end x s)

skip_right_end : {a b : List ℕ} {n : ℕ} (y : ℕ) → Common a b n → Common a (b ++ y ∷ []) n
skip_right_end y done = skip_right done
skip_right_end y (skip_left s) = skip_left (skip_right_end y s)
skip_right_end y (skip_right s) = skip_right (skip_right_end y s)
skip_right_end y (both s) = both (skip_right_end y s)

both_end :
    {a b : List ℕ} {n : ℕ} (x : ℕ) → Common a b n → Common (a ++ x ∷ []) (b ++ x ∷ []) (suc n)
both_end x done = both done
both_end x (skip_left s) = skip_left (both_end x s)
both_end x (skip_right s) = skip_right (both_end x s)
both_end x (both s) = both (both_end x s)

-- Reading both lists from their ends changes nothing.
pub Common-rev : {a b : List ℕ} {n : ℕ} → Common a b n → Common (rev a) (rev b) n
Common-rev done = done
Common-rev (skip_left {x} s) = skip_left_end x (Common-rev s)
Common-rev (skip_right {y} s) = skip_right_end y (Common-rev s)
Common-rev (both {x} s) = both_end x (Common-rev s)

rev-append : (a b : List ℕ) → rev (a ++ b) ≡ rev b ++ rev a
rev-append [] b = sym (append-nil (rev b))
rev-append (x ∷ a) b =
    ap (λ l. l ++ x ∷ []) (rev-append a b) ∙ append_assoc (rev b) (rev a) (x ∷ [])

pub rev-rev : (a : List ℕ) → rev (rev a) ≡ a
rev-rev [] = refl
rev-rev (x ∷ a) = rev-append (rev a) (x ∷ []) ∙ ap (λ l. x ∷ l) (rev-rev a)
