-- ===== src/Voicews/Memory/Tokens.antt =====
-- Estimates of tokens: what cutting a text does to its estimate, and sums over messages.
use Prim.Native.Char.{Char, code}
use Prim.Native.String.{count}
use text.Mathlib.TextLemmas.{cons-ne-nil}
use agen_sense.Prelude.{
  ℕ, zero, suc, ◌+◌, ◌/◌, ◌≤◌, String, Bool, true, false, ◌&&◌, List, [], ◌∷◌, ◌++◌, leb, nat_beq,
  ◌==◌, ==_iff, string_eq, if◌then◌else◌, trim_space, trim_left, trim_right, is_space, ◌≡◌, refl,
  arith,
}
use agen_sense.Provider.Types.{ChatMessage}
use agen_sense.Voicews.Memory.{
  take_runes, truncate_runes, is_token, token_runes, ascii_runes, estimate_tokens,
  estimate_messages_tokens,
}

-- A text that TrimSpace leaves from the right as nothing.
right-blank :
    (c : Char) (s t : String)
    → (if is_space (code c) && t == "" then "" else String.◌∷◌ c s) ≡ ""
    → (is_space (code c) ≡ true) × (t ≡ "")
right-blank c s t e = go (is_space (code c)) refl (t == "") refl e
  where
    go :
        (a : Bool)
        → is_space (code c) ≡ a
        → (b : Bool) → (t == "") ≡ b
        → (if a && b then "" else String.◌∷◌ c s) ≡ ""
        → (is_space (code c) ≡ true) × (t ≡ "")
    go true ha true hb e = (ha, (==_iff t "").0 hb)
    go true ha false hb e = absurd (cons-ne-nil c s e)
    go false ha b hb e = absurd (cons-ne-nil c s e)

right-take_blank : (n : ℕ) (s : String) → trim_right s ≡ "" → trim_right (take_runes n s) ≡ ""
unfolding trim_right take_runes
right-take_blank zero s e = refl
right-take_blank (suc n) String.[] e = refl
right-take_blank (suc n) (String.◌∷◌ c s) e =
    let r = right-blank c (trim_right s) (trim_right s) e in rw (r.0, right-take_blank n s r.1) refl

left-take_blank :
    (n : ℕ) (s : String)
    → trim_right (trim_left s) ≡ ""
    → trim_right (trim_left (take_runes n s)) ≡ ""
unfolding trim_left take_runes trim_right
left-take_blank zero s e = refl
left-take_blank (suc n) String.[] e = refl
left-take_blank (suc n) (String.◌∷◌ c s) e = go (is_space (code c)) e (left-take_blank n s)
  where
    go :
        (b : Bool)
        → trim_right (if b then trim_left s else String.◌∷◌ c s) ≡ ""
        → (trim_right (trim_left s) ≡ "" → trim_right (trim_left (take_runes n s)) ≡ "")
        → trim_right (if b then trim_left (take_runes n s) else String.◌∷◌ c (take_runes n s)) ≡ ""
    go true e f = f e
    go false e f = right-take_blank (suc n) (String.◌∷◌ c s) e

-- A sum over the runes of a text is not larger for a text that is cut before it is trimmed.
module _ (w : String → ℕ) (k : Char → ℕ) (nil : w "" ≡ 0)
    (cons : (c : Char) (s : String) → w (String.◌∷◌ c s) ≡ k c + w s) where
  right-take : (n : ℕ) (s : String) → w (trim_right (take_runes n s)) ≤ w (trim_right s)
  unfolding trim_right take_runes
  right-take zero s = omega (arith, nil)
  right-take (suc n) String.[] = omega arith
  right-take (suc n) (String.◌∷◌ c s) =
      go (is_space (code c)) (trim_right (take_runes n s)) (trim_right s) (right-take_blank n s)
        (right-take n s)
    where
      go :
          (a : Bool) (t u : String)
          → (u ≡ "" → t ≡ "")
          → w t ≤ w u
          → w (if a && t == "" then "" else String.◌∷◌ c t)
            ≤ w (if a && u == "" then "" else String.◌∷◌ c u)
      go false t u f h = omega (arith, cons c t, cons c u)
      go true t u f h = tested (t == "") refl (u == "") refl
        where
          tested :
              (x : Bool)
              → (t == "") ≡ x
              → (y : Bool) → (u == "") ≡ y
              → w (if x then "" else String.◌∷◌ c t) ≤ w (if y then "" else String.◌∷◌ c u)
          tested true hx y hy = omega (arith, nil)
          tested false hx false hy = omega (arith, cons c t, cons c u)
          tested false hx true hy =
              let e = f ((==_iff u "").0 hy) in let e' = (==_iff t "").1 e in absurd (cc)

  left-take :
      (n : ℕ) (s : String)
      → w (trim_right (trim_left (take_runes n s))) ≤ w (trim_right (trim_left s))
  unfolding trim_left take_runes trim_right
  left-take zero s = omega (arith, nil)
  left-take (suc n) String.[] = omega arith
  left-take (suc n) (String.◌∷◌ c s) = go (is_space (code c)) (left-take n s)
    where
      go :
          (b : Bool)
          → w (trim_right (trim_left (take_runes n s))) ≤ w (trim_right (trim_left s))
          → w (trim_right (if b then trim_left (take_runes n s) else String.◌∷◌ c (take_runes n s)))
            ≤ w (trim_right (if b then trim_left s else String.◌∷◌ c s))
      go true h = h
      go false h = right-take (suc n) (String.◌∷◌ c s)

module _ (is_cjk_script : ℕ → Bool) where
  token_runes-take :
      (n : ℕ) (s : String)
      → token_runes is_cjk_script (trim_space (take_runes n s))
        ≤ token_runes is_cjk_script (trim_space s)
  unfolding trim_space token_runes
  token_runes-take =
      left-take (token_runes is_cjk_script) (λ c. if is_token is_cjk_script (code c) then 1 else 0)
        refl (λ c s. ground arith)

  ascii_runes-take :
      (n : ℕ) (s : String)
      → ascii_runes is_cjk_script (trim_space (take_runes n s))
        ≤ ascii_runes is_cjk_script (trim_space s)
  unfolding trim_space ascii_runes
  ascii_runes-take =
      left-take (ascii_runes is_cjk_script) (λ c. if is_token is_cjk_script (code c) then 0 else 1)
        refl (λ c s. ground arith)

  take-blank : (n : ℕ) (s : String) → trim_space s ≡ "" → trim_space (take_runes n s) ≡ ""
  unfolding trim_space
  take-blank = left-take_blank

  estimate_tokens-take :
      (n : ℕ) (s : String)
      → estimate_tokens is_cjk_script (take_runes n s) ≤ estimate_tokens is_cjk_script s
  unfolding estimate_tokens
  estimate_tokens-take n s =
      go (trim_space (take_runes n s) == "") refl (trim_space s == "") refl _ _ _ _
        (token_runes-take n s) (ascii_runes-take n s)
    where
      go :
          (x : Bool)
          → (trim_space (take_runes n s) == "") ≡ x
          → (y : Bool) → (trim_space s == "") ≡ y
          → (t u a b : ℕ) → t ≤ u
          → a ≤ b
          → (if x then 0 else if leb (t + (a + 3) / 4) 0 then 1 else t + (a + 3) / 4)
            ≤ (if y then 0 else if leb (u + (b + 3) / 4) 0 then 1 else u + (b + 3) / 4)
      go true hx y hy t u a b p q = omega arith
      go false hx false hy t u a b p q = ground arith
      go false hx true hy t u a b p q =
          let e =
            (==_iff (trim_space (take_runes n s)) "").1
              (take-blank n s ((==_iff (trim_space s) "").0 hy)) in
          absurd (cc)

  estimate_tokens-empty : estimate_tokens is_cjk_script "" ≡ 0
  unfolding estimate_tokens trim_space trim_left trim_right
  estimate_tokens-empty = refl

  -- A truncated text is not estimated at more.
  pub estimate_tokens-truncate_runes :
      (s : String) (n : ℕ)
      → estimate_tokens is_cjk_script (truncate_runes s n) ≤ estimate_tokens is_cjk_script s
  unfolding truncate_runes
  estimate_tokens-truncate_runes s n = go (nat_beq n 0) (leb (count s) n)
    where
      go :
          (a b : Bool)
          → estimate_tokens is_cjk_script (if a then "" else if b then s else take_runes n s)
            ≤ estimate_tokens is_cjk_script s
      go true b = omega (arith, estimate_tokens-empty)
      go false true = omega arith
      go false false = estimate_tokens-take n s

  -- The estimate of a chat is that of its parts.
  pub estimate_messages_tokens-append :
      (xs ys : List ChatMessage)
      → estimate_messages_tokens is_cjk_script (xs ++ ys)
        ≡ estimate_messages_tokens is_cjk_script xs + estimate_messages_tokens is_cjk_script ys
  unfolding estimate_messages_tokens
  estimate_messages_tokens-append [] ys = omega arith
  estimate_messages_tokens-append (x ∷ xs) ys = omega (arith, estimate_messages_tokens-append xs ys)
