-- ===== src/Prelude/Runes.antt =====
-- Loops of the program over the characters of a text that write some for each, and how they meet
-- strings.TrimSpace.
use Prim.Native.Nat.{ℕ, ◌≤◌}
use Prim.Native.Char.{Char, code}
use Prim.Native.String.{String, ◌++◌, count}
use mathlib.Core.Path.{◌≡◌, refl, sym, ap, ◌∙◌}
use mathlib.Core.Bool.{Bool, true, false, ◌&&◌}
use native.Mathlib.Omega.{arith}
use text.Mathlib.TextLemmas.{append_assoc, nil-append, cons-append, length-cons}
use agen_sense.Prelude.Tests.{if◌then◌else◌}
use agen_sense.Prelude.Equality.{◌==◌, string_eq, ==_iff}
use agen_sense.Prelude.Text.{is_space, trim_left, trim_right, trim_space}

-- `for _, r := range text { out.WriteString(f(r)) }`
unfoldable pub spread : (Char → String) → String → String
spread f String.[] = ""
spread f (String.◌∷◌ c s) = f c ++ spread f s

pub spread-append :
    (f : Char → String) (s t : String) → spread f (s ++ t) ≡ spread f s ++ spread f t
unfolding spread
spread-append f String.[] t = rw (nil-append t, nil-append (spread f t)) refl
spread-append f (String.◌∷◌ c s) t =
    rw (cons-append c s t, spread-append f s t) (sym (append_assoc (f c) (spread f s) (spread f t)))

-- The loop writes nothing for a space.
abbrev pub SkipsSpaces : (Char → String) → Type 0
SkipsSpaces f = (c : Char) → is_space (code c) ≡ true → f c ≡ ""

module _ (f : Char → String) (skips : SkipsSpaces f) where
  -- A step of a trimming loop, at the test on its character.
  spread-left :
      (c : Char) (s t : String)
      → spread f t ≡ spread f s
      → (b : Bool) → is_space (code c) ≡ b
      → spread f (if b then t else String.◌∷◌ c s) ≡ f c ++ spread f s
  unfolding spread
  spread-left c s t e false h = refl
  spread-left c s t e true h = rw (skips c h, nil-append (spread f s)) e

  spread-right :
      (c : Char) (s t : String)
      → spread f t ≡ spread f s
      → (a b : Bool) → is_space (code c) ≡ a
      → (t == "") ≡ b
      → spread f (if a && b then "" else String.◌∷◌ c t) ≡ f c ++ spread f s
  unfolding spread
  spread-right c s t e false b ha hb = rw e refl
  spread-right c s t e true false ha hb = rw e refl
  spread-right c s t e true true ha hb =
      rw (skips c ha, nil-append (spread f s)) (ap (spread f) (sym ((==_iff t "").0 hb)) ∙ e)

  spread-trim_left : (s : String) → spread f (trim_left s) ≡ spread f s
  unfolding spread trim_left
  spread-trim_left String.[] = refl
  spread-trim_left (String.◌∷◌ c s) = spread-left c s (trim_left s) (spread-trim_left s) _ refl

  spread-trim_right : (s : String) → spread f (trim_right s) ≡ spread f s
  unfolding spread trim_right
  spread-trim_right String.[] = refl
  spread-trim_right (String.◌∷◌ c s) =
      spread-right c s (trim_right s) (spread-trim_right s) _ _ refl refl

  pub spread-trim_space : (s : String) → spread f (trim_space s) ≡ spread f s
  unfolding trim_space
  spread-trim_space s = spread-trim_right (trim_left s) ∙ spread-trim_left s

-- What a text shows: its characters but the spaces.
abbrev pub shown : Char → String
shown c = if is_space (code c) then "" else String.◌∷◌ c ""

pub shown-SkipsSpaces : SkipsSpaces shown
shown-SkipsSpaces c h = rw h refl

count-choice :
    (b : Bool) (s t : String) (n : ℕ) → count s ≤ n → count t ≤ n → count (if b then s else t) ≤ n
count-choice true s t n p q = p
count-choice false s t n p q = q

count-trim_left : (s : String) → count (trim_left s) ≤ count s
unfolding trim_left
count-trim_left String.[] = omega arith
count-trim_left (String.◌∷◌ c s) =
    count-choice (is_space (code c)) (trim_left s) (String.◌∷◌ c s) _
      (omega (arith, count-trim_left s, length-cons c s)) (omega arith)

count-trim_right : (s : String) → count (trim_right s) ≤ count s
unfolding trim_right
count-trim_right String.[] = omega arith
count-trim_right (String.◌∷◌ c s) =
    count-choice (is_space (code c) && trim_right s == "") "" (String.◌∷◌ c (trim_right s)) _
      (omega arith)
      (omega (arith, count-trim_right s, length-cons c s, length-cons c (trim_right s)))

-- A trimmed text is not longer.
pub count-trim_space : (s : String) → count (trim_space s) ≤ count s
unfolding trim_space
count-trim_space s = omega (arith, count-trim_right (trim_left s), count-trim_left s)
