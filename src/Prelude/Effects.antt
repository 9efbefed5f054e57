-- ===== src/Prelude/Effects.antt =====
-- Methods that change a shared object and may return an error. What was written before the error
-- stays written, so the state comes back beside the error too. Models Go's `(T, error)` results:
-- the sentinel errors of internal/device/errors.go and internal/service/types.go, and errors of
-- other packages by their text.
use Prim.Native.String.{String}
use mathlib.Core.Path.{◌≡◌, refl}
use mathlib.Core.Bool.{Bool, true, false}
use agen_sense.Prelude.Tests.{if◌then◌else◌}

pub data Error : Type 0 where
  not_found conflict invalid_input unauthorized expired config_missing : Error
  other : String → Error

pub data Result {ℓ} (A : Type ℓ) : Type ℓ where
  ok : A → Result A
  err : Error → Result A

abbrev pub Exec : Type 0 → Type 0 → Type 0
Exec S A = S → Result A × S

module _ {S A : Type 0} where
  abbrev pub pure : A → Exec S A
  pure a s = (ok a, s)

  abbrev pub raise : Error → Exec S A
  raise e s = (err e, s)

module _ {S A B : Type 0} where
  abbrev pub continue : Result A → (A → Exec S B) → Exec S B
  continue (err e) next s = (err e, s)
  continue (ok a) next s = next a s

  infixl 5 ◌>>=◌ ◌>>◌
  abbrev pub ◌>>=◌ : Exec S A → (A → Exec S B) → Exec S B
  ◌>>=◌ first next s = continue (first s).0 next (first s).1

  abbrev pub ◌>>◌ : Exec S A → Exec S B → Exec S B
  m >> n = m >>= λ _. n

abbrev pub check : Bool → Error → Result (Unit {0})
check true e = ok tt
check false e = err e

-- `if !test { return err }`
abbrev pub ensure : {S : Type 0} → Bool → Error → Exec S (Unit {0})
ensure test e s = (check test e, s)

abbrev pub is_not_found : Error → Bool
is_not_found not_found = true
is_not_found _ = false

-- `result, err := m(); if err == ErrNotFound { return n() }; return result, err`
abbrev pub if_not_found : {S A : Type 0} → Exec S A → Exec S A → Exec S A
if_not_found m n s = elim (m s).0 [
  | ok a ↦ (ok a, (m s).1)
  | err e ↦ if is_not_found e then n (m s).1 else (err e, (m s).1)
]

-- What holds of the result and of the state whenever `m` succeeds from `s`.
abbrev pub Ensures : {S A : Type 0} → Exec S A → S → (A → S → Type 0) → Type 0
Ensures {S} {A} m s P = (a : A) → (m s).0 ≡ ok a → P a (m s).1

-- A block ensures what its rest ensures after each successful first step.
pub Ensures-bind :
    {S A B : Type 0} (m : Exec S A) (f : A → Exec S B) (s : S) (P : B → S → Type 0)
    → ((a : A) → (m s).0 ≡ ok a → Ensures (f a) (m s).1 P)
    → Ensures (m >>= f) s P
Ensures-bind {S} {A} {B} m f s P rest b h = go (m s).0 refl h
  where
    go :
        (r : Result A)
        → (m s).0 ≡ r
        → (continue r f (m s).1).0 ≡ ok b
        → P b (continue r f (m s).1).1
    go (ok a) e h = rest a e b h
    go (err x) e h = absurd (cc)

pub Ensures-check :
    {S A : Type 0} (test : Bool) (e : Error) (n : Exec S A) (s : S) (P : A → S → Type 0)
    → (test ≡ true → Ensures n s P)
    → Ensures (ensure test e >> n) s P
Ensures-check true e n s P rest = rest refl
Ensures-check false e n s P rest = λ a h. absurd (cc)
