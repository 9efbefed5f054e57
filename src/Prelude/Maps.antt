-- ===== src/Prelude/Maps.antt =====
-- Go's maps: an association list with one entry for each key that was written. The order of the
-- entries stands for one order of a `range` loop over the map, which Go leaves open.
use mathlib.Core.Path.{◌≡◌, refl, ap, ◌∙◌}
use mathlib.Core.Option.{Option, none, some}
use mathlib.Core.List.{List, [], ◌∷◌}
use native.Mathlib.Omega.{arith}
use agen_sense.Prelude.Tests.{if◌then◌else◌}
use agen_sense.Prelude.Equality.{Eq, ◌==◌, ==_refl}

abbrev pub Map {ℓ κ} : Type ℓ → Type κ → Type (ℓ ⊔ κ)
Map K V = List (K × V)

module _ {ℓ κ} {K : Type ℓ} {V : Type κ} ⦃e : Eq K⦄ where
  unfoldable pub lookup : K → Map K V → Option V
  lookup k [] = none
  lookup k ((j, v) ∷ m) = if j == k then some v else lookup k m

  unfoldable pub insert : K → V → Map K V → Map K V
  insert k v [] = (k, v) ∷ []
  insert k v ((j, w) ∷ m) = if j == k then (j, v) ∷ m else (j, w) ∷ insert k v m

  unfoldable pub remove : K → Map K V → Map K V
  remove k [] = []
  remove k ((j, w) ∷ m) = let rest = remove k m in if j == k then rest else (j, w) ∷ rest

  pub lookup-insert :
      (key read : K) (new : V) (m : Map K V)
      → lookup read (insert key new m) ≡ (if key == read then some new else lookup read m)
  unfolding lookup insert
  lookup-insert key read new [] = refl
  lookup-insert key read new ((first, old) ∷ rest) =
      let later = lookup-insert key read new rest in
      ground (arith, e.same_iff first read, e.same_iff first key, e.same_iff key read)

  pub lookup-insert_self : (k : K) (v : V) (m : Map K V) → lookup k (insert k v m) ≡ some v
  lookup-insert_self k v m = simp (lookup-insert, ==_refl)

  pub lookup-remove :
      (key read : K) (m : Map K V)
      → lookup read (remove key m) ≡ (if key == read then none else lookup read m)
  unfolding lookup remove
  lookup-remove key read [] = ground arith
  lookup-remove key read ((first, old) ∷ rest) =
      let later = lookup-remove key read rest in
      ground (arith, e.same_iff first read, e.same_iff first key, e.same_iff key read)

pub ruleset map_laws = (lookup-insert, lookup-remove)

-- Every value stands under its own key.
abbrev pub IsKeyed {ℓ κ} : {K : Type ℓ} {V : Type κ} ⦃e : Eq K⦄ → (V → K) → Map K V → Type (ℓ ⊔ κ)
IsKeyed {K} {V} key m = (k : K) (v : V) → lookup k m ≡ some v → key v ≡ k

module _ {ℓ κ} {K : Type ℓ} {V : Type κ} ⦃e : Eq K⦄ (key : V → K) where
  pub IsKeyed-empty : IsKeyed key []
  unfolding lookup
  IsKeyed-empty k v h = cc

  pub IsKeyed-insert :
      (k : K) (v : V) (m : Map K V) → key v ≡ k → IsKeyed key m → IsKeyed key (insert k v m)
  IsKeyed-insert k v m own keyed j w h =
      ground (arith, lookup-insert k j v m, keyed j w, e.same_iff k j)

-- No key stands twice, as in Go's maps.
abbrev pub IsUnique {ℓ κ} : {K : Type ℓ} {V : Type κ} ⦃e : Eq K⦄ → Map K V → Type κ
IsUnique [] = Unit
IsUnique ((k, v) ∷ m) = (lookup k m ≡ none) × IsUnique m

-- `for k, v := range m { out[k] = f(v) }`, into an empty map.
unfoldable pub map_values {ℓ κ μ} :
    {K : Type ℓ} {V : Type κ} {W : Type μ} → (V → W) → Map K V → Map K W
map_values f [] = []
map_values f ((k, v) ∷ m) = (k, f v) ∷ map_values f m

module _ {ℓ κ} {K : Type ℓ} {V : Type κ} ⦃e : Eq K⦄ where
  pub IsUnique-insert : (k : K) (v : V) (m : Map K V) → IsUnique m → IsUnique (insert k v m)
  unfolding insert lookup
  IsUnique-insert k v [] u = (refl, tt)
  IsUnique-insert k v ((j, w) ∷ m) u =
      ground (arith, IsUnique-insert k v m, lookup-insert k j v m, e.same_iff j k, e.same_iff k j)

abbrev pub image {κ μ} : {V : Type κ} {W : Type μ} → (V → W) → Option V → Option W
image f none = none
image f (some v) = some (f v)

module _ {ℓ κ μ} {K : Type ℓ} {V : Type κ} {W : Type μ} ⦃e : Eq K⦄ (f : V → W) where
  pub lookup-map_values : (k : K) (m : Map K V) → lookup k (map_values f m) ≡ image f (lookup k m)
  unfolding lookup map_values
  lookup-map_values k [] = refl
  lookup-map_values k ((j, v) ∷ m) = ground (arith, lookup-map_values k m)

  pub IsUnique-map_values : (m : Map K V) → IsUnique m → IsUnique (map_values f m)
  unfolding map_values
  IsUnique-map_values [] u = tt
  IsUnique-map_values ((k, v) ∷ m) u =
      (lookup-map_values k m ∙ ap (image f) u.0, IsUnique-map_values m u.1)
