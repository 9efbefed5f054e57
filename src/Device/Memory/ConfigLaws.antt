-- ===== src/Device/Memory/ConfigLaws.antt =====
-- The config methods of internal/device/memory_repository.go.
use agen_sense.Prelude.{
  ℤ, ltb_ℤ, ◌≤ℤ◌, ◌<ℤ◌, String, none, some, [], ◌∷◌, ◌≡◌, refl, ◌⊎◌, inl, inr, arith, Map, lookup,
  Result, ok, err, not_found, string_eq, int_eq, ==_iff, ◌==◌, if◌then◌else◌, Bool-cases,
  lookup-insert,
}
use agen_sense.Device.Model.{ConfigSnapshot, Device, clone_config_snapshot, clone_device}
use agen_sense.Device.Tables.{Tables}
use agen_sense.Device.Memory.Configs.{
  snapshots_of, snapshot_at, latest_loop, latest_result, get_latest_config_snapshot,
  set_desired_config_version,
}

-- All versions of a map are at most v.
abbrev pub AtMost : Map ℤ ConfigSnapshot → ℤ → Type 0
AtMost m v = (u : ℤ) (x : ConfigSnapshot) → lookup u m ≡ some x → u ≤ℤ v

-- What the loop has seen wins, unless a later version is greater.
latest_loop_lem :
    (w : ℤ) (b : ConfigSnapshot) (m : Map ℤ ConfigSnapshot)
    → (v : ℤ) × (c : ConfigSnapshot) × (latest_loop (some (w, b)) m ≡ some (v, c))
      × (((v ≡ w) × (c ≡ b)) ⊎ ((w <ℤ v) × (lookup v m ≡ some c)))
      × (w ≤ℤ v)
      × AtMost m v
unfolding latest_loop lookup
latest_loop_lem w b [] = (w, b, refl, inl (refl, refl), omega arith, λ u x h. absurd (cc))
latest_loop_lem w b ((u, x) ∷ m) = elim (Bool-cases (ltb_ℤ w u)) [
  | inl p ↦
      let (v, c, run, origin, above, most) = latest_loop_lem u x m in
      (
        v,
        c,
        rw p run,
        inr (ground arith, ground (arith, ==_iff u v)),
        ground arith,
        λ y z h. ground (arith, most y z, ==_iff u y),
      )
  | inr p ↦
      let (v, c, run, origin, above, most) = latest_loop_lem w b m in
      (
        v,
        c,
        rw p run,
        ground (arith, ==_iff u v),
        above,
        λ y z h. ground (arith, most y z, ==_iff u y),
      )
]

-- GetLatestConfigSnapshot returns a copy of the stored snapshot whose version is the greatest of
-- the device's, and ErrNotFound only for a device with no snapshot; it changes nothing.
pub get_latest_config_snapshot_lem :
    (d : String) (s : Tables)
    → ((get_latest_config_snapshot d s ≡ (err not_found, s)) × ((v : ℤ) → snapshot_at d v s ≡ none))
      ⊎ ((v : ℤ) × (c : ConfigSnapshot) × (get_latest_config_snapshot d s
            ≡ (ok (clone_config_snapshot c), s))
          × (snapshot_at d v s ≡ some c)
          × ((u : ℤ) (x : ConfigSnapshot) → snapshot_at d u s ≡ some x → u ≤ℤ v))
unfolding get_latest_config_snapshot snapshot_at latest_loop lookup
get_latest_config_snapshot_lem d s = greatest (snapshots_of d s)
  where
    greatest :
        (m : Map ℤ ConfigSnapshot)
        → ((◌≡◌ {A = Result ConfigSnapshot × Tables}
              (latest_result (latest_loop none m), s)
              (err not_found, s))
            × ((v : ℤ) → lookup v m ≡ none))
          ⊎ ((v : ℤ) × (c : ConfigSnapshot) × (◌≡◌ {A = Result ConfigSnapshot × Tables}
                (latest_result (latest_loop none m), s)
                (ok (clone_config_snapshot c), s))
              × (lookup v m ≡ some c)
              × AtMost m v)
    greatest [] = inl (refl, λ v. refl)
    greatest ((u, x) ∷ m) =
        let (v, c, run, origin, above, most) = latest_loop_lem u x m in
        inr
          (v, c, rw run, ground (arith, ==_iff u v), λ y z h. ground (arith, most y z, ==_iff u y))

-- For a stored device and a stored snapshot of it, SetDesiredConfigVersion returns the device with
-- the wanted version, stores it, and leaves every other device and all snapshots as they were.
pub set_desired_config_version_lem :
    (id : String) (v : ℤ) (s : Tables) (d : Device) (c : ConfigSnapshot)
    → lookup id s.devices ≡ some d
    → snapshot_at id v s ≡ some c
    → ((set_desired_config_version id v s).0
        ≡ ok (clone_device (record d { desired_config_version = v })))
      × ((j : String)
          → lookup j (set_desired_config_version id v s).1.devices ≡ (
              if id == j
              then some (record d { desired_config_version = v })
              else lookup j s.devices))
      × ((set_desired_config_version id v s).1.config_snapshots ≡ s.config_snapshots)
unfolding set_desired_config_version
set_desired_config_version_lem id v s d c stored snapshot = (
  ground arith,
  λ j. ground (arith, lookup-insert id j (record d { desired_config_version = v }) s.devices),
  ground arith,
)
