-- ===== src/Device/Service/Config.antt =====
-- CurrentConfig and AckConfigVersion of internal/device/service.go.
use agen_sense.Prelude.{
  ℤ, String, Option, none, some, true, ◌≡◌, arith, Result, ok, err, not_found, config_missing,
  lookup, ==_refl, string_eq, is_positive, if◌then◌else◌, ap, Option-cases, inl, inr, ◌≤ℤ◌, refl,
  Bool-cases,
}
use agen_sense.Device.Model.{Device, ConfigSnapshot, clone_config_snapshot, clone_device}
use agen_sense.Device.Tables.{Tables}
use agen_sense.Device.Repository.{Repository}
use agen_sense.Device.Memory.Directory
use agen_sense.Device.Memory.Configs
use agen_sense.Device.Memory.Configs.{snapshots_of, snapshot_at}
use agen_sense.Device.Memory.ConfigLaws.{
  get_latest_config_snapshot_lem, set_desired_config_version_lem,
}
use agen_sense.Device.Service.{Service, current_config}

-- The configuration of a device: the snapshot of its wanted version, else the latest one.
wanted : Device → String → Tables → Option ConfigSnapshot
wanted d id s =
    if is_positive d.desired_config_version then snapshot_at id d.desired_config_version s else none

latest_or_missing : String → Tables → Result ConfigSnapshot
latest_or_missing id s = elim (Configs.get_latest_config_snapshot id s).0 [
  | ok c ↦ ok c
  | err e ↦ err config_missing
]

config_of : String → Tables → Result ConfigSnapshot
unfolding wanted latest_or_missing
config_of id s = elim (lookup id s.devices) [
  | none ↦ err not_found
  | some d ↦ elim (wanted d id s) [
    | some c ↦ ok (clone_config_snapshot c)
    | none ↦ latest_or_missing id s
  ]
]

-- The versions of which a device has a snapshot are at most v.
abbrev pub UpTo : String → ℤ → Tables → Type 0
UpTo id v s = (u : ℤ) (x : ConfigSnapshot) → snapshot_at id u s ≡ some x → u ≤ℤ v

-- What the configuration of a device is, told from the tables.
pub data IsCurrent (id : String) (s : Tables) (r : Result ConfigSnapshot) : Type 0 where
  no_device : lookup id s.devices ≡ none → r ≡ err not_found → IsCurrent id s r
  desired :
      (d : Device) (c : ConfigSnapshot)
      → lookup id s.devices ≡ some d
      → is_positive d.desired_config_version ≡ true
      → snapshot_at id d.desired_config_version s ≡ some c
      → r ≡ ok (clone_config_snapshot c)
      → IsCurrent id s r
  greatest :
      (d : Device) (v : ℤ) (c : ConfigSnapshot)
      → lookup id s.devices ≡ some d
      → (is_positive d.desired_config_version ≡ true
          → snapshot_at id d.desired_config_version s ≡ none)
      → snapshot_at id v s ≡ some c
      → UpTo id v s
      → r ≡ ok (clone_config_snapshot c)
      → IsCurrent id s r
  no_snapshot :
      (d : Device)
      → lookup id s.devices ≡ some d
      → ((v : ℤ) → snapshot_at id v s ≡ none)
      → r ≡ err config_missing
      → IsCurrent id s r

latest_or_missing-IsCurrent :
    (id : String) (s : Tables) (d : Device)
    → lookup id s.devices ≡ some d
    → (is_positive d.desired_config_version ≡ true
        → snapshot_at id d.desired_config_version s ≡ none)
    → IsCurrent id s (latest_or_missing id s)
unfolding latest_or_missing
latest_or_missing-IsCurrent id s d stored unwanted = elim (get_latest_config_snapshot_lem id s) [
  | inl (run, empty) ↦ no_snapshot d stored empty (rw (latest_or_missing, run) refl)
  | inr (v, c, run, at_version, most) ↦
      greatest d v c stored unwanted at_version most (rw (latest_or_missing, run) refl)
]

config_of-IsCurrent : (id : String) (s : Tables) → IsCurrent id s (config_of id s)
unfolding config_of wanted
config_of-IsCurrent id s = elim (Option-cases (lookup id s.devices)) [
  | inl e ↦ rw (config_of, e) (no_device e refl)
  | inr (d, e) ↦
      rw (config_of, e, wanted)
        (elim (Bool-cases (is_positive d.desired_config_version)) [
          | inl p ↦ rw p (elim (Option-cases (snapshot_at id d.desired_config_version s)) [
            | inl none_there ↦
                rw none_there (latest_or_missing-IsCurrent id s d e (λ q. none_there))
            | inr (c, there) ↦ rw there (desired d c e p there refl)
          ])
          | inr p ↦ rw p (latest_or_missing-IsCurrent id s d e (λ q. ground arith))
        ])
]

module _ (R : Repository) (hash_credential : String → String) where
  config_of_lem :
      (id : String) (svc : Service R)
      → current_config R hash_credential id svc ≡ (config_of id (R.view svc.repo), svc)
  unfolding current_config config_of Directory.get_device Configs.get_config_snapshot clone_device
  config_of_lem id svc =
      let by_id = R.get_device_lem id svc.repo in
      let last = R.get_latest_config_snapshot_lem id svc.repo in
      let last_cases = get_latest_config_snapshot_lem id (R.view svc.repo) in
      elim (Option-cases (lookup id (R.view svc.repo).devices)) [
        | inl e ↦ ground arith
        | inr (d, e) ↦
            let at_version = R.get_config_snapshot_lem id d.desired_config_version svc.repo in
            ground arith
      ]

  -- Over any repository, CurrentConfig changes nothing and answers with ErrNotFound when the device
  -- is not stored, a copy of the snapshot of the wanted version when that is positive and there is
  -- one, else a copy of the snapshot whose version is the greatest of the device's, and with
  -- ErrConfigMissing when the device has no snapshot at all.
  pub current_config_lem :
      (id : String) (svc : Service R)
      → IsCurrent id (R.view svc.repo) (current_config R hash_credential id svc).0
        × ((current_config R hash_credential id svc).1 ≡ svc)
  current_config_lem id svc =
      let e = config_of_lem id svc in
      (rw e (config_of-IsCurrent id (R.view svc.repo)), ap (λ p. p.1) e)

  -- Over any repository, after SetDesiredConfigVersion with a positive version of which the stored
  -- device has a snapshot, CurrentConfig returns a copy of that snapshot.
  pub set_desired-current_config :
      (id : String) (v : ℤ) (svc : Service R) (d : Device) (c : ConfigSnapshot)
      → lookup id (R.view svc.repo).devices ≡ some d
      → snapshot_at id v (R.view svc.repo) ≡ some c
      → is_positive v ≡ true
      → (current_config R hash_credential id
          (record svc { repo = (R.set_desired_config_version id v svc.repo).1 })).0
        ≡ ok (clone_config_snapshot c)
  unfolding config_of snapshot_at snapshots_of
  set_desired-current_config id v svc d c stored snapshot p =
      let after = record svc { repo = (R.set_desired_config_version id v svc.repo).1 } in
      let current = config_of_lem id after in
      let write = (R.set_desired_config_version_lem id v svc.repo).0 in
      let (result, devices, snapshots) =
        set_desired_config_version_lem id v (R.view svc.repo) d c stored snapshot in
      let own = devices id in
      let self = ==_refl id in ground (arith, ap (λ (s : Tables). s.config_snapshots) write)
