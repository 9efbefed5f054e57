-- ===== src/Device/Memory/Configs.antt =====
-- internal/device/memory_repository.go: config snapshots, and the versions that a device is
-- given and reports. A missing inner map reads as the empty one, as a nil map does in Go.
use agen_sense.Prelude.{
  ◌≡◌, arith, ◌==◌, ==_iff, ◌&&◌, lookup-insert, ℤ, ltb_ℤ, String, Option, none, some, List, [],
  ◌∷◌, Map, lookup, insert, map, Result, ok, err, not_found, config_missing, Exec, string_eq,
  int_eq, if◌then◌else◌, sort_slice,
}
use agen_sense.Device.Model.{Time, Device, ConfigSnapshot, clone_device, clone_config_snapshot}
use agen_sense.Device.Tables.{Tables}
use agen_sense.Device.Memory.Directory.{values, found}

-- `configSnapshots[deviceID]`
unfoldable pub snapshots_of : String → Tables → Map ℤ ConfigSnapshot
snapshots_of device_id s = elim (lookup device_id s.config_snapshots) [ none ↦ [] | some m ↦ m ]

-- `configSnapshots[deviceID][version]`
unfoldable pub snapshot_at : String → ℤ → Tables → Option ConfigSnapshot
snapshot_at device_id version s = lookup version (snapshots_of device_id s)

unfoldable pub save_config_snapshot : ConfigSnapshot → Exec Tables ConfigSnapshot
save_config_snapshot c s =
    let c' = clone_config_snapshot c in
    (
      ok (clone_config_snapshot c'),
      record s {
        config_snapshots =
            insert c.device_id (insert c'.version c' (snapshots_of c.device_id s))
              s.config_snapshots;
      },
    )

unfoldable pub get_config_snapshot : String → ℤ → Exec Tables ConfigSnapshot
get_config_snapshot device_id version s =
    (found clone_config_snapshot (snapshot_at device_id version s), s)

-- The loop of GetLatestConfigSnapshot; its flag `found` is the case `some`.
unfoldable pub latest_loop :
    Option (ℤ × ConfigSnapshot) → Map ℤ ConfigSnapshot → Option (ℤ × ConfigSnapshot)
latest_loop best [] = best
latest_loop none ((v, c) ∷ m) = latest_loop (some (v, c)) m
latest_loop (some (w, b)) ((v, c) ∷ m) =
    latest_loop (if ltb_ℤ w v then some (v, c) else some (w, b)) m

abbrev pub latest_result : Option (ℤ × ConfigSnapshot) → Result ConfigSnapshot
latest_result none = err not_found
latest_result (some (v, c)) = ok (clone_config_snapshot c)

unfoldable pub get_latest_config_snapshot : String → Exec Tables ConfigSnapshot
get_latest_config_snapshot device_id s =
    (latest_result (latest_loop none (snapshots_of device_id s)), s)

unfoldable pub list_config_snapshots : String → Exec Tables (List ConfigSnapshot)
list_config_snapshots device_id s = (
  ok (
      sort_slice (λ a b. ltb_ℤ a.version b.version)
        (map clone_config_snapshot (values (snapshots_of device_id s)))),
  s,
)

-- What SetDesiredConfigVersion and AckConfigVersion share: the device and the version must exist.
abbrev pub update_device :
    Option Device → Option ConfigSnapshot → (Device → Device) → String → Exec Tables Device
update_device none c f device_id s = (err not_found, s)
update_device (some d) none f device_id s = (err config_missing, s)
update_device (some d) (some c) f device_id s =
    (ok (clone_device (f d)), record s { devices = insert device_id (f d) s.devices })

unfoldable pub set_desired_config_version : String → ℤ → Exec Tables Device
set_desired_config_version device_id version s =
    update_device (lookup device_id s.devices) (snapshot_at device_id version s)
      (λ d. record d { desired_config_version = version }) device_id s

unfoldable pub ack_config_version : String → ℤ → Time → Exec Tables Device
ack_config_version device_id version acked_at s =
    update_device (lookup device_id s.devices) (snapshot_at device_id version s)
      (λ d. record d {
        reported_config_version = version;
        updated_at = acked_at;
        last_seen_at = some acked_at;
      })
      device_id s

-- A saved snapshot is found under its device and version, and no other one moves.
pub snapshot_at-save_config_snapshot :
    (c : ConfigSnapshot) (d : String) (v : ℤ) (s : Tables)
    → snapshot_at d v (save_config_snapshot c s).1 ≡ (
        if c.device_id == d && c.version == v
        then some (clone_config_snapshot c)
        else snapshot_at d v s)
unfolding snapshot_at snapshots_of save_config_snapshot clone_config_snapshot
snapshot_at-save_config_snapshot c d v s = ground (
  arith,
  lookup-insert c.device_id d
      (insert c.version (clone_config_snapshot c) (snapshots_of c.device_id s)) s.config_snapshots,
  lookup-insert c.version v (clone_config_snapshot c) (snapshots_of c.device_id s),
  ==_iff c.device_id d,
)
