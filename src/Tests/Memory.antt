-- ===== src/Tests/Memory.antt =====
-- The repository of internal/device/memory_repository.go on the test data.
use agen_sense.Prelude.{pos, some, ◌≡◌, refl, ok, err, conflict, lookup, insert, false, string_eq}
use agen_sense.Device.Model
use agen_sense.Device.Model.{
  Device, ProviderProfile, DeviceFilter, ConfigSnapshot, IssuedDeviceToken, clone_device,
  clone_config_snapshot, clone_provider_profile,
}
use agen_sense.Device.Memory.Directory
use agen_sense.Device.Memory.Directory.{passes, list_devices, list_provider_profiles}
use agen_sense.Device.Memory.Configs
use agen_sense.Device.Memory.Configs.{
  snapshot_at, get_latest_config_snapshot, set_desired_config_version,
}
use agen_sense.Device.Memory.Tokens
use agen_sense.Device.Memory.Tokens.{
  clashes, save_issued_device_token, find_issued_device_token_by_hash,
}
use agen_sense.Device.Memory.Changes.{after, after_all}
use agen_sense.Device.Memory.Invariant.{
  IsWellFormed, after_all-IsWellFormed, new_memory_repository-IsWellFormed,
}
use agen_sense.Device.Tables.{new_memory_repository}
use agen_sense.Tests.Data.{demo_device, demo_config, demo_token, demo_tables, demo_calls}

after_all-IsWellFormed_example : IsWellFormed (after_all new_memory_repository demo_calls)
after_all-IsWellFormed_example =
    after_all-IsWellFormed new_memory_repository demo_calls new_memory_repository-IsWellFormed

-- Another token with the same hash, and the same token with another hash.
abbrev thief : IssuedDeviceToken
thief = record demo_token { id = "tok-2" }

abbrev renewed : IssuedDeviceToken
renewed = record demo_token { token_hash = "h:renewed" }

thief_conflicts : (save_issued_device_token thief demo_tables).0 ≡ err conflict
unfolding Configs.snapshot_at Configs.snapshots_of after_all after Directory.save_instance
    Directory.save_device Configs.save_config_snapshot Tokens.save_issued_device_token
    Model.clone_instance Model.clone_device Model.clone_config_snapshot
    Model.clone_issued_device_token Model.clone_raw_message Model.clone_time_ptr lookup insert
thief_conflicts = refl

renewed_saved : (save_issued_device_token renewed demo_tables).0 ≡ ok renewed
unfolding Configs.snapshot_at Configs.snapshots_of after_all after Directory.save_instance
    Directory.save_device Configs.save_config_snapshot Tokens.save_issued_device_token
    Model.clone_instance Model.clone_device Model.clone_config_snapshot
    Model.clone_issued_device_token Model.clone_raw_message Model.clone_time_ptr lookup insert
renewed_saved = refl

free_hashes :
    (clashes (lookup "h:secret" demo_tables.token_index) "tok-1" ≡ false)
    × (clashes (lookup "h:renewed" demo_tables.token_index) "tok-1" ≡ false)
unfolding Configs.snapshot_at Configs.snapshots_of after_all after Directory.save_instance
    Directory.save_device Configs.save_config_snapshot Tokens.save_issued_device_token
    Model.clone_instance Model.clone_device Model.clone_config_snapshot
    Model.clone_issued_device_token Model.clone_raw_message Model.clone_time_ptr lookup insert
free_hashes = (refl, refl)

demo_stored :
    (lookup "dev-1" demo_tables.devices ≡ some demo_device)
    × (snapshot_at "dev-1" (pos 2) demo_tables ≡ some (demo_config (pos 2)))
unfolding Configs.snapshot_at Configs.snapshots_of after_all after Directory.save_instance
    Directory.save_device Configs.save_config_snapshot Tokens.save_issued_device_token
    Model.clone_instance Model.clone_device Model.clone_config_snapshot
    Model.clone_issued_device_token Model.clone_raw_message Model.clone_time_ptr lookup insert
demo_stored = (refl, refl)
