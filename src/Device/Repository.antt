-- ===== src/Device/Repository.antt =====
-- internal/device/repository.go: the interface of a repository, with what its clients rely on:
-- each method acts on a view of the state as the method of the repository in memory does, but a
-- write may also report that its result could not be stored.
use agen_sense.Prelude.{ℤ, String, List, ◌≡◌, ◌⊎◌, Exec, err, other}
use agen_sense.Device.Model.{
  Time, Instance, Device, ProviderProfile, ConfigSnapshot, IssuedDeviceToken, DeviceFilter,
}
use agen_sense.Device.Tables.{Tables}
use agen_sense.Device.Memory.Directory
use agen_sense.Device.Memory.Configs
use agen_sense.Device.Memory.Tokens

module _ {S A : Type 0} (view : S → Tables) (op : Exec S A) (model : Exec Tables A) where
  abbrev pub Reads : Type 0
  Reads = (s : S) → op s ≡ ((model (view s)).0, s)

  abbrev pub Writes : Type 0
  Writes =
      (s : S)
      → (view (op s).1 ≡ (model (view s)).1)
        × (((op s).0 ≡ (model (view s)).0) ⊎ ((e : String) × ((op s).0 ≡ err (other e))))

pub record Repository : Type 1 where
  pub State : Type 0
  pub save_instance : Instance → Exec State Instance
  pub get_instance : String → Exec State Instance
  pub list_instances : String → Exec State (List Instance)
  pub save_device : Device → Exec State Device
  pub get_device : String → Exec State Device
  pub list_devices : DeviceFilter → Exec State (List Device)
  pub save_provider_profile : ProviderProfile → Exec State ProviderProfile
  pub get_provider_profile : String → String → Exec State ProviderProfile
  pub list_provider_profiles : String → Exec State (List ProviderProfile)
  pub save_config_snapshot : ConfigSnapshot → Exec State ConfigSnapshot
  pub get_config_snapshot : String → ℤ → Exec State ConfigSnapshot
  pub get_latest_config_snapshot : String → Exec State ConfigSnapshot
  pub list_config_snapshots : String → Exec State (List ConfigSnapshot)
  pub set_desired_config_version : String → ℤ → Exec State Device
  pub ack_config_version : String → ℤ → Time → Exec State Device
  pub save_issued_device_token : IssuedDeviceToken → Exec State IssuedDeviceToken
  pub get_issued_device_token : String → Exec State IssuedDeviceToken
  pub find_issued_device_token_by_hash : String → Exec State IssuedDeviceToken
  pub touch_issued_device_token : String → Time → Exec State IssuedDeviceToken
  pub revoke_issued_device_token : String → Time → Exec State IssuedDeviceToken
  pub view : State → Tables
  pub save_instance_lem : (i : Instance) → Writes view (save_instance i) (Directory.save_instance i)
  pub get_instance_lem : (id : String) → Reads view (get_instance id) (Directory.get_instance id)
  pub list_instances_lem : (t : String) → Reads view (list_instances t) (Directory.list_instances t)
  pub save_device_lem : (d : Device) → Writes view (save_device d) (Directory.save_device d)
  pub get_device_lem : (id : String) → Reads view (get_device id) (Directory.get_device id)
  pub list_devices_lem : (f : DeviceFilter) → Reads view (list_devices f) (Directory.list_devices f)
  pub save_provider_profile_lem :
      (p : ProviderProfile)
      → Writes view (save_provider_profile p) (Directory.save_provider_profile p)
  pub get_provider_profile_lem :
      (t p : String) → Reads view (get_provider_profile t p) (Directory.get_provider_profile t p)
  pub list_provider_profiles_lem :
      (t : String) → Reads view (list_provider_profiles t) (Directory.list_provider_profiles t)
  pub save_config_snapshot_lem :
      (c : ConfigSnapshot) → Writes view (save_config_snapshot c) (Configs.save_config_snapshot c)
  pub get_config_snapshot_lem :
      (d : String) (v : ℤ) → Reads view (get_config_snapshot d v) (Configs.get_config_snapshot d v)
  pub get_latest_config_snapshot_lem :
      (d : String)
      → Reads view (get_latest_config_snapshot d) (Configs.get_latest_config_snapshot d)
  pub list_config_snapshots_lem :
      (d : String) → Reads view (list_config_snapshots d) (Configs.list_config_snapshots d)
  pub set_desired_config_version_lem :
      (d : String) (v : ℤ)
      → Writes view (set_desired_config_version d v) (Configs.set_desired_config_version d v)
  pub ack_config_version_lem :
      (d : String) (v : ℤ) (t : Time)
      → Writes view (ack_config_version d v t) (Configs.ack_config_version d v t)
  pub save_issued_device_token_lem :
      (t : IssuedDeviceToken)
      → Writes view (save_issued_device_token t) (Tokens.save_issued_device_token t)
  pub get_issued_device_token_lem :
      (id : String) → Reads view (get_issued_device_token id) (Tokens.get_issued_device_token id)
  pub find_issued_device_token_by_hash_lem :
      (h : String)
      → Reads view (find_issued_device_token_by_hash h) (Tokens.find_issued_device_token_by_hash h)
  pub touch_issued_device_token_lem :
      (id : String) (t : Time)
      → Writes view (touch_issued_device_token id t) (Tokens.touch_issued_device_token id t)
  pub revoke_issued_device_token_lem :
      (id : String) (t : Time)
      → Writes view (revoke_issued_device_token id t) (Tokens.revoke_issued_device_token id t)
