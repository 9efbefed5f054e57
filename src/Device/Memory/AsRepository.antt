-- ===== src/Device/Memory/AsRepository.antt =====
-- internal/device/memory_repository.go: the repository in memory has the interface of
-- internal/device/repository.go, with no failing write.
use agen_sense.Prelude.{refl, inl, Exec}
use agen_sense.Device.Tables.{Tables}
use agen_sense.Device.Repository.{Repository, Writes}
use agen_sense.Device.Memory.Directory
use agen_sense.Device.Memory.Configs
use agen_sense.Device.Memory.Tokens

abbrev pub identity : Tables → Tables
identity s = s

pub writes_self : {A : Type 0} (op : Exec Tables A) → Writes identity op op
writes_self op s = (refl, inl refl)

unfoldable pub memory_repository : Repository
unfolding Directory.get_instance Directory.list_instances Directory.get_device
    Directory.list_devices Directory.get_provider_profile Directory.list_provider_profiles
    Configs.get_config_snapshot Configs.get_latest_config_snapshot Configs.list_config_snapshots
    Tokens.get_issued_device_token Tokens.find_issued_device_token_by_hash
memory_repository = record {
  State = Tables;
  save_instance = Directory.save_instance;
  get_instance = Directory.get_instance;
  list_instances = Directory.list_instances;
  save_device = Directory.save_device;
  get_device = Directory.get_device;
  list_devices = Directory.list_devices;
  save_provider_profile = Directory.save_provider_profile;
  get_provider_profile = Directory.get_provider_profile;
  list_provider_profiles = Directory.list_provider_profiles;
  save_config_snapshot = Configs.save_config_snapshot;
  get_config_snapshot = Configs.get_config_snapshot;
  get_latest_config_snapshot = Configs.get_latest_config_snapshot;
  list_config_snapshots = Configs.list_config_snapshots;
  set_desired_config_version = Configs.set_desired_config_version;
  ack_config_version = Configs.ack_config_version;
  save_issued_device_token = Tokens.save_issued_device_token;
  get_issued_device_token = Tokens.get_issued_device_token;
  find_issued_device_token_by_hash = Tokens.find_issued_device_token_by_hash;
  touch_issued_device_token = Tokens.touch_issued_device_token;
  revoke_issued_device_token = Tokens.revoke_issued_device_token;
  view = identity;
  save_instance_lem = λ a. writes_self (Directory.save_instance a);
  get_instance_lem = λ a s. refl;
  list_instances_lem = λ a s. refl;
  save_device_lem = λ a. writes_self (Directory.save_device a);
  get_device_lem = λ a s. refl;
  list_devices_lem = λ a s. refl;
  save_provider_profile_lem = λ a. writes_self (Directory.save_provider_profile a);
  get_provider_profile_lem = λ a b s. refl;
  list_provider_profiles_lem = λ a s. refl;
  save_config_snapshot_lem = λ a. writes_self (Configs.save_config_snapshot a);
  get_config_snapshot_lem = λ a b s. refl;
  get_latest_config_snapshot_lem = λ a s. refl;
  list_config_snapshots_lem = λ a s. refl;
  set_desired_config_version_lem = λ a b. writes_self (Configs.set_desired_config_version a b);
  ack_config_version_lem = λ a b c. writes_self (Configs.ack_config_version a b c);
  save_issued_device_token_lem = λ a. writes_self (Tokens.save_issued_device_token a);
  get_issued_device_token_lem = λ a s. refl;
  find_issued_device_token_by_hash_lem = λ a s. refl;
  touch_issued_device_token_lem = λ a b. writes_self (Tokens.touch_issued_device_token a b);
  revoke_issued_device_token_lem = λ a b. writes_self (Tokens.revoke_issued_device_token a b);
}
