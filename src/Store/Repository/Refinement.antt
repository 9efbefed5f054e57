-- ===== src/Store/Repository/Refinement.antt =====
-- The repository of internal/store/file_repository.go has the interface of
-- internal/device/repository.go: it acts on its maps as the repository in memory does, also when
-- the flush fails.
use agen_sense.Prelude.{ℤ, String, refl, arith}
use agen_sense.Device.Model.{
  Time, Instance, Device, ProviderProfile, ConfigSnapshot, IssuedDeviceToken, clone_time_ptr,
}
use agen_sense.Device.Tables.{Tables}
use agen_sense.Device.Repository.{Repository, Writes}
use agen_sense.Device.Memory.Directory
use agen_sense.Device.Memory.Configs
use agen_sense.Device.Memory.Tokens
use agen_sense.Store.Disk.{JsonCodec}
use agen_sense.Store.Repository.Flush.{FileRepository}
use agen_sense.Store.Repository.FlushLaws.{flush_locked_keeps}
use agen_sense.Store.Repository.Methods
use agen_sense.Store.Repository.Methods.{tables_of, assign}

module _ (C : JsonCodec) where
  -- The repository after the assignment that a method makes.
  abbrev assigned : (Tables → Tables) → FileRepository C → FileRepository C
  assigned f r = (assign C f r).1

  pub save_instance-Writes :
      (i : Instance) → Writes (tables_of C) (Methods.save_instance C i) (Directory.save_instance i)
  unfolding Methods.save_instance Directory.save_instance clone_time_ptr
  save_instance-Writes i r =
      let kept = flush_locked_keeps C (assigned (λ s. (Directory.save_instance i s).1) r) in
      ground arith

  pub save_device-Writes :
      (d : Device) → Writes (tables_of C) (Methods.save_device C d) (Directory.save_device d)
  unfolding Methods.save_device Directory.save_device clone_time_ptr
  save_device-Writes d r =
      let kept = flush_locked_keeps C (assigned (λ s. (Directory.save_device d s).1) r) in
      ground arith

  pub save_provider_profile-Writes :
      (p : ProviderProfile)
      → Writes (tables_of C) (Methods.save_provider_profile C p) (Directory.save_provider_profile p)
  unfolding Methods.save_provider_profile Directory.save_provider_profile clone_time_ptr
  save_provider_profile-Writes p r =
      let kept = flush_locked_keeps C (assigned (λ s. (Directory.save_provider_profile p s).1) r) in
      ground arith

  pub save_config_snapshot-Writes :
      (c : ConfigSnapshot)
      → Writes (tables_of C) (Methods.save_config_snapshot C c) (Configs.save_config_snapshot c)
  unfolding Methods.save_config_snapshot Configs.save_config_snapshot clone_time_ptr
  save_config_snapshot-Writes c r =
      let kept = flush_locked_keeps C (assigned (λ s. (Configs.save_config_snapshot c s).1) r) in
      ground arith

  pub set_desired_config_version-Writes :
      (d : String) (v : ℤ)
      → Writes
          (tables_of C)
          (Methods.set_desired_config_version C d v)
          (Configs.set_desired_config_version d v)
  unfolding Methods.set_desired_config_version Configs.set_desired_config_version clone_time_ptr
  set_desired_config_version-Writes d v r =
      let kept =
        flush_locked_keeps C (assigned (λ s. (Configs.set_desired_config_version d v s).1) r) in
      ground arith

  pub ack_config_version-Writes :
      (d : String) (v : ℤ) (t : Time)
      → Writes (tables_of C) (Methods.ack_config_version C d v t) (Configs.ack_config_version d v t)
  unfolding Methods.ack_config_version Configs.ack_config_version clone_time_ptr
  ack_config_version-Writes d v t r =
      let kept = flush_locked_keeps C (assigned (λ s. (Configs.ack_config_version d v t s).1) r) in
      ground arith

  pub save_issued_device_token-Writes :
      (t : IssuedDeviceToken)
      → Writes
          (tables_of C)
          (Methods.save_issued_device_token C t)
          (Tokens.save_issued_device_token t)
  unfolding Methods.save_issued_device_token Tokens.save_issued_device_token clone_time_ptr
  save_issued_device_token-Writes t r =
      let kept = flush_locked_keeps C (assigned (λ s. (Tokens.save_issued_device_token t s).1) r) in
      ground arith

  pub touch_issued_device_token-Writes :
      (id : String) (t : Time)
      → Writes
          (tables_of C)
          (Methods.touch_issued_device_token C id t)
          (Tokens.touch_issued_device_token id t)
  unfolding Methods.touch_issued_device_token Tokens.touch_issued_device_token clone_time_ptr
  touch_issued_device_token-Writes id t r =
      let kept =
        flush_locked_keeps C (assigned (λ s. (Tokens.touch_issued_device_token id t s).1) r) in
      ground arith

  pub revoke_issued_device_token-Writes :
      (id : String) (t : Time)
      → Writes
          (tables_of C)
          (Methods.revoke_issued_device_token C id t)
          (Tokens.revoke_issued_device_token id t)
  unfolding Methods.revoke_issued_device_token Tokens.revoke_issued_device_token clone_time_ptr
  revoke_issued_device_token-Writes id t r =
      let kept =
        flush_locked_keeps C (assigned (λ s. (Tokens.revoke_issued_device_token id t s).1) r) in
      ground arith

  unfoldable pub file_repository : Repository
  unfolding Directory.get_instance Methods.get_instance Directory.list_instances
      Methods.list_instances Directory.get_device Methods.get_device Directory.list_devices
      Methods.list_devices Directory.get_provider_profile Methods.get_provider_profile
      Directory.list_provider_profiles Methods.list_provider_profiles Configs.get_config_snapshot
      Methods.get_config_snapshot Configs.get_latest_config_snapshot
      Methods.get_latest_config_snapshot Configs.list_config_snapshots Methods.list_config_snapshots
      Tokens.get_issued_device_token Methods.get_issued_device_token
      Tokens.find_issued_device_token_by_hash Methods.find_issued_device_token_by_hash
  file_repository = record {
    State = FileRepository C;
    save_instance = Methods.save_instance C;
    get_instance = Methods.get_instance C;
    list_instances = Methods.list_instances C;
    save_device = Methods.save_device C;
    get_device = Methods.get_device C;
    list_devices = Methods.list_devices C;
    save_provider_profile = Methods.save_provider_profile C;
    get_provider_profile = Methods.get_provider_profile C;
    list_provider_profiles = Methods.list_provider_profiles C;
    save_config_snapshot = Methods.save_config_snapshot C;
    get_config_snapshot = Methods.get_config_snapshot C;
    get_latest_config_snapshot = Methods.get_latest_config_snapshot C;
    list_config_snapshots = Methods.list_config_snapshots C;
    set_desired_config_version = Methods.set_desired_config_version C;
    ack_config_version = Methods.ack_config_version C;
    save_issued_device_token = Methods.save_issued_device_token C;
    get_issued_device_token = Methods.get_issued_device_token C;
    find_issued_device_token_by_hash = Methods.find_issued_device_token_by_hash C;
    touch_issued_device_token = Methods.touch_issued_device_token C;
    revoke_issued_device_token = Methods.revoke_issued_device_token C;
    view = tables_of C;
    save_instance_lem = save_instance-Writes;
    get_instance_lem = λ a s. refl;
    list_instances_lem = λ a s. refl;
    save_device_lem = save_device-Writes;
    get_device_lem = λ a s. refl;
    list_devices_lem = λ a s. refl;
    save_provider_profile_lem = save_provider_profile-Writes;
    get_provider_profile_lem = λ a b s. refl;
    list_provider_profiles_lem = λ a s. refl;
    save_config_snapshot_lem = save_config_snapshot-Writes;
    get_config_snapshot_lem = λ a b s. refl;
    get_latest_config_snapshot_lem = λ a s. refl;
    list_config_snapshots_lem = λ a s. refl;
    set_desired_config_version_lem = set_desired_config_version-Writes;
    ack_config_version_lem = ack_config_version-Writes;
    save_issued_device_token_lem = save_issued_device_token-Writes;
    get_issued_device_token_lem = λ a s. refl;
    find_issued_device_token_by_hash_lem = λ a s. refl;
    touch_issued_device_token_lem = touch_issued_device_token-Writes;
    revoke_issued_device_token_lem = revoke_issued_device_token-Writes;
  }
