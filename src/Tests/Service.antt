-- ===== src/Tests/Service.antt =====
-- The service of internal/device/service.go on the test data.
use agen_sense.Prelude.{
  ◌+ℤ◌, ℤ, pos, String, none, some, ◌≡◌, ◌≢◌, ◌⊎◌, refl, ok, err, other, lookup, arith, string_eq,
  is_blank, trim_space, trim_left, trim_right, is_space, insert,
}
use agen_sense.Device.Model
use agen_sense.Device.Model.{
  Device, IssuedDeviceToken, BootstrapRequest, BootstrapResult, ConfigSnapshot, clone_device,
  clone_config_snapshot,
}
use agen_sense.Device.Memory.Directory
use agen_sense.Device.Memory.Configs
use agen_sense.Device.Memory.Configs.{snapshot_at, snapshots_of}
use agen_sense.Device.Memory.Tokens
use agen_sense.Device.Memory.Changes.{after, after_all}
use agen_sense.Device.Memory.TokenLaws.{found_by_hash}
use agen_sense.Device.Memory.AsRepository.{memory_repository}
use agen_sense.Device.Service.{
  Service, AuthenticateResult, no_profile, issue_device_token, authenticate_device_token, bootstrap,
  current_config, is_expired, random_token_component, store_token,
}
use agen_sense.Device.Service
use agen_sense.Device.Service.Random
use agen_sense.Device.Service.Access.{MayPass, authenticate-accepts, authenticate-MayPass}
use agen_sense.Device.Service.Bootstrap.{MayBootstrap, bootstrap-MayBootstrap, bootstrap-Handed}
use agen_sense.Device.Service.Config.{IsCurrent, current_config_lem, set_desired-current_config}
use agen_sense.Device.Service.RoundTrip.{issue-authenticate, revoke-authenticate}
use agen_sense.Tests.Data.{
  hash, demo_device, demo_instance, demo_config, demo_token, demo_tables, demo_tables-IsWellFormed,
  demo_service,
}

demo_stored : lookup "dev-1" demo_tables.devices ≡ some demo_device
unfolding after_all after Directory.save_instance Directory.save_device Configs.save_config_snapshot
    Configs.snapshots_of Tokens.save_issued_device_token Model.clone_instance Model.clone_device
    Model.clone_config_snapshot Model.clone_issued_device_token Model.clone_raw_message
    Model.clone_time_ptr lookup insert
demo_stored = refl

demo_found : found_by_hash "h:secret" demo_tables ≡ some demo_token
unfolding found_by_hash after_all after Directory.save_instance Directory.save_device
    Configs.save_config_snapshot Configs.snapshots_of Tokens.save_issued_device_token
    Model.clone_instance Model.clone_device Model.clone_config_snapshot
    Model.clone_issued_device_token Model.clone_raw_message Model.clone_time_ptr lookup insert
demo_found = refl

demo_MayPass :
    MayPass memory_repository hash "dev-1" "secret" (pos 100) demo_tables demo_token demo_device
unfolding is_expired memory_repository is_blank trim_space trim_left trim_right is_space
demo_MayPass = record {
  named = refl;
  valued = refl;
  found = demo_found;
  own = refl;
  unrevoked = refl;
  current = refl;
  stored = demo_stored;
}

authenticate-accepts_example :
    ((authenticate_device_token memory_repository hash "dev-1" "secret" demo_service).0
      ≡ ok (record {
        device = clone_device demo_device;
        token = record demo_token {
          last_used_at = some (demo_service.clock demo_service.readings);
        };
      }))
    ⊎ ((e : String) × ((memory_repository.touch_issued_device_token demo_token.id
            (demo_service.clock demo_service.readings)
            demo_service.repo).0
          ≡ err (other e))
        × ((authenticate_device_token memory_repository hash "dev-1" "secret" demo_service).0
            ≡ err (other e)))
unfolding memory_repository
authenticate-accepts_example =
    authenticate-accepts memory_repository hash "dev-1" "secret" demo_service demo_token demo_device
      demo_tables-IsWellFormed demo_MayPass

abbrev demo_result : AuthenticateResult
demo_result = record {
  device = demo_device;
  token = record demo_token { last_used_at = some (pos 100) };
}

demo_authenticated :
    (authenticate_device_token memory_repository hash "dev-1" "secret" demo_service).0
    ≡ ok demo_result
unfolding memory_repository authenticate_device_token is_expired is_blank trim_space trim_left
    trim_right is_space Directory.get_device Tokens.find_issued_device_token_by_hash
    Tokens.touch_issued_device_token after_all after Directory.save_instance Directory.save_device
    Configs.save_config_snapshot Configs.snapshots_of Tokens.save_issued_device_token
    Model.clone_instance Model.clone_device Model.clone_config_snapshot
    Model.clone_issued_device_token Model.clone_raw_message Model.clone_time_ptr lookup insert
demo_authenticated = refl

authenticate-MayPass_example :
    (t : IssuedDeviceToken) × (d : Device) × MayPass memory_repository hash "dev-1" "secret"
      (pos 100)
      demo_tables
      t
      d
    × (demo_result.device ≡ clone_device d)
unfolding memory_repository
authenticate-MayPass_example =
    authenticate-MayPass memory_repository hash "dev-1" "secret" demo_service demo_result
      demo_authenticated

abbrev demo_request : BootstrapRequest
demo_request = record {
  device_id = "dev-1";
  chip_id = "chip";
  hardware_sku = "";
  firmware_version = "2";
  firmware_channel = "beta";
  capabilities = none;
  claim_token = "claim";
}

abbrev issued_value : String
issued_value = "dtk_AAAAAAAAAAAA.AAAAAAAAAAAAAAAAAAAAAAAAAAAAAAAA"

-- The token that the service issues at a time.
abbrev issued_at : ℤ → ℤ → IssuedDeviceToken
issued_at start end = record demo_token {
  id = "dtk_AAAAAAAAAAAA";
  token_hash = hash issued_value;
  issued_at = start;
  expires_at = end;
}

demo_issued :
    (issue_device_token memory_repository hash demo_device demo_service).0
    ≡ ok (issued_at (pos 100) (pos 86400000000100), issued_value)
unfolding memory_repository is_blank trim_space trim_left trim_right is_space Directory.get_device
    Tokens.find_issued_device_token_by_hash Tokens.touch_issued_device_token after_all after
    Directory.save_instance Directory.save_device Configs.save_config_snapshot Configs.snapshots_of
    Tokens.save_issued_device_token Model.clone_instance Model.clone_device
    Model.clone_config_snapshot Model.clone_issued_device_token Model.clone_raw_message
    Model.clone_time_ptr lookup insert issue_device_token random_token_component store_token
    Service.issued_record Random.read_full Random.encode_raw_url Random.trim_equals ◌+ℤ◌
demo_issued = refl

issue-authenticate_example :
    ((authenticate_device_token memory_repository hash "dev-1" issued_value
        (issue_device_token memory_repository hash demo_device demo_service).1).0
      ≡ ok (record {
        device = clone_device demo_device;
        token = record (issued_at (pos 100) (pos 86400000000100)) {
          last_used_at = some (
              (issue_device_token memory_repository hash demo_device demo_service).1.clock
                (issue_device_token memory_repository hash demo_device demo_service).1.readings);
        };
      }))
    ⊎ ((e : String) × ((memory_repository.touch_issued_device_token
            (issued_at (pos 100) (pos 86400000000100)).id
            ((issue_device_token memory_repository hash demo_device demo_service).1.clock
              (issue_device_token memory_repository hash demo_device demo_service).1.readings)
            (issue_device_token memory_repository hash demo_device demo_service).1.repo).0
          ≡ err (other e))
        × ((authenticate_device_token memory_repository hash "dev-1" issued_value
              (issue_device_token memory_repository hash demo_device demo_service).1).0
            ≡ err (other e)))
unfolding memory_repository ◌+ℤ◌
issue-authenticate_example =
    issue-authenticate memory_repository hash demo_device demo_device demo_service
      (issued_at (pos 100) (pos 86400000000100)) issued_value demo_tables-IsWellFormed demo_issued
      demo_stored (omega arith)

demo_token_stored : lookup "tok-1" demo_tables.issued_tokens ≡ some demo_token
unfolding memory_repository Configs.snapshot_at Configs.snapshots_of after_all after
    Directory.save_instance Directory.save_device Configs.save_config_snapshot
    Tokens.save_issued_device_token Model.clone_instance Model.clone_device
    Model.clone_config_snapshot Model.clone_issued_device_token Model.clone_raw_message
    Model.clone_time_ptr lookup insert
demo_token_stored = refl

abbrev revoked_service : Service memory_repository
unfolding memory_repository
revoked_service = record demo_service {
  repo = (Tokens.revoke_issued_device_token "tok-1" (pos 95) demo_tables).1;
}

revoke-authenticate_example :
    (authenticate_device_token memory_repository hash "dev-1" "secret" revoked_service).0
    ≢ ok demo_result
unfolding memory_repository
revoke-authenticate_example =
    revoke-authenticate memory_repository hash "dev-1" "secret" "tok-1" (pos 95) demo_service
      demo_token revoked_service demo_result demo_tables-IsWellFormed demo_token_stored refl refl

abbrev demo_boot : BootstrapResult
demo_boot = record {
  device = record demo_device {
    firmware_version = "2";
    firmware_channel = "beta";
    capabilities = none;
    last_bootstrap_at = some (pos 100);
    updated_at = pos 100;
  };
  instance_ = demo_instance;
  provider_profile = no_profile;
  config_snapshot = demo_config (pos 3);
  issued_token = issued_at (pos 101) (pos 86400000000101);
  token_value = issued_value;
}

demo_bootstrapped : (bootstrap memory_repository hash demo_request demo_service).0 ≡ ok demo_boot
unfolding memory_repository is_blank trim_space trim_left trim_right is_space Directory.get_device
    Tokens.find_issued_device_token_by_hash Tokens.touch_issued_device_token after_all after
    Directory.save_instance Directory.save_device Configs.save_config_snapshot Configs.snapshots_of
    Tokens.save_issued_device_token Model.clone_instance Model.clone_device
    Model.clone_config_snapshot Model.clone_issued_device_token Model.clone_raw_message
    Model.clone_time_ptr lookup insert issue_device_token random_token_component store_token
    Service.issued_record Random.read_full Random.encode_raw_url Random.trim_equals ◌+ℤ◌ bootstrap
    Service.matches_credential Service.bootstrapped Service.finish_bootstrap Service.profile_of
    current_config Directory.get_instance Directory.get_provider_profile
    Configs.get_latest_config_snapshot Configs.latest_loop Configs.get_config_snapshot
demo_bootstrapped = refl

bootstrap-MayBootstrap_example :
    (d : Device) × MayBootstrap memory_repository hash demo_request demo_tables d
unfolding memory_repository
bootstrap-MayBootstrap_example =
    bootstrap-MayBootstrap memory_repository hash demo_request demo_service demo_boot
      demo_bootstrapped

bootstrap-Handed_example :
    (found_by_hash
        (hash issued_value)
        (memory_repository.view (bootstrap memory_repository hash demo_request demo_service).1.repo)
      ≡ some (issued_at (pos 101) (pos 86400000000101)))
    × (demo_boot.issued_token.device_id ≡ demo_boot.device.id)
unfolding memory_repository
bootstrap-Handed_example =
    bootstrap-Handed memory_repository hash demo_request demo_service demo_boot demo_bootstrapped

current_config_lem_example :
    IsCurrent "dev-1" demo_tables (current_config memory_repository hash "dev-1" demo_service).0
    × ((current_config memory_repository hash "dev-1" demo_service).1 ≡ demo_service)
unfolding memory_repository
current_config_lem_example = current_config_lem memory_repository hash "dev-1" demo_service

demo_snapshot : snapshot_at "dev-1" (pos 2) demo_tables ≡ some (demo_config (pos 2))
unfolding memory_repository Configs.snapshot_at Configs.snapshots_of after_all after
    Directory.save_instance Directory.save_device Configs.save_config_snapshot
    Tokens.save_issued_device_token Model.clone_instance Model.clone_device
    Model.clone_config_snapshot Model.clone_issued_device_token Model.clone_raw_message
    Model.clone_time_ptr lookup insert
demo_snapshot = refl

abbrev rewanted_service : Service memory_repository
unfolding memory_repository
rewanted_service = record demo_service {
  repo = (Configs.set_desired_config_version "dev-1" (pos 2) demo_tables).1;
}

set_desired-current_config_example :
    (current_config memory_repository hash "dev-1" rewanted_service).0
    ≡ ok (clone_config_snapshot (demo_config (pos 2)))
unfolding memory_repository
set_desired-current_config_example =
    set_desired-current_config memory_repository hash "dev-1" (pos 2) demo_service demo_device
      (demo_config (pos 2)) demo_stored demo_snapshot refl
