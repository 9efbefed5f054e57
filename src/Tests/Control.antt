-- ===== src/Tests/Control.antt =====
-- The control plane of internal/service/device_control.go on the test data.
use agen_sense.Prelude.{
  ℕ, ◌+◌, pos, String, some, List, [], ◌∷◌, ◌≡◌, refl, ok, lookup, insert, is_blank, trim_space,
  trim_left, trim_right, is_space,
}
use agen_sense.Device.Model
use agen_sense.Device.Memory.Directory
use agen_sense.Device.Memory.Configs
use agen_sense.Device.Memory.Tokens
use agen_sense.Device.Memory.Changes.{after, after_all}
use agen_sense.Device.Memory.AsRepository.{memory_repository}
use agen_sense.Device.Service
use agen_sense.Control.Plane.{
  ControlContext, DeviceContext, DeviceControl, raw_to_map, context_after,
  authenticate_device_token,
}
use agen_sense.Control.Access.{Passed, authenticate_device_token-MayPass}
use agen_sense.Tests.Data.{hash, demo_service}

-- Maps that are their bytes.
abbrev bytes_context : ControlContext
bytes_context = record {
  JsonMap = List ℕ;
  nil_map = [];
  marshal = some;
  unmarshal = some;
  raw_entry = λ b. b;
  Url = String;
  parse = some;
  scheme = λ u. "";
  print = λ s p u. u;
}

abbrev demo_control : DeviceControl bytes_context memory_repository hash
demo_control = record {
  devices = demo_service;
  retry_hint_sec = pos 5;
  public_base_url = "";
  clock = λ n. pos (200 + n);
  readings = 0;
}

abbrev demo_context : DeviceContext bytes_context
demo_context = record {
  device_id = "dev-1";
  tenant_id = "tenant";
  instance_id = "inst-1";
  provider_profile_id = "";
  config_version = pos 3;
  reported_config = pos 0;
  config = 1 ∷ 2 ∷ [];
  capabilities = 7 ∷ [];
  firmware_version = "1";
  firmware_channel = "stable";
  default_audio_codec = "pcm_s16le";
  default_sample_rate_hz = pos 16000;
}

demo_passes :
    (authenticate_device_token bytes_context memory_repository hash "dev-1" "secret" demo_control).0
    ≡ ok demo_context
unfolding memory_repository authenticate_device_token context_after raw_to_map
    Service.authenticate_device_token Service.current_config Service.is_expired is_blank trim_space
    trim_left trim_right is_space Directory.get_device Directory.get_instance
    Tokens.find_issued_device_token_by_hash Tokens.touch_issued_device_token
    Configs.get_latest_config_snapshot Configs.latest_loop Configs.get_config_snapshot after_all
    after Directory.save_instance Directory.save_device Configs.save_config_snapshot
    Configs.snapshots_of Tokens.save_issued_device_token Model.clone_instance Model.clone_device
    Model.clone_config_snapshot Model.clone_issued_device_token Model.clone_raw_message
    Model.clone_time_ptr lookup insert
demo_passes = refl

authenticate_device_token-MayPass_example :
    Passed bytes_context memory_repository hash "dev-1" "secret" demo_control demo_context
authenticate_device_token-MayPass_example =
    authenticate_device_token-MayPass bytes_context memory_repository hash "dev-1" "secret"
      demo_control demo_context demo_passes
