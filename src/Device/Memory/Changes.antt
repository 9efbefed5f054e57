-- ===== src/Device/Memory/Changes.antt =====
-- The methods of internal/device/memory_repository.go that write, as one type of calls.
use agen_sense.Prelude.{ℤ, String, List, [], ◌∷◌}
use agen_sense.Device.Model.{
  Time, Instance, Device, ProviderProfile, ConfigSnapshot, IssuedDeviceToken,
}
use agen_sense.Device.Tables.{Tables}
use agen_sense.Device.Memory.Directory
use agen_sense.Device.Memory.Configs
use agen_sense.Device.Memory.Tokens

pub data Call : Type 0 where
  save_instance : Instance → Call
  save_device : Device → Call
  save_provider_profile : ProviderProfile → Call
  save_config_snapshot : ConfigSnapshot → Call
  set_desired_config_version : String → ℤ → Call
  ack_config_version : String → ℤ → Time → Call
  save_issued_device_token : IssuedDeviceToken → Call
  touch_issued_device_token : String → Time → Call
  revoke_issued_device_token : String → Time → Call

-- The tables after a call, whether it returned an error or not.
unfoldable pub after : Tables → Call → Tables
after s (save_instance i) = (Directory.save_instance i s).1
after s (save_device d) = (Directory.save_device d s).1
after s (save_provider_profile p) = (Directory.save_provider_profile p s).1
after s (save_config_snapshot c) = (Configs.save_config_snapshot c s).1
after s (set_desired_config_version d v) = (Configs.set_desired_config_version d v s).1
after s (ack_config_version d v t) = (Configs.ack_config_version d v t s).1
after s (save_issued_device_token t) = (Tokens.save_issued_device_token t s).1
after s (touch_issued_device_token id t) = (Tokens.touch_issued_device_token id t s).1
after s (revoke_issued_device_token id t) = (Tokens.revoke_issued_device_token id t s).1

unfoldable pub after_all : Tables → List Call → Tables
after_all s [] = s
after_all s (c ∷ cs) = after_all (after s c) cs
