-- ===== src/Device/Tables.antt =====
-- The maps of internal/device/memory_repository.go, which internal/store/file_repository.go
-- declares again as its file state. The lock that every method holds makes each one atomic.
use agen_sense.Prelude.{ℤ, String, [], Map}
use agen_sense.Device.Model.{Instance, Device, ProviderProfile, ConfigSnapshot, IssuedDeviceToken}
use Prim.Native.String.{◌++◌}

pub record Tables : Type 0 where
  pub instances : Map String Instance
  pub devices : Map String Device
  pub provider_profiles : Map String ProviderProfile
  pub config_snapshots : Map String (Map ℤ ConfigSnapshot)
  pub issued_tokens : Map String IssuedDeviceToken
  pub token_index : Map String String

-- NewMemoryRepository
abbrev pub new_memory_repository : Tables
new_memory_repository = record {
  instances = [];
  devices = [];
  provider_profiles = [];
  config_snapshots = [];
  issued_tokens = [];
  token_index = [];
}

unfoldable pub provider_profile_key : String → String → String
provider_profile_key tenant_id profile_id = tenant_id ++ ("\0" ++ profile_id)
