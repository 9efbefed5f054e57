-- ===== src/Tests/Data.antt =====
-- Test data: a device, its token and its config, and services and stores that hold them.
use agen_sense.Prelude.{ℕ, zero, suc, ◌+◌, ℤ, pos, String, none, some, List, [], ◌∷◌, false}
use Prim.Native.String.{◌++◌}
use agen_sense.Device.Model.{Device, Instance, ConfigSnapshot, IssuedDeviceToken}
use agen_sense.Device.Tables.{Tables, new_memory_repository}
use agen_sense.Device.Memory.Changes.{Call, after_all}
use agen_sense.Device.Memory.Invariant.{
  IsWellFormed, new_memory_repository-IsWellFormed, after_all-IsWellFormed,
}
use agen_sense.Device.Memory.AsRepository.{memory_repository}
use agen_sense.Device.Service.{Service, default_device_token_ttl}
use agen_sense.Store.State.{FileState}
use agen_sense.Store.Disk.{JsonCodec, reread, Fault}
use agen_sense.Store.Repository.Flush.{FileRepository}

abbrev pub hash : String → String
hash v = "h:" ++ v

abbrev pub demo_device : Device
demo_device = record {
  id = "dev-1";
  tenant_id = "tenant";
  instance_id = "inst-1";
  hardware_sku = "sku";
  chip_id = "chip";
  mac_addr = "";
  firmware_version = "1";
  firmware_channel = "stable";
  capabilities = some (7 ∷ []);
  factory_claim_token_hash = "h:claim";
  desired_config_version = pos 0;
  reported_config_version = pos 0;
  last_bootstrap_at = none;
  last_seen_at = none;
  created_at = pos 1;
  updated_at = pos 1;
}

abbrev pub demo_instance : Instance
demo_instance = record {
  id = "inst-1";
  tenant_id = "tenant";
  name = "one";
  region = "eu";
  gateway_ws_url = "";
  provider_profile_id = "";
  config_template = none;
  created_at = pos 1;
  updated_at = pos 1;
}

abbrev pub demo_config : ℤ → ConfigSnapshot
demo_config v = record {
  device_id = "dev-1";
  tenant_id = "tenant";
  instance_id = "inst-1";
  version = v;
  provider_profile_id = "";
  source = "seed";
  config = some (1 ∷ 2 ∷ []);
  signature = "";
  created_at = pos 1;
}

abbrev pub demo_token : IssuedDeviceToken
demo_token = record {
  id = "tok-1";
  device_id = "dev-1";
  tenant_id = "tenant";
  instance_id = "inst-1";
  token_hash = "h:secret";
  issued_at = pos 90;
  expires_at = pos 900;
  last_used_at = none;
  revoked_at = none;
}

abbrev pub demo_calls : List Call
demo_calls =
    Call.save_instance demo_instance
    ∷ Call.save_device demo_device
    ∷ Call.save_config_snapshot (demo_config (pos 2))
    ∷ Call.save_config_snapshot (demo_config (pos 3))
    ∷ Call.save_issued_device_token demo_token
    ∷ []

abbrev pub demo_tables : Tables
demo_tables = after_all new_memory_repository demo_calls

pub demo_tables-IsWellFormed : IsWellFormed demo_tables
demo_tables-IsWellFormed =
    after_all-IsWellFormed new_memory_repository demo_calls new_memory_repository-IsWellFormed

abbrev pub zeros : ℕ → List ℕ
zeros zero = []
zeros (suc n) = 0 ∷ zeros n

abbrev pub demo_service : Service memory_repository
unfolding memory_repository
demo_service = record {
  repo = demo_tables;
  clock = λ n. pos (100 + n);
  readings = 0;
  random = zeros 40;
  token_ttl = default_device_token_ttl;
}

-- A codec that writes a state as it is, and forgets the index when it reads.
abbrev reading : JsonCodec
reading = record {
  Bytes = FileState;
  is_empty = λ b. false;
  encode = some;
  decode = some;
  reread_template = λ m. m;
  reread_capabilities = λ m. m;
  reread_config = λ m. m;
}

abbrev pub plain : JsonCodec
plain = record {
  Bytes = FileState;
  is_empty = λ b. false;
  encode = some;
  decode = λ b. some (reread reading b);
  reread_template = λ m. m;
  reread_capabilities = λ m. m;
  reread_config = λ m. m;
}

abbrev pub demo_store : List (Fault plain) → FileRepository plain
demo_store faults = record {
  path = "state.json";
  data_ = record { schema_version = pos 1; updated_at = pos 0; tables = demo_tables };
  disk = record { files = []; faults = faults };
  clock = λ n. pos (100 + n);
  readings = 0;
}
