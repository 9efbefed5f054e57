-- ===== src/Store/State.antt =====
-- internal/store/file_repository.go: the file state, and its copies on the way to the file and
-- back. A loop over a Go map visits each key once, in an order that is left open.
use agen_sense.Prelude.{
  ℤ, pos, String, [], ◌∷◌, Map, insert, map_values, ◌==◌, string_eq, if◌then◌else◌,
}
use agen_sense.Device.Model.{
  Time, zero_time, IssuedDeviceToken, clone_instance, clone_device, clone_provider_profile,
  clone_config_snapshot, clone_issued_device_token,
}
use agen_sense.Device.Tables.{Tables, new_memory_repository}

abbrev pub state_schema_version : ℤ
state_schema_version = pos 1

pub record FileState : Type 0 where
  pub schema_version : ℤ
  pub updated_at : Time
  pub tables : Tables
  pub open tables use *

unfoldable pub new_file_state : FileState
new_file_state = record {
  schema_version = state_schema_version;
  updated_at = zero_time;
  tables = new_memory_repository;
}

-- What persistedCopy and normalizeState both do with the maps but the index, which they leave empty.
unfoldable pub copy_tables : Tables → Tables
copy_tables s = record {
  instances = map_values clone_instance s.instances;
  devices = map_values clone_device s.devices;
  provider_profiles = map_values clone_provider_profile s.provider_profiles;
  config_snapshots = map_values (map_values clone_config_snapshot) s.config_snapshots;
  issued_tokens = map_values clone_issued_device_token s.issued_tokens;
  token_index = [];
}

-- The index that normalizeState builds: the hash of each token that has one.
unfoldable pub index_of : Map String IssuedDeviceToken → Map String String
index_of [] = []
index_of ((token_id, t) ∷ m) =
    let rest = index_of m in if t.token_hash == "" then rest else insert t.token_hash token_id rest

unfoldable pub persisted_copy : FileState → FileState
unfolding copy_tables
persisted_copy s = record s { tables = copy_tables s.tables }

unfoldable pub normalize_state : FileState → FileState
unfolding copy_tables index_of
normalize_state s = record s {
  tables = record (copy_tables s.tables) { token_index = index_of s.issued_tokens };
}
