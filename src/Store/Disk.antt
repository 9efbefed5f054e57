-- ===== src/Store/Disk.antt =====
-- What internal/store/file_repository.go uses of encoding/json and of the file system.
--
-- A call of the file system succeeds, or fails with the error that the list of faults holds for
-- it; a write that fails may leave anything, or nothing new, in its file.
use agen_sense.Prelude.{
  String, Option, none, some, List, [], ◌∷◌, Bool, false, Map, map_values, lookup, insert, remove,
  ◌≡◌, other, Result, ok, err, string_eq,
}
use agen_sense.Device.Model.{RawMessage, Instance, Device, ConfigSnapshot}
use agen_sense.Store.State.{FileState}

-- The program's use of encoding/json on a file state. What decoding gives back is the encoded
-- state, but for the raw messages, which are indented anew, and the index, which is not encoded.
pub record JsonCodec : Type 1 where
  pub Bytes : Type 0
  pub is_empty : Bytes → Bool
  pub encode : FileState → Option Bytes
  pub decode : Bytes → Option FileState
  pub reread_template : RawMessage → RawMessage
  pub reread_capabilities : RawMessage → RawMessage
  pub reread_config : RawMessage → RawMessage

module _ (C : JsonCodec) where
  unfoldable pub reread_device : Device → Device
  reread_device d = record d { capabilities = C.reread_capabilities d.capabilities }

  unfoldable pub reread_instance : Instance → Instance
  reread_instance i = record i { config_template = C.reread_template i.config_template }

  unfoldable pub reread_snapshot : ConfigSnapshot → ConfigSnapshot
  reread_snapshot c = record c { config = C.reread_config c.config }

  unfoldable pub reread : FileState → FileState
  unfolding reread_device reread_instance reread_snapshot
  reread s = record s {
    tables = record {
      instances = map_values reread_instance s.instances;
      devices = map_values reread_device s.devices;
      provider_profiles = s.provider_profiles;
      config_snapshots = map_values (map_values reread_snapshot) s.config_snapshots;
      issued_tokens = s.issued_tokens;
      token_index = [];
    };
  }

  -- What encoding/json promises: an encoded state is not empty, and decodes to its rereading.
  abbrev pub RoundTrips : Type 0
  RoundTrips =
      (s : FileState) (b : C.Bytes)
      → C.encode s ≡ some b
      → (C.decode b ≡ some (reread s)) × (C.is_empty b ≡ false)

  pub data Fault : Type 0 where
    succeeds : Fault
    fails : String → Option C.Bytes → Fault

  pub record Disk : Type 0 where
    pub files : Map String C.Bytes
    pub faults : List Fault

  -- os.WriteFile
  abbrev pub written :
      Fault → String → C.Bytes → Map String C.Bytes → Result (Unit {0}) × Map String C.Bytes
  written succeeds path b files = (ok tt, insert path b files)
  written (fails e none) path b files = (err (other e), files)
  written (fails e (some left)) path b files = (err (other e), insert path left files)

  abbrev pub first : List Fault → Fault
  first [] = succeeds
  first (f ∷ fs) = f

  abbrev pub others : List Fault → List Fault
  others [] = []
  others (f ∷ fs) = fs

  unfoldable pub write_file : String → C.Bytes → Disk → Result (Unit {0}) × Disk
  write_file path b d =
      let (result, files) = written (first d.faults) path b d.files in
      (result, record { files = files; faults = others d.faults })

  -- os.Rename, which replaces the target in one step or fails and does nothing.
  abbrev pub renamed :
      Fault
      → Option C.Bytes
      → String
      → String
      → Map String C.Bytes
      → Result (Unit {0}) × Map String C.Bytes
  renamed (fails e left) b from to files = (err (other e), files)
  renamed succeeds none from to files = (err (other "no such file or directory"), files)
  renamed succeeds (some b) from to files = (ok tt, insert to b (remove from files))

  unfoldable pub rename : String → String → Disk → Result (Unit {0}) × Disk
  rename from to d =
      let (result, files) = renamed (first d.faults) (lookup from d.files) from to d.files in
      (result, record { files = files; faults = others d.faults })

  -- os.MkdirAll of the file's directory, whose only effect here is its error.
  abbrev pub made : Fault → Result (Unit {0})
  made succeeds = ok tt
  made (fails e left) = err (other e)

  unfoldable pub mkdir_all : Disk → Result (Unit {0}) × Disk
  mkdir_all d = (made (first d.faults), record { files = d.files; faults = others d.faults })

  -- os.ReadFile: `ok none` is os.ErrNotExist.
  abbrev pub read : Fault → Option C.Bytes → Result (Option C.Bytes)
  read succeeds b = ok b
  read (fails e left) b = err (other e)

  unfoldable pub read_file : String → Disk → Result (Option C.Bytes) × Disk
  read_file path d = (
    read (first d.faults) (lookup path d.files),
    record { files = d.files; faults = others d.faults },
  )
