-- ===== src/Store/Repository/Flush.antt =====
-- internal/store/file_repository.go: opening the file, and writing it back.
use agen_sense.Prelude.{
  ℕ, suc, String, Option, none, some, Result, ok, err, other, invalid_input, Exec, ◌>>=◌, ◌>>◌,
  ◌==◌, string_eq, if◌then◌else◌,
}
use Prim.Native.String.{◌++◌}
use agen_sense.Device.Model.{Time}
use agen_sense.Store.State.{
  FileState, state_schema_version, new_file_state, persisted_copy, normalize_state,
}
use agen_sense.Store.Disk.{JsonCodec, Disk, mkdir_all, read_file, write_file, rename}

module _ (C : JsonCodec) where
  pub record FileRepository : Type 0 where
    pub path : String
    pub data_ : FileState
    pub disk : Disk C
    pub clock : ℕ → Time
    pub readings : ℕ

  -- A call of the file system.
  abbrev pub on_disk : {A : Type 0} → (Disk C → Result A × Disk C) → Exec FileRepository A
  on_disk op r = ((op r.disk).0, record r { disk = (op r.disk).1 })

  -- `len(payload) == 0` keeps the fresh state, as a missing file does.
  abbrev loaded : Option C.Bytes → Exec FileRepository (Unit {0})
  loaded none r = (ok tt, r)
  loaded (some b) r = if C.is_empty b then (ok tt, r) else (elim (C.decode b) [
    | none ↦ (err (other "json: cannot unmarshal"), r)
    | some s ↦ (ok tt, record r { data_ = normalize_state s })
  ])

  unfoldable pub load : Exec FileRepository (Unit {0})
  load r = (do on_disk (mkdir_all C); payload ← on_disk (read_file C r.path); loaded payload) r

  abbrev opened : Result (Unit {0}) × FileRepository → Result FileRepository
  opened (ok u, r) = ok r
  opened (err e, r) = err e

  unfoldable pub new_file_repository : String → Disk C → (ℕ → Time) → Result FileRepository
  unfolding load
  new_file_repository path disk clock =
      if path == ""
      then err invalid_input
      else opened (
          load (record {
            path = path;
            data_ = new_file_state;
            disk = disk;
            clock = clock;
            readings = 0;
          }))

  abbrev pub tmp_path : String → String
  tmp_path path = path ++ ".tmp"

  -- The state that flushLocked stamps before it writes.
  abbrev pub stamped : FileRepository → FileRepository
  stamped r = record r {
    data_ = record r.data_ {
      schema_version = state_schema_version;
      updated_at = r.clock r.readings;
    };
    readings = suc r.readings;
  }

  unfoldable pub write_payload : Option C.Bytes → Exec FileRepository (Unit {0})
  write_payload none r = (err (other "json: cannot marshal"), r)
  write_payload (some payload) r =
      (do
        on_disk (write_file C (tmp_path r.path) payload)
        on_disk (rename C (tmp_path r.path) r.path))
        r

  unfoldable pub flush_locked : Exec FileRepository (Unit {0})
  unfolding write_payload
  flush_locked r = write_payload (C.encode (persisted_copy (stamped r).data_)) (stamped r)
