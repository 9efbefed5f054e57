-- ===== src/Tests/Store.antt =====
-- The repository of internal/store/file_repository.go on the test data.
use agen_sense.Prelude.{
  ℕ, pos, ◌+◌, String, none, some, List, [], ◌∷◌, ◌≡◌, ◌⊎◌, ◌≢◌, refl, string_eq, int_eq, ok, err,
  other, lookup, insert, remove, map_values,
}
use agen_sense.Device.Model
use agen_sense.Device.Model.{Time, clone_device, IssuedDeviceToken}
use agen_sense.Device.Memory.Directory
use agen_sense.Device.Memory.Configs
use agen_sense.Device.Memory.Tokens
use agen_sense.Device.Memory.Changes.{after, after_all}
use agen_sense.Device.Memory.TokenLaws.{found_by_hash}
use agen_sense.Store.State.{FileState, new_file_state, persisted_copy, copy_tables}
use agen_sense.Store.Disk.{RoundTrips, Fault, fails, succeeds, reread, write_file, rename}
use agen_sense.Store.Repository.Methods
use agen_sense.Store.Repository.Methods.{tables_of}
use agen_sense.Store.Repository.Flush.{
  FileRepository, flush_locked, write_payload, stamped, new_file_repository,
}
use agen_sense.Store.Repository.FlushLaws.{flush_locked_atomic}
use agen_sense.Store.Repository.Reload.{later, save-restart-find}
use agen_sense.Store.Repository.Runs.{file_after_all, file_after_all_lem}
use agen_sense.Tests.Data.{
  demo_token, demo_tables, demo_tables-IsWellFormed, demo_calls, demo_store, plain,
}

-- The write of the temporary file succeeds, and the rename fails.
abbrev no_rename : List (Fault plain)
no_rename = succeeds ∷ fails "no space left" none ∷ []

flush_locked_atomic_example :
    ((b : FileState) × (some (persisted_copy (stamped plain (demo_store no_rename)).data_) ≡ some b)
      × ((flush_locked plain (demo_store no_rename)).0 ≡ ok tt)
      × (lookup (demo_store no_rename).path (flush_locked plain (demo_store no_rename)).1.disk.files
          ≡ some b))
    ⊎ ((e : String) × ((flush_locked plain (demo_store no_rename)).0 ≡ err (other e))
        × (lookup
              (demo_store no_rename).path
              (flush_locked plain (demo_store no_rename)).1.disk.files
            ≡ lookup (demo_store no_rename).path (demo_store no_rename).disk.files))
flush_locked_atomic_example = flush_locked_atomic plain (demo_store no_rename)

file_after_all_lem_example :
    tables_of plain (file_after_all plain (demo_store no_rename) demo_calls)
    ≡ after_all (tables_of plain (demo_store no_rename)) demo_calls
file_after_all_lem_example = file_after_all_lem plain (demo_store no_rename) demo_calls

plain-RoundTrips : RoundTrips plain
unfolding reread
plain-RoundTrips s b e = (cc, refl)

path_is_named : (demo_store []).path ≢ ""
path_is_named e = absurd (cc e)

abbrev demo_clock : ℕ → Time
demo_clock n = pos (500 + n)

store_flushes : (flush_locked plain (demo_store [])).0 ≡ ok tt
unfolding Methods.save_issued_device_token flush_locked write_payload write_file rename
    persisted_copy copy_tables new_file_state map_values remove Configs.snapshot_at
    Configs.snapshots_of after_all after Directory.save_instance Directory.save_device
    Configs.save_config_snapshot Tokens.save_issued_device_token Model.clone_instance
    Model.clone_device Model.clone_config_snapshot Model.clone_issued_device_token
    Model.clone_raw_message Model.clone_time_ptr lookup insert
store_flushes = refl

abbrev fresh : IssuedDeviceToken
fresh = record demo_token { id = "tok-2"; token_hash = "h:fresh" }

store_saves : (Methods.save_issued_device_token plain fresh (demo_store [])).0 ≡ ok fresh
unfolding Methods.save_issued_device_token flush_locked write_payload write_file rename
    persisted_copy copy_tables new_file_state map_values remove Configs.snapshot_at
    Configs.snapshots_of after_all after Directory.save_instance Directory.save_device
    Configs.save_config_snapshot Tokens.save_issued_device_token Model.clone_instance
    Model.clone_device Model.clone_config_snapshot Model.clone_issued_device_token
    Model.clone_raw_message Model.clone_time_ptr lookup insert
store_saves = refl

save-restart-find_example :
    (r' : FileRepository plain) × (new_file_repository plain
        (demo_store []).path
        (later plain (Methods.save_issued_device_token plain fresh (demo_store [])).1.disk)
        demo_clock
      ≡ ok r')
    × (found_by_hash "h:fresh" (tables_of plain r') ≡ some fresh)
save-restart-find_example =
    save-restart-find plain fresh fresh (demo_store []) demo_clock plain-RoundTrips path_is_named
      (λ e. absurd (cc e)) demo_tables-IsWellFormed store_saves

abbrev demo_state : FileState
demo_state = record { schema_version = pos 1; updated_at = pos 0; tables = demo_tables }

demo_token_stored : lookup "tok-1" demo_tables.issued_tokens ≡ some demo_token
unfolding Configs.snapshot_at Configs.snapshots_of after_all after Directory.save_instance
    Directory.save_device Configs.save_config_snapshot Tokens.save_issued_device_token
    Model.clone_instance Model.clone_device Model.clone_config_snapshot
    Model.clone_issued_device_token Model.clone_raw_message Model.clone_time_ptr lookup insert
demo_token_stored = refl
