-- ===== src/Store/Repository/Methods.antt =====
-- internal/store/file_repository.go: the methods of the interface. Each write changes the maps, then
-- flushes, and returns its copy only if the flush succeeded.
use agen_sense.Prelude.{
  ℤ, String, Option, none, some, List, ◌&&◌, ok, err, not_found, config_missing, conflict, Exec,
  ◌>>◌, pure, map, select, lookup, insert, sort_slice, str_lt, ltb_ℤ, string_eq, int_eq,
  if◌then◌else◌,
}
use agen_sense.Device.Model.{
  Time, Instance, Device, ProviderProfile, ConfigSnapshot, IssuedDeviceToken, DeviceFilter,
  clone_instance, clone_device, clone_provider_profile, clone_config_snapshot,
  clone_issued_device_token, clone_time_ptr,
}
use agen_sense.Device.Tables.{Tables, provider_profile_key}
use agen_sense.Device.Memory.Directory.{values, found, passes}
use agen_sense.Device.Memory.Configs.{snapshots_of, snapshot_at, latest_loop, latest_result}
use agen_sense.Device.Memory.Tokens.{clashes, token_of}
use agen_sense.Store.Disk.{JsonCodec}
use agen_sense.Store.Repository.Flush.{FileRepository, flush_locked}

module _ (C : JsonCodec) where
  abbrev pub tables_of : FileRepository C → Tables
  tables_of r = r.data_.tables

  -- An assignment to a map of `repo.data`.
  abbrev pub assign : (Tables → Tables) → Exec (FileRepository C) (Unit {0})
  assign f r = (ok tt, record r { data_ = record r.data_ { tables = f r.data_.tables } })

  unfoldable pub save_instance : Instance → Exec (FileRepository C) Instance
  save_instance i = do
    let i' = clone_instance i
    assign (λ s. record s { instances = insert i'.id i' s.instances })
    flush_locked C
    pure (clone_instance i')

  unfoldable pub get_instance : String → Exec (FileRepository C) Instance
  get_instance id r = (found clone_instance (lookup id (tables_of r).instances), r)

  unfoldable pub list_instances : String → Exec (FileRepository C) (List Instance)
  list_instances tenant_id r = (
    ok (
        sort_slice (λ a b. str_lt a.id b.id)
          (map clone_instance
            (select (λ i. passes tenant_id i.tenant_id) (values (tables_of r).instances)))),
    r,
  )

  unfoldable pub save_device : Device → Exec (FileRepository C) Device
  save_device d = do
    let d' = clone_device d
    assign (λ s. record s { devices = insert d'.id d' s.devices })
    flush_locked C
    pure (clone_device d')

  unfoldable pub get_device : String → Exec (FileRepository C) Device
  get_device id r = (found clone_device (lookup id (tables_of r).devices), r)

  unfoldable pub list_devices : DeviceFilter → Exec (FileRepository C) (List Device)
  list_devices f r = (
    ok (
        sort_slice (λ a b. str_lt a.id b.id)
          (map clone_device (
            select (λ d. passes f.tenant_id d.tenant_id && passes f.instance_id d.instance_id)
              (values (tables_of r).devices)))),
    r,
  )

  unfoldable pub save_provider_profile : ProviderProfile → Exec (FileRepository C) ProviderProfile
  save_provider_profile p = do
    let p' = clone_provider_profile p
    assign (λ s. record s {
      provider_profiles = insert (provider_profile_key p'.tenant_id p'.id) p' s.provider_profiles;
    })
    flush_locked C
    pure (clone_provider_profile p')

  unfoldable pub get_provider_profile : String → String → Exec (FileRepository C) ProviderProfile
  get_provider_profile tenant_id profile_id r = (
    found clone_provider_profile
        (lookup (provider_profile_key tenant_id profile_id) (tables_of r).provider_profiles),
    r,
  )

  unfoldable pub list_provider_profiles : String → Exec (FileRepository C) (List ProviderProfile)
  list_provider_profiles tenant_id r = (
    ok (
        sort_slice (λ a b. str_lt a.id b.id)
          (map clone_provider_profile
            (select (λ p. passes tenant_id p.tenant_id) (values (tables_of r).provider_profiles)))),
    r,
  )

  unfoldable pub save_config_snapshot : ConfigSnapshot → Exec (FileRepository C) ConfigSnapshot
  save_config_snapshot c = do
    let c' = clone_config_snapshot c
    assign (λ s. record s {
      config_snapshots =
          insert c.device_id (insert c'.version c' (snapshots_of c.device_id s)) s.config_snapshots;
    })
    flush_locked C
    pure (clone_config_snapshot c')

  unfoldable pub get_config_snapshot : String → ℤ → Exec (FileRepository C) ConfigSnapshot
  get_config_snapshot device_id version r =
      (found clone_config_snapshot (snapshot_at device_id version (tables_of r)), r)

  unfoldable pub get_latest_config_snapshot : String → Exec (FileRepository C) ConfigSnapshot
  get_latest_config_snapshot device_id r =
      (latest_result (latest_loop none (snapshots_of device_id (tables_of r))), r)

  unfoldable pub list_config_snapshots : String → Exec (FileRepository C) (List ConfigSnapshot)
  list_config_snapshots device_id r = (
    ok (
        sort_slice (λ a b. ltb_ℤ a.version b.version)
          (map clone_config_snapshot (values (snapshots_of device_id (tables_of r))))),
    r,
  )

  -- What SetDesiredConfigVersion and AckConfigVersion share.
  abbrev change_device :
      Option Device
      → Option ConfigSnapshot
      → (Device → Device)
      → String
      → Exec (FileRepository C) Device
  change_device none c f device_id r = (err not_found, r)
  change_device (some d) none f device_id r = (err config_missing, r)
  change_device (some d) (some c) f device_id r =
      (do
        assign (λ s. record s { devices = insert device_id (f d) s.devices })
        flush_locked C
        pure (clone_device (f d)))
        r

  unfoldable pub set_desired_config_version : String → ℤ → Exec (FileRepository C) Device
  set_desired_config_version device_id version r =
      change_device (lookup device_id (tables_of r).devices)
        (snapshot_at device_id version (tables_of r))
        (λ d. record d { desired_config_version = version }) device_id r

  unfoldable pub ack_config_version : String → ℤ → Time → Exec (FileRepository C) Device
  ack_config_version device_id version acked_at r =
      change_device (lookup device_id (tables_of r).devices)
        (snapshot_at device_id version (tables_of r))
        (λ d. record d {
          reported_config_version = version;
          updated_at = acked_at;
          last_seen_at = some acked_at;
        })
        device_id r

  abbrev store_issued : IssuedDeviceToken → Exec (FileRepository C) IssuedDeviceToken
  store_issued t' = do
    assign (λ s. record s {
      issued_tokens = insert t'.id t' s.issued_tokens;
      token_index = insert t'.token_hash t'.id s.token_index;
    })
    flush_locked C
    pure (clone_issued_device_token t')

  unfoldable pub save_issued_device_token :
      IssuedDeviceToken → Exec (FileRepository C) IssuedDeviceToken
  save_issued_device_token t r =
      let t' = clone_issued_device_token t in
      if clashes (lookup t'.token_hash (tables_of r).token_index) t'.id
      then (err conflict, r)
      else store_issued t' r

  unfoldable pub get_issued_device_token : String → Exec (FileRepository C) IssuedDeviceToken
  get_issued_device_token token_id r =
      (found clone_issued_device_token (lookup token_id (tables_of r).issued_tokens), r)

  unfoldable pub find_issued_device_token_by_hash :
      String → Exec (FileRepository C) IssuedDeviceToken
  find_issued_device_token_by_hash token_hash r = (
    found clone_issued_device_token
        (token_of (lookup token_hash (tables_of r).token_index) (tables_of r)),
    r,
  )

  abbrev change_token :
      Option IssuedDeviceToken
      → (IssuedDeviceToken → IssuedDeviceToken)
      → String
      → Exec (FileRepository C) IssuedDeviceToken
  change_token none f token_id r = (err not_found, r)
  change_token (some t) f token_id r =
      (do
        assign (λ s. record s { issued_tokens = insert token_id (f t) s.issued_tokens })
        flush_locked C
        pure (clone_issued_device_token (f t)))
        r

  unfoldable pub touch_issued_device_token :
      String → Time → Exec (FileRepository C) IssuedDeviceToken
  touch_issued_device_token token_id used_at r =
      change_token (lookup token_id (tables_of r).issued_tokens)
        (λ t. record t { last_used_at = clone_time_ptr (some used_at) }) token_id r

  unfoldable pub revoke_issued_device_token :
      String → Time → Exec (FileRepository C) IssuedDeviceToken
  revoke_issued_device_token token_id revoked_at r =
      change_token (lookup token_id (tables_of r).issued_tokens)
        (λ t. record t { revoked_at = clone_time_ptr (some revoked_at) }) token_id r
