-- ===== src/Device/Memory/Directory.antt =====
-- internal/device/memory_repository.go: instances, devices and provider profiles.
use agen_sense.Prelude.{
  String, Option, none, some, List, Bool, ◌&&◌, ◌||◌, Map, lookup, insert, map, select, Result, ok,
  err, not_found, Exec, ◌==◌, string_eq, sort_slice, str_lt,
}
use agen_sense.Device.Model.{
  Instance, Device, ProviderProfile, DeviceFilter, clone_instance, clone_device,
  clone_provider_profile,
}
use agen_sense.Device.Tables.{Tables, provider_profile_key}

-- The values that a `range` loop over a map visits.
abbrev pub values {ℓ κ} : {K : Type ℓ} {V : Type κ} → Map K V → List V
values m = map (λ e. e.1) m

-- `value, ok := m[key]; if !ok { return ErrNotFound }; return clone(value)`
abbrev pub found {ℓ} : {A : Type ℓ} → (A → A) → Option A → Result A
found clone none = err not_found
found clone (some a) = ok (clone a)

-- `filter != "" && value != filter` is the test for `continue`.
abbrev pub passes : String → String → Bool
passes filter value = filter == "" || value == filter

unfoldable pub save_instance : Instance → Exec Tables Instance
save_instance i s =
    let i' = clone_instance i in
    (ok (clone_instance i'), record s { instances = insert i'.id i' s.instances })

unfoldable pub get_instance : String → Exec Tables Instance
get_instance id s = (found clone_instance (lookup id s.instances), s)

unfoldable pub list_instances : String → Exec Tables (List Instance)
list_instances tenant_id s = (
  ok (
      sort_slice (λ a b. str_lt a.id b.id)
        (map clone_instance (select (λ i. passes tenant_id i.tenant_id) (values s.instances)))),
  s,
)

unfoldable pub save_device : Device → Exec Tables Device
save_device d s =
    let d' = clone_device d in
    (ok (clone_device d'), record s { devices = insert d'.id d' s.devices })

unfoldable pub get_device : String → Exec Tables Device
get_device id s = (found clone_device (lookup id s.devices), s)

unfoldable pub list_devices : DeviceFilter → Exec Tables (List Device)
list_devices f s = (
  ok (
      sort_slice (λ a b. str_lt a.id b.id)
        (map clone_device (
          select (λ d. passes f.tenant_id d.tenant_id && passes f.instance_id d.instance_id)
            (values s.devices)))),
  s,
)

unfoldable pub save_provider_profile : ProviderProfile → Exec Tables ProviderProfile
save_provider_profile p s =
    let p' = clone_provider_profile p in
    (
      ok (clone_provider_profile p'),
      record s {
        provider_profiles = insert (provider_profile_key p'.tenant_id p'.id) p' s.provider_profiles;
      },
    )

unfoldable pub get_provider_profile : String → String → Exec Tables ProviderProfile
get_provider_profile tenant_id profile_id s = (
  found clone_provider_profile
      (lookup (provider_profile_key tenant_id profile_id) s.provider_profiles),
  s,
)

unfoldable pub list_provider_profiles : String → Exec Tables (List ProviderProfile)
list_provider_profiles tenant_id s = (
  ok (
      sort_slice (λ a b. str_lt a.id b.id)
        (map clone_provider_profile
          (select (λ p. passes tenant_id p.tenant_id) (values s.provider_profiles)))),
  s,
)
