-- ===== src/Device/Memory/ListLaws.antt =====
-- The listing methods of internal/device/memory_repository.go: filter, copy and sort by id.
use mathlib.Core.Logic.Or
use mathlib.Core.HLevel.{×_prop}
use mathlib.Core.Bool.{Bool-set}
use mathlib.Core.List.{
  Mem, Mem-prop, not-mem-nil, mem-cons, mem-cons_self, mem-cons_of_mem, mem-map_of_mem,
  exists_of_mem-map,
}
use mathlib.Core.List.Perm
use mathlib.Core.Logic.{∥∥₁_map}
use agen_sense.Prelude.{
  String, some, List, [], ◌∷◌, map, Bool, true, false, ◌&&◌, ◌≡◌, refl, subst, arith, Map, lookup,
  select, IsSorted, sort_slice, sort_slice-perm, sort_slice-IsSorted, str_lt, str_lt_asym, ok,
  string_eq, ◌==◌, Bool-cases, inl, inr, if◌then◌else◌,
}
use agen_sense.Device.Model.{
  Device, ProviderProfile, DeviceFilter, clone_device, clone_provider_profile,
}
use agen_sense.Device.Tables.{Tables}
use agen_sense.Device.Memory.Directory.{values, passes, list_devices, list_provider_profiles}

module _ {V : Type 0} where
  mem-values : (k : String) (v : V) (m : Map String V) → lookup k m ≡ some v → Mem v (values m)
  unfolding lookup
  mem-values k v [] h = absurd (cc)
  mem-values k v ((j, w) ∷ m) h = elim (Bool-cases (j == k)) [
    | inl e ↦
        let same : w ≡ v = ground arith in subst (λ x. Mem x (w ∷ values m)) same mem-cons_self
    | inr e ↦ mem-cons_of_mem w (mem-values k v m (ground arith))
  ]

  mem-select :
      (keep : V → Bool) (v : V) (xs : List V) → keep v ≡ true → Mem v xs → Mem v (select keep xs)
  mem-select keep v [] h m = absurd (not-mem-nil m)
  mem-select keep v (x ∷ xs) h m =
      Or.elim Mem-prop (mem-cons.0 m)
        (λ e. rw (subst (λ y. keep y ≡ true) e h) (rw e mem-cons_self))
        (λ later. kept (keep x) (mem-select keep v xs h later))
    where
      kept :
          (b : Bool)
          → Mem v (select keep xs)
          → Mem v (if b then x ∷ select keep xs else select keep xs)
      kept true r = mem-cons_of_mem x r
      kept false r = r

  mem_of_select :
      (keep : V → Bool) (v : V) (xs : List V) → Mem v (select keep xs) → Mem v xs × (keep v ≡ true)
  mem_of_select keep v [] m = absurd (not-mem-nil m)
  mem_of_select keep v (x ∷ xs) m = elim (Bool-cases (keep x)) [
    | inl e ↦
        Or.elim (×_prop Mem-prop (Bool-set (keep v) true)) (mem-cons.0 (rw e at m))
          (λ same. rw same (mem-cons_self, e)) (λ later. weaken (mem_of_select keep v xs later))
    | inr e ↦ weaken (mem_of_select keep v xs (rw e at m))
  ]
    where
      weaken : Mem v xs × (keep v ≡ true) → Mem v (x ∷ xs) × (keep v ≡ true)
      weaken p = (mem-cons_of_mem x p.0, p.1)

  -- A list of what a map holds: sorted by the test, and made of the copies of the kept values.
  record IsListing (less : V → V → Bool) (clone : V → V) (keep : V → Bool) (m : Map String V)
      (l : List V) : Type 0 where
    sorted : IsSorted less l
    complete : (k : String) (v : V) → lookup k m ≡ some v → keep v ≡ true → Mem (clone v) l
    sound :
        (x : V) → Mem x l → ∥ ((v : V) × (Mem v (values m) × (keep v ≡ true)) × (clone v ≡ x)) ∥₁

  sorted-IsListing :
      (less : V → V → Bool) (clone : V → V) (keep : V → Bool) (m : Map String V)
      → ((x y : V) → less x y ≡ true → less y x ≡ false)
      → IsListing less clone keep m (sort_slice less (map clone (select keep (values m))))
  sorted-IsListing less clone keep m asym = record {
    sorted = sort_slice-IsSorted less asym (map clone (select keep (values m)));
    complete = λ k v e h.
        (Perm.mem_iff (sort_slice-perm less (map clone (select keep (values m))))).1
          (mem-map_of_mem clone (mem-select keep v (values m) h (mem-values k v m e)));
    sound = λ x r.
        ∥∥₁_map
          (exists_of_mem-map
            ((Perm.mem_iff (sort_slice-perm less (map clone (select keep (values m))))).0 r))
          (λ found. (found.0, mem_of_select keep found.0 (values m) found.1, found.2));
  }

-- ListDevices changes nothing and returns a list sorted by id, made of copies of all and only the
-- stored devices that pass the filter.
list_devices_lem :
    (f : DeviceFilter) (s : Tables)
    → (l : List Device) × (list_devices f s ≡ (ok l, s))
      × IsListing
          (λ a b. str_lt a.id b.id)
          clone_device
          (λ d. passes f.tenant_id d.tenant_id && passes f.instance_id d.instance_id)
          s.devices
          l
unfolding list_devices
list_devices_lem f s =
    (_, refl, sorted-IsListing _ clone_device _ s.devices (λ x y. str_lt_asym x.id y.id))

-- ListProviderProfiles changes nothing and returns a list sorted by id, made of copies of all and
-- only the stored profiles of the tenant, or of all tenants for the empty name.
list_provider_profiles_lem :
    (tenant_id : String) (s : Tables)
    → (l : List ProviderProfile) × (list_provider_profiles tenant_id s ≡ (ok l, s))
      × IsListing
          (λ a b. str_lt a.id b.id)
          clone_provider_profile
          (λ p. passes tenant_id p.tenant_id)
          s.provider_profiles
          l
unfolding list_provider_profiles
list_provider_profiles_lem tenant_id s = (
  _,
  refl,
  sorted-IsListing _ clone_provider_profile _ s.provider_profiles (λ x y. str_lt_asym x.id y.id),
)
