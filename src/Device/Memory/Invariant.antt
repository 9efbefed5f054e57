-- ===== src/Device/Memory/Invariant.antt =====
-- The invariant of the tables of internal/device/memory_repository.go.
use agen_sense.Prelude.{
  ℤ, String, Option, none, some, List, [], ◌∷◌, ◌≡◌, refl, ◌∙◌, subst, arith, Map, lookup, insert,
  lookup-insert, IsKeyed, IsKeyed-empty, IsKeyed-insert, IsUnique, IsUnique-insert, ==_iff,
  string_eq, int_eq, Option-cases, inl, inr, Bool-cases, false, ◌==◌, if◌then◌else◌,
}
use agen_sense.Device.Model.{
  Instance, Device, ProviderProfile, ConfigSnapshot, IssuedDeviceToken, clone_instance,
  clone_device, clone_provider_profile, clone_config_snapshot, clone_issued_device_token_lem,
}
use agen_sense.Device.Tables.{Tables, new_memory_repository, provider_profile_key}
use agen_sense.Device.Memory.Directory
use agen_sense.Device.Memory.Configs
use agen_sense.Device.Memory.Configs.{
  snapshots_of, snapshot_at, update_device, snapshot_at-save_config_snapshot,
}
use agen_sense.Device.Memory.Tokens
use agen_sense.Device.Memory.Tokens.{clashes, update_token}
use agen_sense.Device.Memory.Changes.{Call, after, after_all}

-- Every record stands under its own key, and the index leads from the hash of every stored token
-- to that token, and nowhere but to stored tokens.
pub record IsWellFormed (s : Tables) : Type 0 where
  pub instances : IsKeyed (λ i. i.id) s.instances
  pub devices : IsKeyed (λ d. d.id) s.devices
  pub profiles : IsKeyed (λ p. provider_profile_key p.tenant_id p.id) s.provider_profiles
  pub snapshots :
      (d : String) (v : ℤ) (c : ConfigSnapshot)
      → snapshot_at d v s ≡ some c
      → (c.device_id ≡ d) × (c.version ≡ v)
  pub tokens : IsKeyed (λ t. t.id) s.issued_tokens
  pub unique : IsUnique s.issued_tokens
  pub indexed :
      (id : String) (t : IssuedDeviceToken)
      → lookup id s.issued_tokens ≡ some t
      → lookup t.token_hash s.token_index ≡ some id
  pub index_leads :
      (h id : String)
      → lookup h s.token_index ≡ some id
      → (t : IssuedDeviceToken) × (lookup id s.issued_tokens ≡ some t)

pub new_memory_repository-IsWellFormed : IsWellFormed new_memory_repository
unfolding lookup snapshot_at snapshots_of
new_memory_repository-IsWellFormed = record {
  instances = IsKeyed-empty (λ i. i.id);
  devices = IsKeyed-empty (λ d. d.id);
  profiles = IsKeyed-empty (λ p. provider_profile_key p.tenant_id p.id);
  snapshots = λ d v c h. cc;
  tokens = IsKeyed-empty (λ t. t.id);
  unique = tt;
  indexed = λ id t h. cc;
  index_leads = λ h id e. cc;
}

module _ {s : Tables} (w : IsWellFormed s) where
  with_instances :
      (m : Map String Instance) → IsKeyed (λ i. i.id) m → IsWellFormed (record s { instances = m })
  unfolding snapshot_at snapshots_of
  with_instances m k = record {
    instances = k;
    devices = w.devices;
    profiles = w.profiles;
    snapshots = w.snapshots;
    tokens = w.tokens;
    unique = w.unique;
    indexed = w.indexed;
    index_leads = w.index_leads;
  }

  with_devices :
      (m : Map String Device) → IsKeyed (λ d. d.id) m → IsWellFormed (record s { devices = m })
  unfolding snapshot_at snapshots_of
  with_devices m k = record {
    instances = w.instances;
    devices = k;
    profiles = w.profiles;
    snapshots = w.snapshots;
    tokens = w.tokens;
    unique = w.unique;
    indexed = w.indexed;
    index_leads = w.index_leads;
  }

  with_profiles :
      (m : Map String ProviderProfile)
      → IsKeyed (λ p. provider_profile_key p.tenant_id p.id) m
      → IsWellFormed (record s { provider_profiles = m })
  unfolding snapshot_at snapshots_of
  with_profiles m k = record {
    instances = w.instances;
    devices = w.devices;
    profiles = k;
    snapshots = w.snapshots;
    tokens = w.tokens;
    unique = w.unique;
    indexed = w.indexed;
    index_leads = w.index_leads;
  }

  -- A token written under its own id, with a hash that is free or its own already.
  with_token :
      (t : IssuedDeviceToken) (index : Map String String)
      → ((h : String) → lookup h index ≡ lookup h (insert t.token_hash t.id s.token_index))
      → clashes (lookup t.token_hash s.token_index) t.id ≡ false
      → IsWellFormed
          (record s { issued_tokens = insert t.id t s.issued_tokens; token_index = index })
  unfolding snapshot_at snapshots_of
  with_token t index same free = record {
    instances = w.instances;
    devices = w.devices;
    profiles = w.profiles;
    snapshots = w.snapshots;
    tokens = IsKeyed-insert (λ t. t.id) t.id t s.issued_tokens refl w.tokens;
    unique = IsUnique-insert t.id t s.issued_tokens w.unique;
    indexed = λ id u e. rw same (
        rw lookup-insert (
          ground (
            arith,
            lookup-insert t.id id t s.issued_tokens,
            w.indexed id u,
            ==_iff t.id id,
            ==_iff t.token_hash u.token_hash,
            ==_iff id t.id,
          )));
    index_leads = λ h id e.
        leads h id (ground (arith, same h, lookup-insert t.token_hash h t.id s.token_index, e));
  }
    where
      leads :
          (h id : String)
          → (if t.token_hash == h then some t.id else lookup h s.token_index) ≡ some id
          → (u : IssuedDeviceToken) × (lookup id (insert t.id t s.issued_tokens) ≡ some u)
      leads h id e = elim (Bool-cases (t.id == id)) [
        | inl p ↦ (t, rw lookup-insert (rw p refl))
        | inr p ↦
            let old = w.index_leads h id (ground (arith, e, p, ==_iff t.id id)) in
            (old.0, rw lookup-insert (rw p old.1))
      ]

  save_instance-IsWellFormed : (i : Instance) → IsWellFormed (Directory.save_instance i s).1
  unfolding Directory.save_instance clone_instance
  save_instance-IsWellFormed i =
      with_instances _ (IsKeyed-insert (λ i. i.id) i.id _ s.instances refl w.instances)

  save_device-IsWellFormed : (d : Device) → IsWellFormed (Directory.save_device d s).1
  unfolding Directory.save_device clone_device
  save_device-IsWellFormed d =
      with_devices _ (IsKeyed-insert (λ d. d.id) d.id _ s.devices refl w.devices)

  save_provider_profile-IsWellFormed :
      (p : ProviderProfile) → IsWellFormed (Directory.save_provider_profile p s).1
  unfolding Directory.save_provider_profile clone_provider_profile
  save_provider_profile-IsWellFormed p =
      with_profiles _ (IsKeyed-insert _ _ p s.provider_profiles refl w.profiles)

  save_config_snapshot-IsWellFormed :
      (c : ConfigSnapshot) → IsWellFormed (Configs.save_config_snapshot c s).1
  unfolding Configs.save_config_snapshot clone_config_snapshot
  save_config_snapshot-IsWellFormed c = record {
    instances = w.instances;
    devices = w.devices;
    profiles = w.profiles;
    snapshots = λ d v b e. ground (
      arith,
      snapshot_at-save_config_snapshot c d v s,
      w.snapshots d v b,
      ==_iff c.device_id d,
      ==_iff c.version v,
    );
    tokens = w.tokens;
    unique = w.unique;
    indexed = w.indexed;
    index_leads = w.index_leads;
  }

  update_device-IsWellFormed :
      (device_id : String) (c : Option ConfigSnapshot) (f : Device → Device)
      → ((d : Device) → (f d).id ≡ d.id)
      → IsWellFormed (update_device (lookup device_id s.devices) c f device_id s).1
  update_device-IsWellFormed device_id c f same = elim (Option-cases (lookup device_id s.devices)) [
    | inl e ↦ rw e w
    | inr (d, e) ↦ rw e (written d e c)
  ]
    where
      written :
          (d : Device)
          → lookup device_id s.devices ≡ some d
          → (c : Option ConfigSnapshot) → IsWellFormed (update_device (some d) c f device_id s).1
      written d e none = w
      written d e (some c) = with_devices _ (
          IsKeyed-insert (λ d. d.id) device_id (f d) s.devices (same d ∙ w.devices device_id d e)
            w.devices)

  save_issued_device_token-IsWellFormed :
      (t : IssuedDeviceToken) → IsWellFormed (Tokens.save_issued_device_token t s).1
  unfolding Tokens.save_issued_device_token
  save_issued_device_token-IsWellFormed t =
      rw (clone_issued_device_token_lem t)
        (elim (Bool-cases (clashes (lookup t.token_hash s.token_index) t.id)) [
          | inl e ↦ rw e w
          | inr e ↦ rw e (with_token t _ (λ h. refl) e)
        ])

  update_token-IsWellFormed :
      (token_id : String) (f : IssuedDeviceToken → IssuedDeviceToken)
      → ((t : IssuedDeviceToken) → ((f t).id ≡ t.id) × ((f t).token_hash ≡ t.token_hash))
      → IsWellFormed (update_token (lookup token_id s.issued_tokens) f token_id s).1
  update_token-IsWellFormed token_id f same =
      elim (Option-cases (lookup token_id s.issued_tokens)) [
        | inl e ↦ rw e w
        | inr (t, e) ↦ rw e (written t e (w.tokens token_id t e) (w.indexed token_id t e))
      ]
    where
      written :
          (t : IssuedDeviceToken)
          → lookup token_id s.issued_tokens ≡ some t
          → t.id ≡ token_id
          → lookup t.token_hash s.token_index ≡ some token_id
          → IsWellFormed (record s { issued_tokens = insert token_id (f t) s.issued_tokens })
      written t e own found =
          subst (λ k. IsWellFormed (record s { issued_tokens = insert k (f t) s.issued_tokens }))
            ((same t).0 ∙ own)
            (with_token (f t) s.token_index
              (λ h. ground (
                arith,
                lookup-insert (f t).token_hash h (f t).id s.token_index,
                same t,
                ==_iff (f t).token_hash h,
              ))
              (ground (arith, same t, ==_iff token_id (f t).id)))

-- Each call keeps the invariant.
pub after-IsWellFormed : {s : Tables} (c : Call) → IsWellFormed s → IsWellFormed (after s c)
unfolding after Configs.set_desired_config_version Configs.ack_config_version
    Tokens.touch_issued_device_token Tokens.revoke_issued_device_token
after-IsWellFormed (Call.save_instance i) w = save_instance-IsWellFormed w i
after-IsWellFormed (Call.save_device d) w = save_device-IsWellFormed w d
after-IsWellFormed (Call.save_provider_profile p) w = save_provider_profile-IsWellFormed w p
after-IsWellFormed (Call.save_config_snapshot c) w = save_config_snapshot-IsWellFormed w c
after-IsWellFormed (Call.set_desired_config_version d v) w =
    update_device-IsWellFormed w d _ _ (λ x. refl)
after-IsWellFormed (Call.ack_config_version d v t) w =
    update_device-IsWellFormed w d _ _ (λ x. refl)
after-IsWellFormed (Call.save_issued_device_token t) w = save_issued_device_token-IsWellFormed w t
after-IsWellFormed (Call.touch_issued_device_token id t) w =
    update_token-IsWellFormed w id _ (λ x. (refl, refl))
after-IsWellFormed (Call.revoke_issued_device_token id t) w =
    update_token-IsWellFormed w id _ (λ x. (refl, refl))

-- From well-formed tables, any sequence of writes of the repository in memory, those that return an
-- error included, leads to well-formed tables: every record stands under its own key, the index
-- leads from the hash of every stored token to that token, and from no hash to a token that is not
-- stored.
pub after_all-IsWellFormed :
    (s : Tables) (cs : List Call) → IsWellFormed s → IsWellFormed (after_all s cs)
unfolding after_all
after_all-IsWellFormed s [] w = w
after_all-IsWellFormed s (c ∷ cs) w = after_all-IsWellFormed (after s c) cs (after-IsWellFormed c w)
