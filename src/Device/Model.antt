-- ===== src/Device/Model.antt =====
-- internal/device/model.go: the stored records, and the copies that the repositories make of them.
-- A raw JSON message is a Go slice: `none` is nil, `some b` are the bytes b. A time is counted
-- from time.Time's zero value. The credentials, URLs and model names of a provider profile are
-- plain texts that no code of the package looks into.
use agen_sense.Prelude.{ℤ, pos, String, Option, none, some, List, [], ◌∷◌, ℕ, ◌≡◌, refl}

abbrev pub Time : Type 0
Time = ℤ

abbrev pub zero_time : Time
zero_time = pos 0

abbrev pub RawMessage : Type 0
RawMessage = Option (List ℕ)

pub record Instance : Type 0 where
  pub id : String
  pub tenant_id : String
  pub name : String
  pub region : String
  pub gateway_ws_url : String
  pub provider_profile_id : String
  pub config_template : RawMessage
  pub created_at : Time
  pub updated_at : Time

pub record Device : Type 0 where
  pub id : String
  pub tenant_id : String
  pub instance_id : String
  pub hardware_sku : String
  pub chip_id : String
  pub mac_addr : String
  pub firmware_version : String
  pub firmware_channel : String
  pub capabilities : RawMessage
  pub factory_claim_token_hash : String
  pub desired_config_version : ℤ
  pub reported_config_version : ℤ
  pub last_bootstrap_at : Option Time
  pub last_seen_at : Option Time
  pub created_at : Time
  pub updated_at : Time

pub record ProviderProfile : Type 0 where
  pub id : String
  pub tenant_id : String
  pub name : String
  pub asr_base_url : String
  pub asr_api_key : String
  pub asr_model : String
  pub llm_base_url : String
  pub llm_api_key : String
  pub llm_model : String
  pub multimodal_base_url : String
  pub multimodal_api_key : String
  pub multimodal_model : String
  pub tts_base_url : String
  pub tts_api_key : String
  pub tts_model : String
  pub vad_base_url : String
  pub vad_api_key : String
  pub vad_model : String
  pub created_at : Time
  pub updated_at : Time

pub record ConfigSnapshot : Type 0 where
  pub device_id : String
  pub tenant_id : String
  pub instance_id : String
  pub version : ℤ
  pub provider_profile_id : String
  pub source : String
  pub config : RawMessage
  pub signature : String
  pub created_at : Time

pub record IssuedDeviceToken : Type 0 where
  pub id : String
  pub device_id : String
  pub tenant_id : String
  pub instance_id : String
  pub token_hash : String
  pub issued_at : Time
  pub expires_at : Time
  pub last_used_at : Option Time
  pub revoked_at : Option Time

pub record BootstrapRequest : Type 0 where
  pub device_id : String
  pub chip_id : String
  pub hardware_sku : String
  pub firmware_version : String
  pub firmware_channel : String
  pub capabilities : RawMessage
  pub claim_token : String

pub record BootstrapResult : Type 0 where
  pub device : Device
  pub instance_ : Instance
  pub provider_profile : ProviderProfile
  pub config_snapshot : ConfigSnapshot
  pub issued_token : IssuedDeviceToken
  pub token_value : String

pub record DeviceFilter : Type 0 where
  pub tenant_id : String
  pub instance_id : String

-- An empty message is copied to nil.
unfoldable pub clone_raw_message : RawMessage → RawMessage
clone_raw_message none = none
clone_raw_message (some []) = none
clone_raw_message (some (b ∷ bs)) = some (b ∷ bs)

unfoldable pub clone_time_ptr : Option Time → Option Time
clone_time_ptr none = none
clone_time_ptr (some t) = some t

unfoldable pub clone_instance : Instance → Instance
clone_instance i = record i { config_template = clone_raw_message i.config_template }

unfoldable pub clone_device : Device → Device
clone_device d = record d {
  capabilities = clone_raw_message d.capabilities;
  last_bootstrap_at = clone_time_ptr d.last_bootstrap_at;
  last_seen_at = clone_time_ptr d.last_seen_at;
}

unfoldable pub clone_provider_profile : ProviderProfile → ProviderProfile
clone_provider_profile p = p

unfoldable pub clone_config_snapshot : ConfigSnapshot → ConfigSnapshot
clone_config_snapshot c = record c { config = clone_raw_message c.config }

unfoldable pub clone_issued_device_token : IssuedDeviceToken → IssuedDeviceToken
clone_issued_device_token t = record t {
  last_used_at = clone_time_ptr t.last_used_at;
  revoked_at = clone_time_ptr t.revoked_at;
}

pub clone_raw_message_idem :
    (r : RawMessage) → clone_raw_message (clone_raw_message r) ≡ clone_raw_message r
unfolding clone_raw_message
clone_raw_message_idem none = refl
clone_raw_message_idem (some []) = refl
clone_raw_message_idem (some (b ∷ bs)) = refl

pub clone_time_ptr_lem : (t : Option Time) → clone_time_ptr t ≡ t
unfolding clone_time_ptr
clone_time_ptr_lem none = refl
clone_time_ptr_lem (some t) = refl

pub clone_issued_device_token_lem : (t : IssuedDeviceToken) → clone_issued_device_token t ≡ t
unfolding clone_issued_device_token
clone_issued_device_token_lem t = simp clone_time_ptr_lem

pub clone_device_idem : (d : Device) → clone_device (clone_device d) ≡ clone_device d
unfolding clone_device
clone_device_idem d = simp (clone_raw_message_idem, clone_time_ptr_lem)

pub clone_instance_idem : (i : Instance) → clone_instance (clone_instance i) ≡ clone_instance i
unfolding clone_instance
clone_instance_idem i = simp clone_raw_message_idem

pub clone_config_snapshot_idem :
    (c : ConfigSnapshot) → clone_config_snapshot (clone_config_snapshot c) ≡ clone_config_snapshot c
unfolding clone_config_snapshot
clone_config_snapshot_idem c = simp clone_raw_message_idem

pub ruleset clone_laws = (
  clone_raw_message_idem, clone_time_ptr_lem, clone_issued_device_token_lem, clone_device_idem,
  clone_instance_idem, clone_config_snapshot_idem,
)
