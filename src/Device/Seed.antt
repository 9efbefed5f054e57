-- ===== src/Device/Seed.antt =====
-- internal/device/seed.go, and the seeding of internal/store/file_repository.go. The texts that
-- encoding/json makes of the seed's three maps are parameters.
pub mod Laws
use agen_sense.Prelude.{
  ℤ, pos, String, none, ok, err, Exec, ◌>>=◌, pure, is_not_found, if◌then◌else◌,
}
use agen_sense.Device.Model.{Time, RawMessage, Instance, Device, ProviderProfile, ConfigSnapshot}
use agen_sense.Device.Repository.{Repository}

abbrev pub demo_tenant_id : String
demo_tenant_id = "home-lab"

abbrev pub demo_instance_id : String
demo_instance_id = "cn-shanghai-main"

abbrev pub demo_provider_id : String
demo_provider_id = "omlx-local"

abbrev pub demo_device_id : String
demo_device_id = "vdk-coreS3-001"

abbrev pub demo_claim_token : String
demo_claim_token = "factory-claim-token"

abbrev pub demo_config_version : ℤ
demo_config_version = pos 1

abbrev pub demo_provider_base_url : String
demo_provider_base_url = "http://127.0.0.1:8000/v1"

-- json.Marshal of the configuration, the instance template and the capabilities
pub record SeedTexts : Type 0 where
  pub config : RawMessage
  pub template : RawMessage
  pub capabilities : RawMessage

pub record DemoSeed : Type 0 where
  pub instance_ : Instance
  pub device : Device
  pub provider_profile : ProviderProfile
  pub config_snapshot : ConfigSnapshot

unfoldable pub build_demo_seed : (String → String) → SeedTexts → Time → DemoSeed
build_demo_seed hash_credential texts now = record {
  instance_ = record {
    id = demo_instance_id;
    tenant_id = demo_tenant_id;
    name = "Demo Shanghai Lab";
    region = "cn-shanghai";
    gateway_ws_url = "ws://127.0.0.1:8080/v1/session/ws";
    provider_profile_id = demo_provider_id;
    config_template = texts.template;
    created_at = now;
    updated_at = now;
  };
  device = record {
    id = demo_device_id;
    tenant_id = demo_tenant_id;
    instance_id = demo_instance_id;
    hardware_sku = "m5cores3-facekit-audio";
    chip_id = "esp32s3-abcdef";
    mac_addr = "";
    firmware_version = "1.2.0";
    firmware_channel = "stable";
    capabilities = texts.capabilities;
    factory_claim_token_hash = hash_credential demo_claim_token;
    desired_config_version = demo_config_version;
    reported_config_version = pos 0;
    last_bootstrap_at = none;
    last_seen_at = none;
    created_at = now;
    updated_at = now;
  };
  provider_profile = record {
    id = demo_provider_id;
    tenant_id = demo_tenant_id;
    name = "oMLX Local Voice Stack";
    asr_base_url = demo_provider_base_url;
    asr_api_key = "";
    asr_model = "nemotron-3.5-asr-streaming-0.6b-8bit";
    llm_base_url = demo_provider_base_url;
    llm_api_key = "";
    llm_model = "gemma-4-E4B-it-MLX-4bit";
    multimodal_base_url = demo_provider_base_url;
    multimodal_api_key = "";
    multimodal_model = "Qwen3.6-27B-MLX-4bit";
    tts_base_url = demo_provider_base_url;
    tts_api_key = "";
    tts_model = "Qwen3-TTS-12Hz-0.6B-Base-8bit";
    vad_base_url = demo_provider_base_url;
    vad_api_key = "";
    vad_model = "silero-vad-v6";
    created_at = now;
    updated_at = now;
  };
  config_snapshot = record {
    device_id = demo_device_id;
    tenant_id = demo_tenant_id;
    instance_id = demo_instance_id;
    version = demo_config_version;
    provider_profile_id = demo_provider_id;
    source = "demo-seed";
    config = texts.config;
    signature = "";
    created_at = now;
  };
}

module _ (R : Repository) (hash_credential : String → String) (texts : SeedTexts) where
  abbrev pub save_seed : DemoSeed → Exec R.State (Unit {0})
  save_seed seed = do
    _ ← R.save_instance seed.instance_
    _ ← R.save_provider_profile seed.provider_profile
    _ ← R.save_device seed.device
    _ ← R.save_config_snapshot seed.config_snapshot
    _ ← R.set_desired_config_version seed.device.id seed.config_snapshot.version
    pure tt

  unfoldable pub apply_demo_seed : Time → Exec R.State (Unit {0})
  apply_demo_seed now = save_seed (build_demo_seed hash_credential texts now)

  -- SeedDemoData: only a store without the demo device is seeded.
  unfoldable pub seed_demo_data : Time → Exec R.State (Unit {0})
  unfolding apply_demo_seed
  seed_demo_data now s = elim (R.get_device demo_device_id s).0 [
    | ok d ↦ (ok tt, (R.get_device demo_device_id s).1)
    | err e ↦
        if is_not_found e
        then apply_demo_seed now (R.get_device demo_device_id s).1
        else (err e, (R.get_device demo_device_id s).1)
  ]
