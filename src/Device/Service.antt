-- ===== src/Device/Service.antt =====
-- internal/device/service.go: bootstrap, authentication and configuration of devices over a
-- repository.
--
-- The clock is the sequence of its readings and the random source the bytes that it has left; both
-- stand in the service's state. SHA-256 with its hexadecimal print is the parameter
-- `hash_credential`.
pub mod Random
pub mod Issue
pub mod Access
pub mod Config
pub mod Bootstrap
pub mod RoundTrip
use agen_sense.Prelude.{
  ℤ, pos, ℕ, suc, ◌+ℤ◌, ltb_ℤ, is_positive, String, Option, none, some, List, [], ◌∷◌, Bool, true,
  false, not, ◌&&◌, ◌||◌, Error, Result, ok, err, not_found, unauthorized, invalid_input, expired,
  config_missing, other, Exec, pure, raise, ensure, continue, ◌>>=◌, ◌>>◌, ◌==◌, string_eq, int_eq,
  if◌then◌else◌, is_blank, is_some, if_not_found,
}
use Prim.Native.String.{◌++◌}
use agen_sense.Device.Model.{
  Time, zero_time, Instance, Device, ProviderProfile, ConfigSnapshot, IssuedDeviceToken,
  BootstrapRequest, BootstrapResult, clone_raw_message,
}
use agen_sense.Device.Repository.{Repository}
use Random.{read_full, encode_raw_url, trim_equals}

-- 24 hours in nanoseconds
abbrev pub default_device_token_ttl : ℤ
default_device_token_ttl = pos 86400000000000

pub record AuthenticateResult : Type 0 where
  pub device : Device
  pub token : IssuedDeviceToken

-- The profile of an instance that names none.
abbrev pub no_profile : ProviderProfile
no_profile = record {
  id = "";
  tenant_id = "";
  name = "";
  asr_base_url = "";
  asr_api_key = "";
  asr_model = "";
  llm_base_url = "";
  llm_api_key = "";
  llm_model = "";
  multimodal_base_url = "";
  multimodal_api_key = "";
  multimodal_model = "";
  tts_base_url = "";
  tts_api_key = "";
  tts_model = "";
  vad_base_url = "";
  vad_api_key = "";
  vad_model = "";
  created_at = zero_time;
  updated_at = zero_time;
}

pub record Service (R : Repository) : Type 0 where
  pub repo : R.State
  pub clock : ℕ → Time
  pub readings : ℕ
  pub random : List ℕ
  pub token_ttl : ℤ

-- Each option is a nil function or one of the three that the package makes.
pub data ServiceOption : Type 0 where
  nil_option : ServiceOption
  with_clock : Option (ℕ → Time) → ServiceOption
  with_random_reader : Option (List ℕ) → ServiceOption
  with_token_ttl : ℤ → ServiceOption

module _ (R : Repository) where
  unfoldable pub apply_option : ServiceOption → Service R → Service R
  apply_option nil_option svc = svc
  apply_option (with_clock none) svc = svc
  apply_option (with_clock (some clock)) svc = record svc { clock = clock; readings = 0 }
  apply_option (with_random_reader none) svc = svc
  apply_option (with_random_reader (some random)) svc = record svc { random = random }
  apply_option (with_token_ttl ttl) svc =
      if is_positive ttl then record svc { token_ttl = ttl } else svc

  apply_options : Service R → List ServiceOption → Service R
  apply_options svc [] = svc
  apply_options svc (opt ∷ opts) = apply_options (apply_option opt svc) opts

  -- The system's clock and random source are those of the call.
  unfoldable pub new_service : R.State → (ℕ → Time) → List ℕ → List ServiceOption → Service R
  unfolding apply_options apply_option
  new_service repo system_clock rand_reader opts =
      apply_options
        (record {
          repo = repo;
          clock = system_clock;
          readings = 0;
          random = rand_reader;
          token_ttl = default_device_token_ttl;
        })
        opts

  -- A call of the repository.
  abbrev pub call : {A : Type 0} → Exec R.State A → Exec (Service R) A
  call op svc = ((op svc.repo).0, record svc { repo = (op svc.repo).1 })

  -- `svc.clock.Now()`
  abbrev pub now : Exec (Service R) Time
  now svc = (ok (svc.clock svc.readings), record svc { readings = suc svc.readings })

  unfoldable pub random_token_component : ℕ → Exec (Service R) String
  random_token_component size svc =
      let (bytes, rest) = read_full size svc.random in
      (
        elim bytes [ ok buf ↦ ok (trim_equals (encode_raw_url buf)) | err e ↦ err e ],
        record svc { random = rest },
      )

-- `a != "" && b != "" && a != b`
abbrev pub differ : String → String → Bool
differ a b = not (a == "") && (not (b == "") && not (a == b))

module _ (R : Repository) (hash_credential : String → String) where
  unfoldable pub matches_credential : String → String → Bool
  matches_credential expected_hash credential =
      if expected_hash == "" then false else expected_hash == hash_credential credential

  unfoldable pub current_config : String → Exec (Service R) ConfigSnapshot
  current_config device_id = do
    dev ← call R (R.get_device device_id)
    let latest =
        if_not_found (call R (R.get_latest_config_snapshot device_id)) (raise config_missing)
    if is_positive dev.desired_config_version
        then if_not_found (call R (R.get_config_snapshot device_id dev.desired_config_version))
            latest
        else latest

  unfoldable pub ack_config_version : String → ℤ → Exec (Service R) Device
  ack_config_version device_id version = do
    ensure (not (is_blank device_id || not (is_positive version))) invalid_input
    at ← now R
    call R (R.ack_config_version device_id version at)

  unfoldable pub issued_record : Device → String → String → Time → ℤ → IssuedDeviceToken
  issued_record dev token_id token_value at ttl = record {
    id = "dtk_" ++ token_id;
    device_id = dev.id;
    tenant_id = dev.tenant_id;
    instance_id = dev.instance_id;
    token_hash = hash_credential token_value;
    issued_at = at;
    expires_at = at +ℤ ttl;
    last_used_at = none;
    revoked_at = none;
  }

  -- The token that two random parts make, stored.
  unfoldable pub store_token :
      Device → String → String → Exec (Service R) (IssuedDeviceToken × String)
  unfolding issued_record
  store_token dev token_id secret = do
    let token_value = "dtk_" ++ (token_id ++ ("." ++ secret))
    at ← now R
    ttl ← λ svc. (ok svc.token_ttl, svc)
    saved ← call R (R.save_issued_device_token (issued_record dev token_id token_value at ttl))
    pure (saved, token_value)

  unfoldable pub issue_device_token : Device → Exec (Service R) (IssuedDeviceToken × String)
  issue_device_token dev = do
    ensure (not (is_blank dev.id)) invalid_input
    token_id ← random_token_component R 9
    secret ← random_token_component R 24
    store_token dev token_id secret

  unfoldable pub profile_of : Instance → Exec (Service R) ProviderProfile
  profile_of inst =
      if inst.provider_profile_id == ""
      then pure no_profile
      else call R (R.get_provider_profile inst.tenant_id inst.provider_profile_id)

  -- What a bootstrap changes in the stored device.
  unfoldable pub bootstrapped : Device → BootstrapRequest → Time → Device
  bootstrapped dev req at = record dev {
    firmware_version = req.firmware_version;
    firmware_channel = req.firmware_channel;
    capabilities = clone_raw_message req.capabilities;
    updated_at = at;
    last_bootstrap_at = some at;
  }

  -- The lookups, the token and the result, after the device has been saved.
  unfoldable pub finish_bootstrap : Device → Exec (Service R) BootstrapResult
  unfolding current_config issue_device_token profile_of
  finish_bootstrap dev = do
    inst ← call R (R.get_instance dev.instance_id)
    snapshot ← current_config dev.id
    profile ← profile_of inst
    issued ← issue_device_token dev
    pure (record {
      device = dev;
      instance_ = inst;
      provider_profile = profile;
      config_snapshot = snapshot;
      issued_token = issued.0;
      token_value = issued.1;
    })

  unfoldable pub bootstrap : BootstrapRequest → Exec (Service R) BootstrapResult
  unfolding matches_credential bootstrapped finish_bootstrap
  bootstrap req = do
    ensure (not (is_blank req.device_id || is_blank req.claim_token)) invalid_input
    dev ← call R (R.get_device req.device_id)
    ensure (matches_credential dev.factory_claim_token_hash req.claim_token) unauthorized
    ensure (not (differ dev.chip_id req.chip_id)) unauthorized
    ensure (not (differ dev.hardware_sku req.hardware_sku)) unauthorized
    at ← now R
    saved ← call R (R.save_device (bootstrapped dev req at))
    finish_bootstrap saved

  -- `!ExpiresAt.IsZero() && now.After(ExpiresAt)`
  unfoldable pub is_expired : IssuedDeviceToken → Time → Bool
  is_expired t at = not (t.expires_at == zero_time) && ltb_ℤ t.expires_at at

  unfoldable pub authenticate_device_token : String → String → Exec (Service R) AuthenticateResult
  unfolding is_expired
  authenticate_device_token device_id token_value = do
    ensure (not (is_blank device_id || is_blank token_value)) invalid_input
    found ← call R (R.find_issued_device_token_by_hash (hash_credential token_value))
    ensure (found.device_id == device_id) unauthorized
    at ← now R
    ensure (not (is_some found.revoked_at)) unauthorized
    ensure (not (is_expired found at)) expired
    dev ← call R (R.get_device found.device_id)
    touched ← call R (R.touch_issued_device_token found.id at)
    pure (record { device = dev; token = touched })
