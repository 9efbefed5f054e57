-- ===== src/Control/Plane.antt =====
-- internal/service/device_control.go: what the HTTP API and the gateway call. The sentinel errors of
-- internal/service/types.go are those of internal/device/errors.go with the same meaning.
-- encoding/json on maps and net/url are parameters; the clock of time.Now is the system's, with its
-- own readings. The control plane is built, as the program builds it, with a service and the
-- repository of that service, so no part is nil. The log is left out.
use agen_sense.Prelude.{
  ℤ, pos, ℕ, suc, String, Option, none, some, List, [], ◌∷◌, Error, Result, ok, err, not_found,
  unauthorized, invalid_input, expired, config_missing, Exec, pure, raise, ◌>>=◌, ◌>>◌, ◌==◌,
  string_eq, if◌then◌else◌,
}
use agen_sense.Device.Model.{Time, RawMessage, Instance, Device, ConfigSnapshot, BootstrapResult}
use agen_sense.Device.Model
use agen_sense.Device.Repository.{Repository}
use agen_sense.Device.Service.{Service, AuthenticateResult}
use agen_sense.Device.Service

-- Maps of JSON values, and URLs in parts.
pub record ControlContext : Type 1 where
  pub JsonMap : Type 0
  pub nil_map : JsonMap
  pub marshal : JsonMap → Option (List ℕ)
  pub unmarshal : List ℕ → Option JsonMap
  pub raw_entry : List ℕ → JsonMap
  pub Url : Type 0
  pub parse : String → Option Url
  pub scheme : Url → String
  pub print : String → String → Url → String

pub record BootstrapRequest (X : ControlContext) : Type 0 where
  pub device_id : String
  pub chip_id : String
  pub hardware_sku : String
  pub firmware_version : String
  pub firmware_channel : String
  pub capabilities : X.JsonMap
  pub claim_token : String

pub record BootstrapResponse (X : ControlContext) : Type 0 where
  pub tenant_id : String
  pub instance_id : String
  pub device_id : String
  pub device_token : String
  pub ws_url : String
  pub config_version : ℤ
  pub config : X.JsonMap
  pub retry_hint_sec : ℤ

pub record DeviceContext (X : ControlContext) : Type 0 where
  pub device_id : String
  pub tenant_id : String
  pub instance_id : String
  pub provider_profile_id : String
  pub config_version : ℤ
  pub reported_config : ℤ
  pub config : X.JsonMap
  pub capabilities : X.JsonMap
  pub firmware_version : String
  pub firmware_channel : String
  pub default_audio_codec : String
  pub default_sample_rate_hz : ℤ

unfoldable pub map_device_error : Error → Error
map_device_error invalid_input = invalid_input
map_device_error unauthorized = unauthorized
map_device_error expired = unauthorized
map_device_error not_found = not_found
map_device_error config_missing = not_found
map_device_error e = e

abbrev pub map_result : {A : Type 0} → Result A → Result A
map_result (ok a) = ok a
map_result (err e) = err (map_device_error e)

-- `if err != nil { return mapDeviceError(err) }`
abbrev pub mapped : {S A : Type 0} → Exec S A → Exec S A
mapped m s = (map_result (m s).0, (m s).1)

abbrev pub first_non_empty : List String → String
first_non_empty [] = ""
first_non_empty (s ∷ ss) = let rest = first_non_empty ss in if s == "" then rest else s

module _ (X : ControlContext) where
  abbrev parsed : List ℕ → Option X.JsonMap → X.JsonMap
  parsed raw none = X.raw_entry raw
  parsed raw (some m) = m

  unfoldable pub raw_to_map : RawMessage → X.JsonMap
  raw_to_map none = X.nil_map
  raw_to_map (some []) = X.nil_map
  raw_to_map (some (b ∷ bs)) = parsed (b ∷ bs) (X.unmarshal (b ∷ bs))

  abbrev web_scheme : String → String
  web_scheme s = if s == "http" then "ws" else if s == "https" then "wss" else s

  abbrev url_of : String → Option X.Url → String
  url_of fallback none = fallback
  url_of fallback (some u) = X.print (web_scheme (X.scheme u)) "/v1/session/ws" u

  -- A URL is printed with a scheme, a path and no query.
  unfoldable pub gateway_ws_url : String → String → String
  gateway_ws_url public_base_url fallback =
      if public_base_url == "" then fallback else url_of fallback (X.parse public_base_url)

  module _ (R : Repository) (hash_credential : String → String) where
    pub record DeviceControl : Type 0 where
      pub devices : Service R
      pub retry_hint_sec : ℤ
      pub public_base_url : String
      pub clock : ℕ → Time
      pub readings : ℕ

    -- A call of the device service.
    abbrev pub served : {A : Type 0} → Exec (Service R) A → Exec DeviceControl A
    served op c = ((op c.devices).0, record c { devices = (op c.devices).1 })

    abbrev device_request : BootstrapRequest X → List ℕ → Model.BootstrapRequest
    device_request req capabilities = record {
      device_id = req.device_id;
      chip_id = req.chip_id;
      hardware_sku = req.hardware_sku;
      firmware_version = req.firmware_version;
      firmware_channel = req.firmware_channel;
      capabilities = some capabilities;
      claim_token = req.claim_token;
    }

    abbrev response : BootstrapResult → DeviceControl → BootstrapResponse X
    response r c = record {
      tenant_id = r.device.tenant_id;
      instance_id = r.instance_.id;
      device_id = r.device.id;
      device_token = r.token_value;
      ws_url = gateway_ws_url c.public_base_url r.instance_.gateway_ws_url;
      config_version = r.config_snapshot.version;
      config = raw_to_map r.config_snapshot.config;
      retry_hint_sec = c.retry_hint_sec;
    }

    unfoldable pub bootstrap : BootstrapRequest X → Exec DeviceControl (BootstrapResponse X)
    bootstrap req = elim (X.marshal req.capabilities) [
      | none ↦ raise invalid_input
      | some capabilities ↦
          mapped (served (Service.bootstrap R hash_credential (device_request req capabilities)))
          >>= λ result c. (ok (response result c), c)
    ]

    abbrev pub context_of : AuthenticateResult → ConfigSnapshot → Instance → DeviceContext X
    context_of auth snapshot inst = record {
      device_id = auth.device.id;
      tenant_id = auth.device.tenant_id;
      instance_id = auth.device.instance_id;
      provider_profile_id =
          first_non_empty (snapshot.provider_profile_id ∷ inst.provider_profile_id ∷ []);
      config_version = snapshot.version;
      reported_config = auth.device.reported_config_version;
      config = raw_to_map snapshot.config;
      capabilities = raw_to_map auth.device.capabilities;
      firmware_version = auth.device.firmware_version;
      firmware_channel = auth.device.firmware_channel;
      default_audio_codec = "pcm_s16le";
      default_sample_rate_hz = pos 16000;
    }

    -- The configuration and the instance of a device that has authenticated itself.
    unfoldable pub context_after : AuthenticateResult → Exec DeviceControl (DeviceContext X)
    context_after auth = do
      snapshot ← mapped (served (Service.current_config R hash_credential auth.device.id))
      inst ← mapped (served (Service.call R (R.get_instance auth.device.instance_id)))
      pure (context_of auth snapshot inst)

    unfoldable pub authenticate_device_token :
        String → String → Exec DeviceControl (DeviceContext X)
    authenticate_device_token device_id token =
        mapped (served (Service.authenticate_device_token R hash_credential device_id token))
        >>= context_after

    -- `time.Now().UTC()`
    abbrev now : Exec DeviceControl Time
    now c = (ok (c.clock c.readings), record c { readings = suc c.readings })

    -- The body of the telemetry is not read.
    unfoldable pub update_telemetry : String → RawMessage → Exec DeviceControl Unit
    update_telemetry device_id telemetry = do
      dev ← mapped (served (Service.call R (R.get_device device_id)))
      at ← now
      mapped (
          served (
            Service.call R
              (R.save_device (record dev { last_seen_at = some at; updated_at = at }))))
      pure tt

    unfoldable pub ack_config : String → ℤ → Exec DeviceControl Unit
    ack_config device_id version = do
      mapped (served (Service.ack_config_version R hash_credential device_id version))
      pure tt
