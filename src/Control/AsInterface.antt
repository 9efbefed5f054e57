-- ===== src/Control/AsInterface.antt =====
-- The control plane of internal/service/device_control.go as the interface that the loop of
-- internal/gateway/handler.go calls. The loop reads of an error only that there is one.
use agen_sense.Prelude.{String, Bool, true, false, Result, ok, err}
use agen_sense.Device.Repository.{Repository}
use agen_sense.Control.Plane.{ControlContext, DeviceControl, ack_config, update_telemetry}
use agen_sense.Gateway.Handler.{Control}

abbrev succeeded : {A : Type 0} → Result A → Bool
succeeded (ok a) = true
succeeded (err e) = false

abbrev pub plane_control : ControlContext → Repository → (String → String) → Control
plane_control X R hash_credential = record {
  State = DeviceControl X R hash_credential;
  ack_config = λ device_id version c.
      let (result, c') = ack_config X R hash_credential device_id version c in
      (succeeded result, c');
  update_telemetry = λ device_id telemetry c.
      let (result, c') = update_telemetry X R hash_credential device_id telemetry c in
      (succeeded result, c');
}
