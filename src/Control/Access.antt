-- ===== src/Control/Access.antt =====
-- Who passes the control plane of internal/service/device_control.go.
use agen_sense.Prelude.{
  String, Result, ok, err, pure, Ensures, Ensures-bind, ◌>>=◌, ◌≡◌, ap, sym, ◌∙◌,
}
use agen_sense.Device.Model.{Device, ConfigSnapshot, Instance, IssuedDeviceToken, clone_device}
use agen_sense.Device.Repository.{Repository}
use agen_sense.Device.Service.{Service, AuthenticateResult}
use agen_sense.Device.Service
use agen_sense.Device.Service.Access.{MayPass, authenticate-MayPass}
use agen_sense.Control.Plane.{
  ControlContext, DeviceContext, DeviceControl, map_result, mapped, served, context_of,
  context_after, authenticate_device_token,
}

-- A mapped result that is no error was none before.
map_result-ok : {A : Type 0} (r : Result A) (a : A) → map_result r ≡ ok a → r ≡ ok a
map_result-ok (ok b) a h = cc
map_result-ok (err e) a h = absurd (cc)

module _ (X : ControlContext) (R : Repository) (hash_credential : String → String) where
  -- A context is that of the device that has authenticated itself.
  abbrev IsOf : AuthenticateResult → DeviceContext X → Type 0
  IsOf auth ctx =
      (ctx.device_id ≡ auth.device.id)
      × (ctx.tenant_id ≡ auth.device.tenant_id)
      × (ctx.instance_id ≡ auth.device.instance_id)

  context_after-Ensures :
      (auth : AuthenticateResult) (c : DeviceControl X R hash_credential)
      → Ensures (context_after X R hash_credential auth) c (λ ctx c'. IsOf auth ctx)
  unfolding context_after
  context_after-Ensures auth c =
      let configured =
        mapped
          (served X R hash_credential (Service.current_config R hash_credential auth.device.id)) in
      let located =
        mapped
          (served X R hash_credential (Service.call R (R.get_instance auth.device.instance_id))) in
      let given = λ (snapshot : ConfigSnapshot) (inst : Instance).
        pure {S = DeviceControl X R hash_credential}
          (context_of X R hash_credential auth snapshot inst) in
      Ensures-bind configured (λ snapshot. located >>= given snapshot) c (λ ctx c'. IsOf auth ctx)
        (λ snapshot e.
          Ensures-bind located (given snapshot) _ (λ ctx c'. IsOf auth ctx)
            (λ inst f ctx h.
              let same : context_of X R hash_credential auth snapshot inst ≡ ctx = cc in
              (
                sym (ap (λ (x : DeviceContext X). x.device_id) same),
                sym (ap (λ (x : DeviceContext X). x.tenant_id) same),
                sym (ap (λ (x : DeviceContext X). x.instance_id) same),
              )))

  -- A token and a device that may pass now, and whose context it is.
  abbrev pub Passed : String → String → DeviceControl X R hash_credential → DeviceContext X → Type 0
  Passed device_id token c ctx =
      (t : IssuedDeviceToken) × (d : Device) × MayPass R hash_credential device_id token
        (c.devices.clock c.devices.readings) (R.view c.devices.repo) t d
      × (ctx.device_id ≡ d.id)
      × (ctx.tenant_id ≡ d.tenant_id)
      × (ctx.instance_id ≡ d.instance_id)

  -- Over any repository, when AuthenticateDeviceToken of the control plane returns a context, there
  -- are a stored token and a stored device that may pass with the given device id and value at the
  -- reading of the clock, and the context has that device's id, tenant and instance.
  pub authenticate_device_token-MayPass :
      (device_id token : String) (c : DeviceControl X R hash_credential) (ctx : DeviceContext X)
      → (authenticate_device_token X R hash_credential device_id token c).0 ≡ ok ctx
      → Passed device_id token c ctx
  unfolding authenticate_device_token clone_device
  authenticate_device_token-MayPass device_id token c ctx h =
      Ensures-bind
        (mapped (
          served X R hash_credential
            (Service.authenticate_device_token R hash_credential device_id token)))
        (context_after X R hash_credential) c (λ ctx c'. Passed device_id token c ctx)
        (λ auth e ctx h.
          let (t, d, passed, same) =
            authenticate-MayPass R hash_credential device_id token c.devices auth
              (map_result-ok _ auth e) in
          let (as_id, as_tenant, as_instance) = context_after-Ensures auth _ ctx h in
          (
            t,
            d,
            passed,
            as_id ∙ ap (λ (x : Device). x.id) same,
            as_tenant ∙ ap (λ (x : Device). x.tenant_id) same,
            as_instance ∙ ap (λ (x : Device). x.instance_id) same,
          ))
        ctx h
