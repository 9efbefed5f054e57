-- ===== src/Device/Service/Access.antt =====
-- AuthenticateDeviceToken of internal/device/service.go.
use agen_sense.Prelude.{
  String, none, some, false, ◌≡◌, ◌⊎◌, inl, inr, arith, ok, err, other, lookup, ==_iff, string_eq,
  int_eq, is_blank, Option-cases,
}
use agen_sense.Device.Model.{
  Time, Device, IssuedDeviceToken, clone_device, clone_issued_device_token_lem,
}
use agen_sense.Device.Tables.{Tables}
use agen_sense.Device.Repository.{Repository}
use agen_sense.Device.Memory.Directory
use agen_sense.Device.Memory.Tokens
use agen_sense.Device.Memory.Invariant.{IsWellFormed}
use agen_sense.Device.Memory.TokenLaws.{
  found_by_hash, found_by_hash-lookup, find_issued_device_token_by_hash_lem,
}
use agen_sense.Device.Service.{Service, AuthenticateResult, is_expired, authenticate_device_token}

module _ (R : Repository) (hash_credential : String → String) where
  -- Who may pass at a time: the token that the value's hash finds, of that device, not revoked and
  -- not expired, and the device is stored.
  pub record MayPass (device_id token_value : String) (at : Time) (s : Tables)
      (t : IssuedDeviceToken) (d : Device) : Type 0 where
    pub named : is_blank device_id ≡ false
    pub valued : is_blank token_value ≡ false
    pub found : found_by_hash (hash_credential token_value) s ≡ some t
    pub own : t.device_id ≡ device_id
    pub unrevoked : t.revoked_at ≡ none
    pub current : is_expired R hash_credential t at ≡ false
    pub stored : lookup device_id s.devices ≡ some d

  -- Over any repository with well-formed tables, AuthenticateDeviceToken accepts every value whose
  -- token may pass at the reading of the clock, and returns the device and the token marked as used
  -- then, or the repository's TouchIssuedDeviceToken of that token at that time reports an error of
  -- its own, which is then the answer.
  pub authenticate-accepts :
      (device_id token_value : String) (svc : Service R) (t : IssuedDeviceToken) (d : Device)
      → IsWellFormed (R.view svc.repo)
      → MayPass device_id token_value (svc.clock svc.readings) (R.view svc.repo) t d
      → ((authenticate_device_token R hash_credential device_id token_value svc).0
          ≡ ok (record {
            device = clone_device d;
            token = record t { last_used_at = some (svc.clock svc.readings) };
          }))
        ⊎ ((e : String) × ((R.touch_issued_device_token t.id (svc.clock svc.readings) svc.repo).0
              ≡ err (other e))
            × ((authenticate_device_token R hash_credential device_id token_value svc).0
                ≡ err (other e)))
  unfolding authenticate_device_token Directory.get_device Tokens.touch_issued_device_token
  authenticate-accepts device_id token_value svc t d w p = ground (
    arith,
    R.find_issued_device_token_by_hash_lem (hash_credential token_value) svc.repo,
    find_issued_device_token_by_hash_lem (hash_credential token_value) (R.view svc.repo),
    R.get_device_lem t.device_id svc.repo,
    R.touch_issued_device_token_lem t.id (svc.clock svc.readings) svc.repo,
    found_by_hash-lookup (hash_credential token_value) t (R.view svc.repo) w p.found,
    clone_issued_device_token_lem t,
    clone_issued_device_token_lem (record t { last_used_at = some (svc.clock svc.readings) }),
    ==_iff t.device_id device_id,
  )

  -- Over any repository, when AuthenticateDeviceToken succeeds, the hash of the value finds a
  -- stored token that belongs to the named device, is not revoked and is not expired at the reading
  -- of the clock, neither argument is blank, and the device is stored and is the one that is
  -- returned.
  pub authenticate-MayPass :
      (device_id token_value : String) (svc : Service R) (r : AuthenticateResult)
      → (authenticate_device_token R hash_credential device_id token_value svc).0 ≡ ok r
      → (t : IssuedDeviceToken) × (d : Device) × MayPass device_id token_value
          (svc.clock svc.readings)
          (R.view svc.repo)
          t
          d
        × (r.device ≡ clone_device d)
  unfolding authenticate_device_token Directory.get_device
  authenticate-MayPass device_id token_value svc r h =
      let by_hash = R.find_issued_device_token_by_hash_lem (hash_credential token_value) svc.repo in
      let as_found =
        find_issued_device_token_by_hash_lem (hash_credential token_value) (R.view svc.repo) in
      elim (Option-cases (found_by_hash (hash_credential token_value) (R.view svc.repo))) [
        | inl e ↦ absurd (ground (arith, by_hash, as_found))
        | inr (t, e) ↦
            let by_id = R.get_device_lem t.device_id svc.repo in
            elim (Option-cases (lookup t.device_id (R.view svc.repo).devices)) [
              | inl f ↦
                  absurd (ground (arith, by_hash, as_found, clone_issued_device_token_lem t, by_id))
              | inr (d, f) ↦
                  let same = ==_iff t.device_id device_id in
                  let copied = clone_issued_device_token_lem t in
                  (
                    t,
                    d,
                    record {
                      named = ground arith;
                      valued = ground arith;
                      found = e;
                      own = ground arith;
                      unrevoked = ground arith;
                      current = ground arith;
                      stored = ground arith;
                    },
                    ground arith,
                  )
            ]
      ]
