-- ===== src/Device/Service/RoundTrip.antt =====
-- Tokens of internal/device/service.go from their issue to their use.
use agen_sense.Prelude.{
  ◌+ℤ◌, ◌≤ℤ◌, suc, String, some, ◌≡◌, ◌≢◌, ◌⊎◌, arith, ok, err, other, lookup, string_eq, false,
}
use agen_sense.Device.Model.{Time, Device, IssuedDeviceToken, clone_device}
use agen_sense.Device.Repository.{Repository}
use agen_sense.Device.Memory.Invariant.{IsWellFormed}
use agen_sense.Device.Memory.TokenLaws.{found_by_hash, find-revoke}
use agen_sense.Device.Service.{
  Service, AuthenticateResult, is_expired, issue_device_token, authenticate_device_token,
}
use agen_sense.Device.Service.Issue.{issue_device_token-IsIssued, issue_device_token_named}
use agen_sense.Device.Service.Access.{MayPass, authenticate-accepts, authenticate-MayPass}

module _ (R : Repository) (hash_credential : String → String) where
  in_time :
      (t : IssuedDeviceToken) (at : Time)
      → at ≤ℤ t.expires_at
      → is_expired R hash_credential t at ≡ false
  unfolding is_expired
  in_time t at h = ground arith

  abbrev issued : Device → Service R → Service R
  issued dev svc = (issue_device_token R hash_credential dev svc).1

  issued-MayPass :
      (dev d : Device) (svc : Service R) (r : IssuedDeviceToken) (v : String)
      → (issue_device_token R hash_credential dev svc).0 ≡ ok (r, v)
      → lookup dev.id (R.view svc.repo).devices ≡ some d
      → svc.clock (suc svc.readings) ≤ℤ svc.clock svc.readings +ℤ svc.token_ttl
      → MayPass R hash_credential dev.id v
          ((issued dev svc).clock (issued dev svc).readings)
          (R.view (issued dev svc).repo)
          r
          d
  issued-MayPass dev d svc r v h stored early =
      let i = issue_device_token-IsIssued R hash_credential dev svc h in
      record {
        named = issue_device_token_named R hash_credential dev svc h;
        valued = i.not_blank;
        found = i.found;
        own = i.device_id;
        unrevoked = i.unrevoked;
        current = in_time r _ (rw (i.clock, i.readings, i.expires_at) early);
        stored = rw i.devices stored;
      }

  -- Over any repository with well-formed tables, a token that IssueDeviceToken returns for a stored
  -- device is accepted by AuthenticateDeviceToken for that device when the next reading of the
  -- clock is not after the end of the token's lifetime, or the repository's TouchIssuedDeviceToken
  -- of that token at that reading reports an error of its own, which is then the answer.
  pub issue-authenticate :
      (dev d : Device) (svc : Service R) (r : IssuedDeviceToken) (v : String)
      → IsWellFormed (R.view svc.repo)
      → (issue_device_token R hash_credential dev svc).0 ≡ ok (r, v)
      → lookup dev.id (R.view svc.repo).devices ≡ some d
      → svc.clock (suc svc.readings) ≤ℤ svc.clock svc.readings +ℤ svc.token_ttl
      → ((authenticate_device_token R hash_credential dev.id v (issued dev svc)).0
          ≡ ok (record {
            device = clone_device d;
            token = record r {
              last_used_at = some ((issued dev svc).clock (issued dev svc).readings);
            };
          }))
        ⊎ ((e : String) × ((R.touch_issued_device_token r.id
                ((issued dev svc).clock (issued dev svc).readings)
                (issued dev svc).repo).0
              ≡ err (other e))
            × ((authenticate_device_token R hash_credential dev.id v (issued dev svc)).0
                ≡ err (other e)))
  issue-authenticate dev d svc r v w h stored early =
      authenticate-accepts R hash_credential dev.id v (issued dev svc) r d
        ((issue_device_token-IsIssued R hash_credential dev svc h).well_formed w)
        (issued-MayPass dev d svc r v h stored early)

  -- Over any repository with well-formed tables, once the token whose hash a value has is revoked,
  -- AuthenticateDeviceToken does not return any result for that value, whatever the device.
  pub revoke-authenticate :
      (device_id v id : String) (at : Time) (svc : Service R) (t : IssuedDeviceToken)
      (svc' : Service R) (r : AuthenticateResult)
      → IsWellFormed (R.view svc.repo)
      → lookup id (R.view svc.repo).issued_tokens ≡ some t
      → t.token_hash ≡ hash_credential v
      → svc'.repo ≡ (R.revoke_issued_device_token id at svc.repo).1
      → (authenticate_device_token R hash_credential device_id v svc').0 ≢ ok r
  revoke-authenticate device_id v id at svc t svc' r w stored hashed same h =
      let (u, d, p, _) = authenticate-MayPass R hash_credential device_id v svc' r h in
      let seen = find-revoke id at t (R.view svc.repo) w stored in
      let view_eq = (R.revoke_issued_device_token_lem id at svc.repo).0 in
      let now_found : found_by_hash (hash_credential v) (R.view svc'.repo)
          ≡ some (record t { revoked_at = some at }) =
        rw (same, view_eq, ← hashed) seen in
      let found = p.found in let un = p.unrevoked in ground arith
