-- ===== src/Device/Service/Bootstrap.antt =====
-- Bootstrap of internal/device/service.go.
use agen_sense.Prelude.{
  suc, String, some, true, false, ◌≡◌, ◌≢◌, inl, inr, arith, ok, lookup, string_eq, ==_iff,
  is_blank, Option-cases, Ensures, Ensures-bind,
}
use agen_sense.Device.Model.{Device, BootstrapRequest, BootstrapResult, clone_device}
use agen_sense.Device.Tables.{Tables}
use agen_sense.Device.Repository.{Repository}
use agen_sense.Device.Memory.Directory
use agen_sense.Device.Memory.TokenLaws.{found_by_hash}
use agen_sense.Device.Service.{
  Service, matches_credential, differ, call, current_config, profile_of, issue_device_token,
  finish_bootstrap, bootstrapped, bootstrap,
}
use agen_sense.Device.Service.Issue.{issue_device_token-IsIssued}

module _ (R : Repository) (hash_credential : String → String) where
  -- Whom a request may bootstrap: a stored device whose claim it knows, and whose chip and
  -- hardware it does not contradict.
  pub record MayBootstrap (req : BootstrapRequest) (s : Tables) (d : Device) : Type 0 where
    pub named : is_blank req.device_id ≡ false
    pub claimed : is_blank req.claim_token ≡ false
    pub stored : lookup req.device_id s.devices ≡ some d
    pub claim : d.factory_claim_token_hash ≡ hash_credential req.claim_token
    pub has_claim : d.factory_claim_token_hash ≢ ""
    pub chip : differ d.chip_id req.chip_id ≡ false
    pub hardware : differ d.hardware_sku req.hardware_sku ≡ false

  matches_credential_iff :
      (expected credential : String)
      → matches_credential R hash_credential expected credential ≡ true
      → (expected ≡ hash_credential credential) × (expected ≢ "")
  unfolding matches_credential
  matches_credential_iff expected credential h = (
    ground (arith, ==_iff expected (hash_credential credential)),
    λ e. ground (arith, ==_iff expected ""),
  )

  -- Over any repository, Bootstrap succeeds only when the device is stored, has a claim hash which
  -- is the hash of the given claim, and has no chip id or hardware that differs from a given one,
  -- and neither the device id nor the claim is blank.
  pub bootstrap-MayBootstrap :
      (req : BootstrapRequest) (svc : Service R) (r : BootstrapResult)
      → (bootstrap R hash_credential req svc).0 ≡ ok r
      → (d : Device) × MayBootstrap req (R.view svc.repo) d
  unfolding bootstrap Directory.get_device clone_device
  bootstrap-MayBootstrap req svc r h =
      let by_id = R.get_device_lem req.device_id svc.repo in
      elim (Option-cases (lookup req.device_id (R.view svc.repo).devices)) [
        | inl e ↦ absurd (ground arith)
        | inr (d, e) ↦
            let m =
              matches_credential_iff d.factory_claim_token_hash req.claim_token (ground arith) in
            (
              d,
              record {
                named = ground arith;
                claimed = ground arith;
                stored = e;
                claim = m.0;
                has_claim = m.1;
                chip = ground arith;
                hardware = ground arith;
              },
            )
      ]

  abbrev Handed : BootstrapResult → Service R → Type 0
  Handed r s =
      (found_by_hash (hash_credential r.token_value) (R.view s.repo) ≡ some r.issued_token)
      × (r.issued_token.device_id ≡ r.device.id)

  finish_bootstrap-Handed :
      (dev : Device) (svc : Service R) → Ensures (finish_bootstrap R hash_credential dev) svc Handed
  unfolding finish_bootstrap
  finish_bootstrap-Handed dev svc =
      Ensures-bind (call R (R.get_instance dev.instance_id)) _ svc Handed λ inst _.
        Ensures-bind (current_config R hash_credential dev.id) _ _ Handed λ snapshot _.
          Ensures-bind (profile_of R hash_credential inst) _ _ Handed λ profile _.
            Ensures-bind (issue_device_token R hash_credential dev) _ _ Handed λ p e r done.
              let i = issue_device_token-IsIssued R hash_credential dev _ {r = p.0} {v = p.1} e in
              let found = i.found in let owner = i.device_id in (ground arith, ground arith)

  -- The service when the device has been saved.
  abbrev saved_service : BootstrapRequest → Device → Service R → Service R
  saved_service req d svc = record svc {
    repo =
        (R.save_device
          (bootstrapped R hash_credential (clone_device d) req (svc.clock svc.readings))
          svc.repo).1;
    readings = suc svc.readings;
  }

  -- The device that is saved, as the repository gives it back.
  abbrev saved_device : BootstrapRequest → Device → Service R → Device
  saved_device req d svc =
      clone_device (
        clone_device (bootstrapped R hash_credential (clone_device d) req (svc.clock svc.readings)))

  reaches_finish :
      (req : BootstrapRequest) (svc : Service R) (r : BootstrapResult) (d : Device)
      → (bootstrap R hash_credential req svc).0 ≡ ok r
      → lookup req.device_id (R.view svc.repo).devices ≡ some d
      → bootstrap R hash_credential req svc
        ≡ finish_bootstrap R hash_credential (saved_device req d svc) (saved_service req d svc)
  unfolding bootstrap Directory.get_device Directory.save_device
  reaches_finish req svc r d h e =
      let by_id = R.get_device_lem req.device_id svc.repo in
      let write =
        R.save_device_lem
          (bootstrapped R hash_credential (clone_device d) req (svc.clock svc.readings)) svc.repo in
      ground arith

  -- Over any repository, when Bootstrap succeeds, the hash of the returned value finds the returned
  -- token, and that token belongs to the returned device.
  pub bootstrap-Handed :
      (req : BootstrapRequest) (svc : Service R) (r : BootstrapResult)
      → (bootstrap R hash_credential req svc).0 ≡ ok r
      → Handed r (bootstrap R hash_credential req svc).1
  bootstrap-Handed req svc r h =
      let (d, may) = bootstrap-MayBootstrap req svc r h in
      let path = reaches_finish req svc r d h may.stored in
      rw path (
        finish_bootstrap-Handed (saved_device req d svc) (saved_service req d svc) r (rw path at h))
