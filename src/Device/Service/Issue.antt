-- ===== src/Device/Service/Issue.antt =====
-- IssueDeviceToken of internal/device/service.go.
use agen_sense.Prelude.{
  ℕ, suc, ◌+ℤ◌, String, none, some, false, ◌≡◌, ap, sym, subst, ◌∙◌, Bool-cases, inl, inr, ==_iff,
  arith, ok, string_eq, is_blank, trim_space, trim_left, trim_right, is_space, not, Ensures-check,
  Ensures-bind, invalid_input,
}
use Prim.Native.String.{◌++◌}
use Prim.Native.Char.{Char}
use Prim.Native.String.append
use agen_sense.Device.Model.{Device, IssuedDeviceToken}
use agen_sense.Device.Repository.{Repository}
use agen_sense.Device.Memory.Tokens
use agen_sense.Device.Memory.Changes.{Call, after}
use agen_sense.Device.Memory.Invariant.{IsWellFormed, after-IsWellFormed}
use agen_sense.Device.Memory.TokenLaws.{
  found_by_hash, save_issued_device_token_lem, found_by_hash-saved,
}
use agen_sense.Device.Service.{
  Service, random_token_component, store_token, issued_record, issue_device_token,
}

cons_ne_empty : (c : Char) (s : String) → string_eq.same (String.◌∷◌ c s) "" ≡ false
cons_ne_empty c s = elim (Bool-cases (string_eq.same (String.◌∷◌ c s) "")) [
  | inl e ↦ absurd (cc ((==_iff (String.◌∷◌ c s) "").0 e))
  | inr e ↦ e
]

not_blank_from : (s : String) → is_blank (String.◌∷◌ "d" s) ≡ false
unfolding is_blank trim_space trim_left trim_right is_space
not_blank_from s = cons_ne_empty "d" (trim_right s)

dtk_not_blank : (s : String) → is_blank ("dtk_" ++ s) ≡ false
dtk_not_blank s = ap is_blank (append.cons "d" "tk_" s) ∙ not_blank_from ("tk_" ++ s)

module _ (R : Repository) (hash_credential : String → String) where
  -- What a stored token is, from the service that issued it.
  pub record IsIssued (dev : Device) (svc : Service R) (r : IssuedDeviceToken) (v : String)
      (svc' : Service R) : Type 0 where
    pub found : found_by_hash (hash_credential v) (R.view svc'.repo) ≡ some r
    pub device_id : r.device_id ≡ dev.id
    pub token_hash : r.token_hash ≡ hash_credential v
    pub unrevoked : r.revoked_at ≡ none
    pub issued_at : r.issued_at ≡ svc.clock svc.readings
    pub expires_at : r.expires_at ≡ svc.clock svc.readings +ℤ svc.token_ttl
    pub devices : (R.view svc'.repo).devices ≡ (R.view svc.repo).devices
    pub clock : svc'.clock ≡ svc.clock
    pub readings : svc'.readings ≡ suc svc.readings
    pub not_blank : is_blank v ≡ false
    pub well_formed : IsWellFormed (R.view svc.repo) → IsWellFormed (R.view svc'.repo)

  store_token-IsIssued :
      (dev : Device) (a b : String) (svc : Service R) {r : IssuedDeviceToken} {v : String}
      → (store_token R hash_credential dev a b svc).0 ≡ ok (r, v)
      → IsIssued dev svc r v (store_token R hash_credential dev a b svc).1
  unfolding store_token after
  store_token-IsIssued dev a b svc {r} {v} h =
      let token_value = "dtk_" ++ (a ++ ("." ++ b)) in
      let t =
        issued_record R hash_credential dev a token_value (svc.clock svc.readings) svc.token_ttl in
      let facts = R.save_issued_device_token_lem t svc.repo in
      let model = save_issued_device_token_lem t (R.view svc.repo) in
      let back = found_by_hash-saved t (R.view svc.repo) in
      let same_view : R.view (store_token R hash_credential dev a b svc).1.repo
          ≡ (Tokens.save_issued_device_token t (R.view svc.repo)).1 =
        ground (arith, facts) in
      let after_save = λ (w : IsWellFormed (R.view svc.repo)).
        after-IsWellFormed (Call.save_issued_device_token t) w in
      let full = dtk_not_blank (a ++ ("." ++ b)) in
      record {
        found = ground (arith, facts, model, back);
        device_id = ground (arith, facts, model);
        token_hash = ground (arith, facts, model);
        unrevoked = ground (arith, facts, model);
        issued_at = ground (arith, facts, model);
        expires_at = ground (arith, facts, model);
        devices = ground (arith, facts, model);
        clock = ground (arith, facts);
        readings = ground (arith, facts);
        not_blank = ground (arith, full);
        well_formed = λ w. subst IsWellFormed (sym same_view) (after_save w);
      }

  -- Drawing random bytes changes nothing that the token depends on.
  after_random :
      (dev : Device) (n m : ℕ) (svc : Service R) (r : IssuedDeviceToken) (v : String)
      (svc' : Service R)
      → IsIssued dev (random_token_component R m (random_token_component R n svc).1).1 r v svc'
      → IsIssued dev svc r v svc'
  unfolding random_token_component
  after_random dev n m svc r v svc' i = record {
    found = i.found;
    device_id = i.device_id;
    token_hash = i.token_hash;
    unrevoked = i.unrevoked;
    issued_at = i.issued_at;
    expires_at = i.expires_at;
    devices = i.devices;
    clock = i.clock;
    readings = i.readings;
    not_blank = i.not_blank;
    well_formed = i.well_formed;
  }

  abbrev drawn : Service R → Service R
  drawn svc = (random_token_component R 24 (random_token_component R 9 svc).1).1

  -- A token that IssueDeviceToken returns is stored: its value's hash finds it.
  pub issue_device_token-IsIssued :
      (dev : Device) (svc : Service R) {r : IssuedDeviceToken} {v : String}
      → (issue_device_token R hash_credential dev svc).0 ≡ ok (r, v)
      → IsIssued dev svc r v (issue_device_token R hash_credential dev svc).1
  unfolding issue_device_token random_token_component
  issue_device_token-IsIssued dev svc {r} {v} h =
      Ensures-check (not (is_blank dev.id)) invalid_input _ svc (λ x s. IsIssued dev svc x.0 x.1 s)
        (λ _.
          Ensures-bind (random_token_component R 9) _ svc (λ x s. IsIssued dev svc x.0 x.1 s)
            λ a _.
              Ensures-bind (random_token_component R 24) _ _ (λ x s. IsIssued dev svc x.0 x.1 s)
                λ b _ x e.
                  after_random dev 9 24 svc _ _ _ (store_token-IsIssued dev a b (drawn svc) e))
        (r, v) h

  -- A token is issued to no device without a name.
  pub issue_device_token_named :
      (dev : Device) (svc : Service R) {p : IssuedDeviceToken × String}
      → (issue_device_token R hash_credential dev svc).0 ≡ ok p
      → is_blank dev.id ≡ false
  unfolding issue_device_token
  issue_device_token_named dev svc h = ground arith
