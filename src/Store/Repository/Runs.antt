-- ===== src/Store/Repository/Runs.antt =====
-- Sequences of writes of internal/store/file_repository.go, errors of the file system included.
use agen_sense.Prelude.{List, [], ◌∷◌, ◌≡◌, refl, ap, ◌∙◌}
use agen_sense.Device.Memory.Changes.{Call, after, after_all}
use agen_sense.Store.Disk.{JsonCodec}
use agen_sense.Store.Repository.Flush.{FileRepository}
use agen_sense.Store.Repository.Methods.{tables_of}
use agen_sense.Store.Repository.Methods
use agen_sense.Store.Repository.Refinement.{
  save_instance-Writes, save_device-Writes, save_provider_profile-Writes,
  save_config_snapshot-Writes, set_desired_config_version-Writes, ack_config_version-Writes,
  save_issued_device_token-Writes, touch_issued_device_token-Writes,
  revoke_issued_device_token-Writes,
}

module _ (C : JsonCodec) where
  -- The repository after a write, whether it returned an error or not.
  unfoldable pub file_after : FileRepository C → Call → FileRepository C
  file_after r (Call.save_instance i) = (Methods.save_instance C i r).1
  file_after r (Call.save_device d) = (Methods.save_device C d r).1
  file_after r (Call.save_provider_profile p) = (Methods.save_provider_profile C p r).1
  file_after r (Call.save_config_snapshot c) = (Methods.save_config_snapshot C c r).1
  file_after r (Call.set_desired_config_version d v) =
      (Methods.set_desired_config_version C d v r).1
  file_after r (Call.ack_config_version d v t) = (Methods.ack_config_version C d v t r).1
  file_after r (Call.save_issued_device_token t) = (Methods.save_issued_device_token C t r).1
  file_after r (Call.touch_issued_device_token id t) =
      (Methods.touch_issued_device_token C id t r).1
  file_after r (Call.revoke_issued_device_token id t) =
      (Methods.revoke_issued_device_token C id t r).1

  unfoldable pub file_after_all : FileRepository C → List Call → FileRepository C
  file_after_all r [] = r
  file_after_all r (c ∷ cs) = file_after_all (file_after r c) cs

  file_after_lem :
      (r : FileRepository C) (c : Call) → tables_of C (file_after r c) ≡ after (tables_of C r) c
  unfolding file_after after
  file_after_lem r (Call.save_instance i) = (save_instance-Writes C i r).0
  file_after_lem r (Call.save_device d) = (save_device-Writes C d r).0
  file_after_lem r (Call.save_provider_profile p) = (save_provider_profile-Writes C p r).0
  file_after_lem r (Call.save_config_snapshot c) = (save_config_snapshot-Writes C c r).0
  file_after_lem r (Call.set_desired_config_version d v) =
      (set_desired_config_version-Writes C d v r).0
  file_after_lem r (Call.ack_config_version d v t) = (ack_config_version-Writes C d v t r).0
  file_after_lem r (Call.save_issued_device_token t) = (save_issued_device_token-Writes C t r).0
  file_after_lem r (Call.touch_issued_device_token id t) =
      (touch_issued_device_token-Writes C id t r).0
  file_after_lem r (Call.revoke_issued_device_token id t) =
      (revoke_issued_device_token-Writes C id t r).0

  -- Whatever the file system does, after any sequence of writes the maps of the repository over a
  -- file are those of the repository in memory after the same writes, those that return an error
  -- included.
  pub file_after_all_lem :
      (r : FileRepository C) (cs : List Call)
      → tables_of C (file_after_all r cs) ≡ after_all (tables_of C r) cs
  unfolding file_after_all after_all
  file_after_all_lem r [] = refl
  file_after_all_lem r (c ∷ cs) =
      file_after_all_lem (file_after r c) cs ∙ ap (λ s. after_all s cs) (file_after_lem r c)
