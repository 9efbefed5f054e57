-- ===== src/Device/Seed/Laws.antt =====
-- What internal/device/seed.go and SeedDemoData do.
use agen_sense.Prelude.{String, ◌≡◌, arith, ok, lookup, string_eq, int_eq, if◌then◌else◌, is_some}
use agen_sense.Device.Model.{Time}
use agen_sense.Device.Repository.{Repository}
use agen_sense.Device.Memory.Directory
use agen_sense.Device.Seed.{SeedTexts, demo_device_id, apply_demo_seed, seed_demo_data}

module _ (R : Repository) (hash_credential : String → String) (texts : SeedTexts) where
  -- Over any repository, SeedDemoData changes nothing and succeeds when the demo device is stored,
  -- and otherwise does what ApplyDemoSeed does.
  pub seed_demo_data_lem :
      (now : Time) (s : R.State)
      → seed_demo_data R hash_credential texts now s ≡ (
          if is_some (lookup demo_device_id (R.view s).devices)
          then (ok tt, s)
          else apply_demo_seed R hash_credential texts now s)
  unfolding seed_demo_data Directory.get_device
  seed_demo_data_lem now s = let by_id = R.get_device_lem demo_device_id s in ground arith
