-- ===== src/Fat/Create/Examples.antt =====
-- `fatCreate` at the small volume of Fat/Sample, whose root directory is empty.
use pios_private.Base.{ℕ, ◌≡◌, refl, arith, true, some, map, ◌==◌, find_from, IsFirst}
use pios_private.Mem.{literal, codes}
use pios_private.Mem.Copy.{splice}
use pios_private.Clib.{toupper}
use pios_private.Fat.State.{Fs, File, root_rde, attribute, file_size, fat_entry}
use pios_private.Fat.Sample.{stored, locals, greeting, stored-HasLayout, locals-IsClean}
use pios_private.Fat.Volume.Load.{loaded}
use pios_private.Fat.Names.Entry.{entry_name}
use pios_private.Fat.Open.{fat_open}
use pios_private.Fat.Create.{fat_create}
use pios_private.Fat.Create.Root.{stops, slot_at, create_at, fat_create-root}
use pios_private.Fat.Create.RoundTrip.{fat_open-fat_create}

fat_create-root_example :
    fat_create 20 locals (literal "docs") true stored
    ≡ create_at locals (literal "docs") 4 true (loaded stored) (
        slot_at
          (root_rde (loaded stored))
          (find_from 512 0 (λ k. stops (map toupper (codes "ocs")) (root_rde (loaded stored) k))))
fat_create-root_example =
    fat_create-root 20 locals (literal "docs") true b'd' (codes "ocs") stored (omega arith)
      locals-IsClean (omega arith) (ground arith) (ground arith) stored-HasLayout

slot-IsFirst : IsFirst 512 0 (λ k. stops (map toupper (codes "ocs")) (root_rde (loaded stored) k)) 0
unfolding loaded splice
slot-IsFirst = record {
  lower = omega arith;
  upper = omega arith;
  holds = refl;
  before = λ j lo lt. absurd (omega arith);
}

fat_open-fat_create_example :
    (s' : Fs) × (fat_create 20 locals (literal "docs") true stored ≡ some (0, s'))
    × (f : File) × (t : Fs) × (fat_open 20 locals greeting (literal "docs") s' ≡ some (0, f, t))
    × (f.rde ≡ root_rde (loaded s') 0)
    × (entry_name f.rde ≡ codes "DOCS")
    × (attribute f.rde ≡ 0x10)
    × (file_size f.rde ≡ 0)
    × ((k : ℕ)
        → find_from 8192 0 (λ k. fat_entry (loaded stored) k == 0) ≡ some k
        → f.start_cluster ≡ k)
unfolding loaded splice toupper
fat_open-fat_create_example =
    fat_open-fat_create 20 locals greeting (literal "docs") true b'd' (codes "ocs") stored 0
      (omega arith) locals-IsClean (omega arith) (ground arith) (ground arith) (ground arith)
      stored-HasLayout slot-IsFirst refl
