-- ===== src/Fat/Create/Keeps.antt =====
-- `fatCreate` does not change the geometry of the volume, whatever it returns.
use pios_private.Base.{ℕ, zero, suc, ◌≡◌, refl, arith, Bool, some, ◌==◌, Option-cases, inl, inr}
use pios_private.Mem.{Bytes}
use pios_private.Fat.State.{Fs, Locals, data_rde}
use pios_private.Fat.Volume.Keeps.{
  Keeps, Keeps-trans, init_fat_structs-Keeps, write_data_entries-Keeps,
}
use pios_private.Fat.Open.Keeps.{flush-Keeps, load_directory-Keeps}
use pios_private.Fat.Open.{clear_path, part, load_directory}
use pios_private.Fat.Create.{
  free, taken, full, find_slot, make_root_entry, make_data_entry, create_in_root, create_walk,
  create_below_root, fat_create,
}

module _ (l : Locals) where
  make_root_entry-Keeps :
      (s : Fs) (i : ℕ) (names : Bytes × Bytes) (b : Bool) → Keeps s (make_root_entry l s i names b)
  unfolding make_root_entry
  make_root_entry-Keeps s i names b =
      Keeps-trans s _ _
        (record { bs = refl; root_sector = refl; data_sector = refl; root_entries_size = refl })
        (flush-Keeps l _)

  make_data_entry-Keeps :
      (s : Fs) (parent : Bytes) (i : ℕ) (names : Bytes × Bytes) (b : Bool)
      → Keeps s (make_data_entry l s parent i names b)
  unfolding make_data_entry
  make_data_entry-Keeps s parent i names b =
      Keeps-trans s _ _
        (record { bs = refl; root_sector = refl; data_sector = refl; root_entries_size = refl })
        (Keeps-trans _ _ _ (write_data_entries-Keeps l _ parent _) (flush-Keeps l _))

module _ (fuel : ℕ) (l : Locals) (fn : Bytes) (b : Bool) where
  create_in_root-Keeps :
      (filename : Bytes) (s : Fs) (r : ℕ) (t : Fs)
      → create_in_root fuel l fn b filename s ≡ some (r, t)
      → Keeps s t
  unfolding create_in_root
  create_in_root-Keeps filename s r t e = grind (arith, make_root_entry-Keeps)

  create_walk-Keeps :
      (rounds index : ℕ) (parent : Bytes) (s : Fs) (r : ℕ) (t : Fs)
      → create_walk fuel l fn b rounds index parent s ≡ some (r, t)
      → Keeps s t
  unfolding create_walk
  create_walk-Keeps zero index parent s r t e = ground arith
  create_walk-Keeps (suc rounds) index parent s r t e =
      let s' = load_directory s parent in
      let here = load_directory-Keeps s parent in
      elim (Option-cases
        (find_slot fuel l clear_path l.path (part fn index) (rounds == 0) (data_rde s') 64 0)) [
          | inl stuck ↦ ground arith
          | inr (full, run) ↦ ground arith
          | inr (taken i, run) ↦
              ground (arith, create_walk-Keeps rounds (suc index) (data_rde s' i) s' r t)
          | inr (free i, run) ↦ grind (arith, make_data_entry-Keeps)
        ]

  create_below_root-Keeps :
      (s : Fs) (r : ℕ) (t : Fs) → create_below_root fuel l fn b s ≡ some (r, t) → Keeps s t
  unfolding create_below_root
  create_below_root-Keeps s r t e = grind (arith, create_walk-Keeps)

pub fat_create-Keeps :
    (fuel : ℕ) (l : Locals) (filename : Bytes) (b : Bool) (s : Fs) (r : ℕ) (t : Fs)
    → fat_create fuel l filename b s ≡ some (r, t)
    → Keeps s t
unfolding fat_create
fat_create-Keeps fuel l filename b s r t e =
    grind (arith, init_fat_structs-Keeps s, create_in_root-Keeps, create_below_root-Keeps)
