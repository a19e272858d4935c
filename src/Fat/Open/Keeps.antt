-- ===== src/Fat/Open/Keeps.antt =====
-- `fatOpen` does not change the geometry of the volume, whatever it returns.
use pios_private.Base.{ℕ, zero, suc, ◌≡◌, refl, arith, none, some, Option-cases, inl, inr}
use pios_private.Mem.{Bytes}
use pios_private.Fat.State.{Fs, File, Locals, data_rde}
use pios_private.Fat.Volume.Keeps.{
  Keeps, Keeps-trans, init_fat_structs-Keeps, write_root_directory-Keeps, write_fat_table-Keeps,
}
use pios_private.Fat.Open.{
  clear_path, part, open_walk, open_in_root, open_below_root, fat_open, flush, load_directory,
  find_entry,
}

pub flush-Keeps : (l : Locals) (s : Fs) → Keeps s (flush l s)
unfolding flush
flush-Keeps l s = Keeps-trans s _ _ (write_fat_table-Keeps l s) (write_root_directory-Keeps l _)

pub load_directory-Keeps : (s : Fs) (parent : Bytes) → Keeps s (load_directory s parent)
unfolding load_directory
load_directory-Keeps s parent = record {
  bs = refl;
  root_sector = refl;
  data_sector = refl;
  root_entries_size = refl;
}

module _ (fuel : ℕ) (l : Locals) (fn : Bytes) where
  open_in_root-Keeps :
      (f : File) (s : Fs) (r : ℕ) (g : File) (t : Fs)
      → open_in_root fuel l fn f s ≡ some (r, g, t)
      → Keeps s t
  unfolding open_in_root
  open_in_root-Keeps f s r g t e = ground (arith, flush-Keeps l s)

  open_walk-Keeps :
      (rounds index : ℕ) (parent : Bytes) (f : File) (s : Fs) (r : ℕ) (g : File) (t : Fs)
      → open_walk fuel l fn rounds index parent f s ≡ some (r, g, t)
      → Keeps s t
  unfolding open_walk
  open_walk-Keeps zero index parent f s r g t e = ground arith
  open_walk-Keeps (suc rounds) index parent f s r g t e =
      let s' = load_directory s parent in
      let here = load_directory-Keeps s parent in
      elim (Option-cases (find_entry fuel l clear_path l.path (part fn index) (data_rde s') 64 0)) [
        | inl stuck ↦ ground arith
        | inr (none, run) ↦ ground arith
        | inr (some i, run) ↦
            ground (
              arith,
              flush-Keeps l s',
              open_walk-Keeps rounds (suc index) (data_rde s' i) f s' r g t,
            )
      ]

  open_below_root-Keeps :
      (f : File) (s : Fs) (r : ℕ) (g : File) (t : Fs)
      → open_below_root fuel l fn f s ≡ some (r, g, t)
      → Keeps s t
  unfolding open_below_root
  open_below_root-Keeps f s r g t e = grind (arith, open_walk-Keeps)

pub fat_open-Keeps :
    (fuel : ℕ) (l : Locals) (f : File) (filename : Bytes) (s : Fs) (r : ℕ) (g : File) (t : Fs)
    → fat_open fuel l f filename s ≡ some (r, g, t)
    → Keeps s t
unfolding fat_open
fat_open-Keeps fuel l f filename s r g t e =
    grind (arith, init_fat_structs-Keeps s, open_in_root-Keeps, open_below_root-Keeps)
