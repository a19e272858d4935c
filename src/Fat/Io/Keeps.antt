-- ===== src/Fat/Io/Keeps.antt =====
-- `writeFileLength`, `fatRead` and `fatWrite` do not change the geometry of the volume.
use pios_private.Base.{ℕ, zero, suc, ◌+◌, ◌*◌, ◌≡◌, refl, arith, some, Option-cases, inl, inr}
use pios_private.Mem.{Bytes}
use pios_private.Clib.{strlen}
use pios_private.Fat.State.{u32, cluster_size, Fs, File, Locals, fat_entry}
use pios_private.Fat.Volume.{
  init_fat_structs, write_root_directory, write_fat_table, write_to_cluster,
}
use pios_private.Fat.Volume.Keeps.{
  Keeps, Keeps-refl, Keeps-trans, init_fat_structs-Keeps, write_to_cluster-Keeps,
  write_root_directory-Keeps, write_fat_table-Keeps, write_data_entries-Keeps,
}
use pios_private.Fat.Rows.{cut_rows}
use pios_private.Fat.Io.{
  clear_cluster, set_entry, release_chain, put_sector, write_sectors, write_file_length,
  finish_chain, finish_one, fat_read, fat_write, clusters_needed, started,
}

pub write_file_length-Keeps :
    (fuel : ℕ) (l : Locals) (parent rde : Bytes) (size : ℕ) (s t : Fs)
    → write_file_length fuel l parent rde size s ≡ some t
    → Keeps s t
unfolding write_file_length
write_file_length-Keeps fuel l parent rde size s t e = grind (arith, write_data_entries-Keeps)

pub fat_read-Keeps :
    (steps : ℕ) (l : Locals) (buffer : Bytes) (f : File) (n : ℕ) (s : Fs) (b : Bytes) (t : Fs)
    → fat_read steps l buffer f n s ≡ some (b, t)
    → Keeps s t
unfolding fat_read
fat_read-Keeps steps l buffer f n s b t e = ground (arith, init_fat_structs-Keeps s)

module _ (l : Locals) where
  clear_cluster-Keeps : (s : Fs) (n : ℕ) → Keeps s (clear_cluster l s n)
  unfolding clear_cluster
  clear_cluster-Keeps s n = write_to_cluster-Keeps s _ n 2048

  set_entry-Keeps : (s : Fs) (i v : ℕ) → Keeps s (set_entry s i v)
  unfolding set_entry
  set_entry-Keeps s i v = record {
    bs = refl;
    root_sector = refl;
    data_sector = refl;
    root_entries_size = refl;
  }

  put_sector-Keeps :
      (s : Fs) (sectors : Bytes) (i n size : ℕ) → Keeps s (put_sector l s sectors i n size)
  unfolding put_sector
  put_sector-Keeps s sectors i n size =
      Keeps-trans s _ _ (clear_cluster-Keeps s n) (write_to_cluster-Keeps _ _ n size)

  release_chain-Keeps :
      (steps n : ℕ) (s : Fs) (m : ℕ) (t : Fs) → release_chain l steps n s ≡ some (m, t) → Keeps s t
  unfolding release_chain
  release_chain-Keeps zero n s m t e = cc
  release_chain-Keeps (suc steps) n s m t e =
      let s₁ = clear_cluster l s n in
      let s₂ = set_entry s₁ n 0 in
      ground (
        arith,
        clear_cluster-Keeps s n,
        set_entry-Keeps s₁ n 0,
        release_chain-Keeps steps (fat_entry s n) s₂ m t,
      )

  write_sectors-Keeps :
      (sectors : Bytes) (size rounds i n : ℕ) (s : Fs)
      → Keeps s (write_sectors l sectors size rounds i n s)
  unfolding write_sectors
  write_sectors-Keeps sectors size zero i n s = Keeps-refl s
  write_sectors-Keeps sectors size (suc zero) i n s =
      Keeps-trans s _ _ (set_entry-Keeps s n 0xfff8) (put_sector-Keeps _ sectors i n size)
  write_sectors-Keeps sectors size (suc (suc rounds)) i n s =
      Keeps-trans s _ _ (set_entry-Keeps s n _) (
        Keeps-trans _ _ _ (put_sector-Keeps _ sectors i n size)
          (write_sectors-Keeps sectors size (suc rounds) (suc i) _ _))

  -- The writes at the end of `fatWrite`.
  stored-Keeps :
      (s : Fs) → Keeps s (write_root_directory l (init_fat_structs (write_fat_table l s)).1)
  stored-Keeps s =
      Keeps-trans s _ _ (write_fat_table-Keeps l s)
        (Keeps-trans _ _ _ (init_fat_structs-Keeps _) (write_root_directory-Keeps l _))

finish_chain-Keeps :
    (fuel : ℕ) (l : Locals) (n : ℕ) (f : File) (s : Fs) (r : ℕ) (g : File) (t : Fs)
    → finish_chain fuel l n f s ≡ some (r, g, t)
    → Keeps s t
unfolding finish_chain
finish_chain-Keeps fuel l n f s r g t e =
    elim (Option-cases (write_file_length fuel l f.parent_rde f.rde n s)) [
      | inl stuck ↦ ground arith
      | inr (s', run) ↦
          ground
            (arith, write_file_length-Keeps fuel l f.parent_rde f.rde n s s' run, stored-Keeps l s')
    ]

finish_one-Keeps :
    (fuel : ℕ) (l : Locals) (n c : ℕ) (f : File) (s : Fs) (r : ℕ) (g : File) (t : Fs)
    → finish_one fuel l n c f s ≡ some (r, g, t)
    → Keeps s t
unfolding finish_one
finish_one-Keeps fuel l n c f s r g t e =
    elim (Option-cases (write_file_length fuel l f.parent_rde f.rde n s)) [
      | inl stuck ↦ ground arith
      | inr (s', run) ↦ ground (
        arith,
        write_file_length-Keeps fuel l f.parent_rde f.rde n s s' run,
        set_entry-Keeps l s' c 0xfff8,
        stored-Keeps l (set_entry s' c 0xfff8),
      )
    ]

store_one-Keeps :
    (fuel : ℕ) (l : Locals) (n c : ℕ) (f : File) (buffer : Bytes) (s : Fs) (r : ℕ) (g : File)
    (t : Fs)
    → finish_one fuel l n c f (write_to_cluster (clear_cluster l s c) buffer c n) ≡ some (r, g, t)
    → Keeps s t
store_one-Keeps fuel l n c f buffer s r g t e = Keeps-trans s _ t (clear_cluster-Keeps l s c) (
    Keeps-trans _ _ t (write_to_cluster-Keeps _ buffer c n)
      (finish_one-Keeps fuel l n c f _ r g t e))

store_chain-Keeps :
    (fuel : ℕ) (l : Locals) (n k c : ℕ) (f : File) (sectors : Bytes) (s : Fs) (r : ℕ) (g : File)
    (t : Fs)
    → finish_chain fuel l n f (write_sectors l sectors n k 0 c s) ≡ some (r, g, t)
    → Keeps s t
store_chain-Keeps fuel l n k c f sectors s r g t e =
    Keeps-trans s _ t (write_sectors-Keeps l sectors n k 0 c s)
      (finish_chain-Keeps fuel l n f _ r g t e)

pub fat_write-Keeps :
    (fuel steps : ℕ) (l : Locals) (f : File) (buffer : Bytes) (s : Fs) (r : ℕ) (g : File) (t : Fs)
    → fat_write fuel steps l f buffer s ≡ some (r, g, t)
    → Keeps s t
unfolding fat_write
fat_write-Keeps fuel steps l f buffer s r g t e =
    let u = (init_fat_structs s).1 in
    elim (Option-cases (strlen fuel buffer)) [
      | inl stuck ↦ ground arith
      | inr (len, found) ↦ elim (Option-cases (release_chain l steps f.start_cluster u)) [
        | inl stuck ↦ ground arith
        | inr ((c, s'), released) ↦
            let n = u32 (len + 1) in
            let k = clusters_needed n in
            ground (
              arith,
              init_fat_structs-Keeps s,
              release_chain-Keeps l steps f.start_cluster u c s' released,
              store_one-Keeps fuel l n c (started f c) buffer s' r g t,
              store_chain-Keeps fuel l n k c (started f c)
                  (cut_rows (k * cluster_size) 2048 l.entries buffer) s' r g t,
            )
      ]
    ]
