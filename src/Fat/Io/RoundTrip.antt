-- ===== src/Fat/Io/RoundTrip.antt =====
-- `fatRead` after `fatWrite`, for a text that fits one cluster.
use pios_private.Base.{
  ℕ, suc, ◌+◌, ◌*◌, ◌/◌, ◌≤◌, ◌<◌, ◌≡◌, ◌≢◌, refl, arith, some, List, length, ◌∙◌, le→ltb,
}
use pios_private.Mem.{Bytes}
use pios_private.Mem.Copy.{splice, splice_at}
use pios_private.Mem.Text.{IsText, TextAt-same}
use pios_private.Str.{null_char_array}
use native.Mathlib.Nat.{zero-add}
use pios_private.Clib.Strings.{strlen-length}
use pios_private.Fat.State.{Fs, File, Locals, cluster, fat_entry, num_sectors_per_fat, u32}
use pios_private.Fat.Volume.Layout.{HasLayout, IsLoaded, IsCluster}
use pios_private.Fat.Volume.Closed.{cluster_at, directory_at}
use pios_private.Fat.Volume.Load.{loaded, init_fat_structs-loaded}
use pios_private.Fat.Flush.{HasLayout-disk}
use pios_private.Fat.Cluster.{with_disk, IsCluster-disk}
use pios_private.Fat.Io.{
  release_chain, set_entry, started, finish_one, write_file_length, fat_write, fat_read,
}
use pios_private.Fat.Io.Length.{IsCleanIo, write_file_length_total}
use pios_private.Fat.Io.Settled.{
  settled, filled, fill_lem, loaded-IsLoaded, marked, marked-IsLoaded, marked-IsCluster,
  marked-entry, directory-apart, read_settled,
}

-- The file of the round trip: one cluster of the volume that ends its chain, whose entry lies in
-- the table, in a directory that is another cluster or the root.
pub record IsOneCluster (s : Fs) (fp : File) : Type 0 where
  pub on_volume : IsCluster s fp.start_cluster
  pub in_table : fp.start_cluster < 256 * num_sectors_per_fat s.bs
  pub last : 0xfff8 ≤ fat_entry (loaded s) fp.start_cluster
  pub parent : cluster fp.parent_rde ≢ 0 → IsCluster s (cluster fp.parent_rde)
  pub apart : cluster fp.parent_rde ≢ fp.start_cluster

-- A chain of one cluster has nothing to give back.
release_one :
    (l : Locals) (steps c : ℕ) (s : Fs)
    → 0xfff8 ≤ fat_entry s c
    → release_chain l (suc steps) c s ≡ some (c, s)
unfolding release_chain
release_one l steps c s last = rw (le→ltb (fat_entry s c) 0xfff8 last)

-- A write of a text that fits one cluster, with its terminator.
module _ (fuel steps : ℕ) (l : Locals) (fp : File) (buffer : Bytes) (xs : List ℕ) (s : Fs)
    (enough : 12 < fuel) (long : length xs < fuel) (clean : IsCleanIo l) (text : IsText buffer xs)
    (small : length xs < 2047) (h : HasLayout s) (one : IsOneCluster s fp) where
  -- What stands on the disk image, and the directory that is written over it.
  abbrev pub new_disk : Bytes
  new_disk =
      filled (loaded s) fp.start_cluster (suc (length xs)) (null_char_array l.cluster_data 2048)
        buffer

  abbrev pub new_directory : Bytes → Bytes
  new_directory rows = splice new_disk (directory_at (loaded s) (cluster fp.parent_rde)) 2048 rows

  on_loaded : (n : ℕ) → IsCluster s n → IsCluster (loaded s) n
  unfolding loaded
  on_loaded n k = record { lower = k.lower; upper = k.upper }

  -- What `fatWrite` comes to if the directory is written back with `rows`.
  pub write_one-rows :
      (rows : Bytes)
      → write_file_length fuel l fp.parent_rde
          (started fp fp.start_cluster).rde
          (suc (length xs))
          (with_disk (loaded s) new_disk)
        ≡ some (with_disk (loaded s) (new_directory rows))
      → fat_write fuel (suc steps) l fp buffer s
        ≡ some (
          0,
          started fp fp.start_cluster,
          settled l (marked (loaded s) (new_directory rows) fp.start_cluster),
        )
  unfolding fat_write finish_one settled directory_at
  write_one-rows rows e =
      let c = fp.start_cluster in
      let n = suc (length xs) in
      let size : u32 (length xs + 1) ≡ n = omega arith in
      let needed : u32 (n / 2048 + 1) ≡ 1 = omega arith in
      rw
        (
          init_fat_structs-loaded s h,
          strlen-length fuel xs buffer text long,
          release_one l steps c (loaded s) one.last,
          size,
          needed,
          fill_lem l (loaded s) c n buffer (on_loaded c one.on_volume) (omega arith),
          e,
        )
        refl

  write_one :
      (rows : Bytes) × (fat_write fuel (suc steps) l fp buffer s
        ≡ some (
          0,
          started fp fp.start_cluster,
          settled l (marked (loaded s) (new_directory rows) fp.start_cluster),
        ))
  unfolding directory_at
  write_one =
      let (rows, e) =
        write_file_length_total fuel l enough clean fp.parent_rde (started fp fp.start_cluster).rde
          (suc (length xs)) (with_disk (loaded s) new_disk)
          (HasLayout-disk (loaded s) new_disk (loaded-IsLoaded s h).layout)
          (λ ne.
            IsCluster-disk (loaded s) (cluster fp.parent_rde) new_disk
              (on_loaded _ (one.parent ne))) in
      (rows, write_one-rows rows e)

  -- The text is still there after the directory has been written.
  pub kept :
      (rows : Bytes) (i : ℕ)
      → i < suc (length xs)
      → (marked (loaded s) (new_directory rows) fp.start_cluster).disk (
          cluster_at (marked (loaded s) (new_directory rows) fp.start_cluster) fp.start_cluster + i)
        ≡ buffer i
  unfolding set_entry
  kept rows i lt =
      directory-apart (loaded s) fp.start_cluster (cluster fp.parent_rde) i new_disk rows
        (loaded-IsLoaded s h).layout (on_loaded _ one.on_volume) (λ ne. on_loaded _ (one.parent ne))
        one.apart (omega arith)
      ∙ splice_at _ (cluster_at (loaded s) fp.start_cluster) (suc (length xs)) buffer i lt

  -- On a volume with a layout, for a file of one cluster outside its own directory, and a text of
  -- fewer than 2047 characters, with the NULs behind the local arrays and enough fuel: `fatWrite`
  -- returns 0, and a `fatRead` of as many bytes as the text and its terminator take then returns
  -- a buffer that holds the text.
  pub fat_read-fat_write :
      (s' : Fs) × (fat_write fuel (suc steps) l fp buffer s
        ≡ some (0, started fp fp.start_cluster, s'))
      × ((out : Bytes)
          → (r : Bytes) × (t : Fs) × (fat_read steps l out
                (started fp fp.start_cluster)
                (suc (length xs))
                s'
              ≡ some (r, t))
            × IsText r xs)
  unfolding set_entry loaded
  fat_read-fat_write =
      let c = fp.start_cluster in
      let n = suc (length xs) in
      let (rows, written) = write_one in
      let t = marked (loaded s) (new_directory rows) c in
      let ht : IsLoaded t =
        marked-IsLoaded (loaded s) (new_directory rows) c (loaded-IsLoaded s h) in
      (
        settled l t,
        written,
        λ out.
            let (r, e, same) =
              read_settled steps l t (started fp c) n out ht
                (marked-IsCluster (loaded s) (new_directory rows) c c (on_loaded c one.on_volume))
                one.in_table (rw (marked-entry (loaded s) (new_directory rows) c) (omega arith))
                (omega arith) in
            (
              r,
              loaded (settled l t),
              e,
              TextAt-same buffer r xs 0 0
                  (λ i lt. rw (zero-add i) (same i lt ∙ kept rows i (omega arith))) text,
            ),
      )
