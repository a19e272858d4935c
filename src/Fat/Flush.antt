-- ===== src/Fat/Flush.antt =====
-- Writing both tables back to the disk image, as `fatOpen`, `fatCreate` and `fatWrite` end with,
-- against reading them again, as each of them begins with.
use pios_private.Base.{ℕ, ◌+◌, ◌*◌, ◌<◌, ◌≡◌, arith, ◌∙◌}
use pios_private.Mem.{Bytes}
use pios_private.Mem.Copy.{splice, splice_above, splice-same}
use pios_private.Fat.State.{Fs, Locals}
use pios_private.Fat.Volume.{init_fat_structs, read_from_cluster}
use pios_private.Fat.Volume.Layout.{table_start, HasLayout, IsLoaded, IsCluster}
use pios_private.Fat.Volume.Closed.{
  cluster_at, write_fat_table-splice, write_root_directory-splice, read_from_cluster-splice,
}
use pios_private.Fat.Volume.Load.{loaded, init_fat_structs-loaded}
use pios_private.Fat.Open.{flush}

-- A layout is a matter of the boot sector and of the three numbers derived from it.
pub HasLayout-disk : (s : Fs) (d : Bytes) → HasLayout s → HasLayout (record s { disk = d })
unfolding table_start
HasLayout-disk s d h = record {
  entries = h.entries;
  entries_size = h.entries_size;
  some_table = h.some_table;
  table_rows = h.table_rows;
  table = h.table;
  clusters = h.clusters;
  on_disk = h.on_disk;
}

-- What `flush` leaves on the disk image.
abbrev pub flushed : Fs → Bytes
flushed s =
    splice (splice s.disk (512 * s.fat_table_start) (512 * s.fat_table_size) s.fat_table_chars)
      (512 * s.root_sector) 16384 s.root_directory_chars

pub flush-splice : (l : Locals) (s : Fs) → IsLoaded s → flush l s ≡ record s { disk = flushed s }
unfolding flush
flush-splice l s h =
    rw (write_fat_table-splice l s h)
      (write_root_directory-splice l _ (HasLayout-disk s _ h.layout))

module _ (s : Fs) (h : IsLoaded s) where
  -- The load after a flush.
  flush-loaded :
      (l : Locals) → init_fat_structs (flush l s) ≡ (1, loaded (record s { disk = flushed s }))
  flush-loaded l =
      rw (flush-splice l s h) (init_fat_structs-loaded _ (HasLayout-disk s (flushed s) h.layout))

  pub loaded-table :
      (j : ℕ)
      → j < 512 * s.fat_table_size
      → (loaded (record s { disk = flushed s })).fat_table_chars j ≡ s.fat_table_chars j
  unfolding loaded table_start splice
  loaded-table j lt = ground (arith, h.start, h.size, h.layout.table)

  pub loaded-root :
      (j : ℕ)
      → j < 16384
      → (loaded (record s { disk = flushed s })).root_directory_chars j ≡ s.root_directory_chars j
  unfolding loaded splice
  loaded-root j lt = ground arith

  -- No cluster is touched.
  pub flushed-cluster :
      (n i : ℕ)
      → IsCluster s n
      → i < 2048
      → flushed s (cluster_at s n + i) ≡ s.disk (cluster_at s n + i)
  unfolding splice
  flushed-cluster n i c lt =
      splice_above
        (splice s.disk (512 * s.fat_table_start) (512 * s.fat_table_size) s.fat_table_chars)
        (512 * s.root_sector) 16384 s.root_directory_chars (cluster_at s n + i)
        (omega (arith, h.layout.clusters))
      ∙ splice_above s.disk (512 * s.fat_table_start) (512 * s.fat_table_size) s.fat_table_chars
          (cluster_at s n + i) (omega (arith, h.start, h.size, h.layout.table, h.layout.clusters))

  loaded-cluster :
      (arr : Bytes) (n : ℕ)
      → IsCluster s n
      → read_from_cluster (loaded (record s { disk = flushed s })) arr n ≡ read_from_cluster s arr n
  unfolding loaded
  loaded-cluster arr n c =
      rw
        (
          read_from_cluster-splice s arr n c,
          read_from_cluster-splice (loaded (record s { disk = flushed s })) arr n
              (record { lower = c.lower; upper = c.upper }),
        )
        (splice-same arr 0 2048 _ _ (λ i lt. flushed-cluster n i c lt))

  -- On a loaded volume, loading the tables again after a flush gives back every entry of the file
  -- allocation table and of the root directory, and every cluster reads as before.
  pub flush_load :
      (l : Locals)
      → let s' = (init_fat_structs (flush l s)).1 in
        ((j : ℕ) → j < 512 * s.fat_table_size → s'.fat_table_chars j ≡ s.fat_table_chars j)
        × ((j : ℕ) → j < 16384 → s'.root_directory_chars j ≡ s.root_directory_chars j)
        × ((arr : Bytes) (n : ℕ)
            → IsCluster s n
            → read_from_cluster s' arr n ≡ read_from_cluster s arr n)
  flush_load l = rw (flush-loaded l) (loaded-table, loaded-root, loaded-cluster)
