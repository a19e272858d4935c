-- ===== src/Fat/Volume/Layout.antt =====
-- The geometry of a volume: where the file allocation table, the root directory and the clusters
-- stand on the disk image. The comment above `initFatStructs` gives one instance.
use pios_private.Base.{ℕ, ◌+◌, ◌*◌, ◌≤◌, ◌<◌, ◌≡◌}
use pios_private.Fat.State.{
  Fs, num_reserved_sectors, num_hidden_sectors, num_sectors_per_fat, num_root_dir_entries,
}

-- The first sector of the file allocation table.
unfoldable pub table_start : Fs → ℕ
table_start s = num_reserved_sectors s.bs + num_hidden_sectors s.bs

-- The regions follow each other without overlap, the root directory has the 512 entries and the
-- table at most the 32 sectors that the arrays have room for, and the data begins behind them, within
-- the image of 32768 sectors.
pub record HasLayout (s : Fs) : Type 0 where
  pub entries : num_root_dir_entries s.bs ≡ 512
  pub entries_size : s.root_entries_size ≡ 32
  pub some_table : 0 < num_sectors_per_fat s.bs
  pub table_rows : num_sectors_per_fat s.bs ≤ 32
  pub table : table_start s + num_sectors_per_fat s.bs ≤ s.root_sector
  pub clusters : s.data_sector ≡ s.root_sector + 32
  pub on_disk : s.data_sector < 32768

-- `initFatStructs` has run.
pub record IsLoaded (s : Fs) : Type 0 where
  pub layout : HasLayout s
  pub start : s.fat_table_start ≡ table_start s
  pub size : s.fat_table_size ≡ num_sectors_per_fat s.bs

-- A cluster of the data region that lies whole on the disk image.
pub record IsCluster (s : Fs) (n : ℕ) : Type 0 where
  pub lower : 2 ≤ n
  pub upper : s.data_sector + 4 * n ≤ 32768 + 4
