-- ===== src/Fat/Sample.antt =====
-- A small volume of the geometry that the comment above `initFatStructs` of src/fat.c gives, for the examples.
use pios_private.Base.{refl, arith, ◌==◌, if◌then◌else◌}
use pios_private.Mem.{Bytes, zeros, get16, get32}
use pios_private.Fat.State.{
  Fs, File, Locals, num_reserved_sectors, num_hidden_sectors, num_sectors_per_fat,
  num_root_dir_entries,
}
use pios_private.Fat.Volume.Layout.{table_start, HasLayout, IsLoaded, IsCluster}
use pios_private.Fat.Open.Root.{IsClean}
use pios_private.Fat.Flush.{HasLayout-disk}
use pios_private.Fat.Io.Length.{IsCleanIo}

-- 4 reserved sectors, 2 tables of 32 sectors, 512 entries in the root directory
abbrev pub boot : Bytes
boot j =
    if j == 14 then 4 else if j == 16 then 2 else if j == 18 then 2 else if j == 22 then 32 else 0

-- The first two entries of the table are taken, and so are clusters 2 and 3.
abbrev pub table : Bytes
table j =
    if j == 0
    then 0xf8
    else if j == 1
    then 0xff
    else if j == 2
    then 0xf8
    else if j == 3
    then 0xff
    else if j == 4
    then 0xf8
    else if j == 5
    then 0xff
    else if j == 6
    then 0xf8
    else if j == 7
    then 0xff
    else 0

abbrev pub volume : Fs
volume = record {
  bs = boot;
  disk = zeros;
  fat_table = zeros;
  fat_table_size = 32;
  fat_table_start = 4;
  fat_table_chars = table;
  root_sector = 68;
  root_entries_size = 32;
  data_sector = 100;
  root_entries = zeros;
  root_directory_entries = zeros;
  root_directory_chars = zeros;
  data_entries = zeros;
  data_chars = zeros;
  root_entry = zeros;
}

abbrev pub locals : Locals
locals = record {
  filen = zeros;
  ext = zeros;
  path = zeros;
  placement_file = zeros;
  row = zeros;
  buffer = zeros;
  ret_buff = zeros;
  cluster_data = zeros;
  entries = zeros;
  name = zeros;
}

pub volume-IsLoaded : IsLoaded volume
unfolding table_start num_reserved_sectors num_hidden_sectors num_sectors_per_fat
    num_root_dir_entries get16 get32
volume-IsLoaded = ground arith

pub volume-HasLayout : HasLayout volume
volume-HasLayout = volume-IsLoaded.layout

pub third-IsCluster : IsCluster volume 3
third-IsCluster = ground arith

pub locals-IsCleanIo : IsCleanIo locals
locals-IsCleanIo = record { ext = refl; buffer = refl; name = refl }

pub locals-IsClean : IsClean locals
locals-IsClean = record { ext = refl; path = refl }

-- The volume with the end of a chain in the third entry of the table on the disk image.
abbrev pub image : Bytes
image j = if j == 2052 then 0xf8 else if j == 2053 then 0xff else 0

abbrev pub stored : Fs
stored = record volume { disk = image }

pub stored-HasLayout : HasLayout stored
stored-HasLayout = HasLayout-disk volume image volume-HasLayout

-- A file of the root directory with cluster 2.
abbrev pub greeting : File
greeting = record {
  parent_rde = zeros;
  rde = λ j. if j == 0 then b'H' else if j == 26 then 2 else 0;
  start_cluster = 2;
}
