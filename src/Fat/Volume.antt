-- ===== src/Fat/Volume.antt =====
-- Mounting the volume, and moving tables and clusters between their arrays and the disk image.
pub mod Layout
pub mod Keeps
pub mod Closed
pub mod Load
pub mod Mount
pub mod Card
use pios_private.Base.{
  ℕ, zero, suc, ◌+◌, ◌-◌, ◌*◌, ◌/◌, ◌%◌, ◌&&◌, Bool, true, false, not, Option, none, some, ◌==◌,
  ltb, if◌then◌else◌, find_from, ℤ, pos, negsuc,
}
use pios_private.Mem.{Bytes, from, write, put16}
use pios_private.Str.{char_arr_cpy_index, char_arr_cpy_index_opp}
use pios_private.Fat.State.{
  u32, sector_size, cluster_size, sectors_per_cluster, root_directory_entry_size,
  num_reserved_sectors, num_fat_tables, num_root_dir_entries, total_sectors, num_sectors_per_fat,
  num_hidden_sectors, fs_type, boot_signature, cluster, Fs, Locals, fat_entry,
}
use pios_private.Fat.Rows.{cut_rows, pack_rows, flatten_rows}

-- The SD card driver, src/sd.c, a copy of another project's: `readblock lba buffer num` is the
-- number of bytes read, 0 on an error, and what the buffer then holds. `sd_init` has been called: its
-- result is not looked at.
pub record SdCard : Type 0 where
  pub readblock : ℕ → Bytes → ℕ → ℕ × Bytes

-- `type` of initFat, with the blank that must follow it
unfoldable pub is_fat16 : Bytes → Bool
is_fat16 t = t 0 == b'F' && t 1 == b'A' && t 2 == b'T' && t 3 == b'1' && t 4 == b'6' && t 5 == b' '

mount : SdCard → Fs → Fs
mount sd s =
    let bs = s.bs in
    let root_sector = u32 (
      num_fat_tables bs * num_sectors_per_fat bs
      + num_reserved_sectors bs
      + num_hidden_sectors bs) in
    let root_entries_size = num_root_dir_entries bs * 32 / sector_size in
    record s {
      root_sector = root_sector;
      data_sector = u32 (root_sector + root_entries_size);
      root_entries_size = root_entries_size;
      root_entries = (sd.readblock root_sector s.root_entries root_entries_size).1;
      disk = (sd.readblock 0 s.disk (total_sectors bs)).1;
      root_entry = put16 s.root_entry 26 0;
    }

-- What it prints is left out. `bs` is set only behind a read that has returned bytes.
unfoldable pub init_fat : SdCard → Fs → ℕ × Fs
unfolding is_fat16 mount
init_fat sd s =
    let (error, bs) = sd.readblock 0 s.bs 1 in
    let s' = record s { bs = bs } in
    if error == 0
    then (0, s)
    else if not (boot_signature bs == 0xaa55)
    then (0, s')
    else if is_fat16 (fs_type bs)
    then (1, mount sd s')
    else (0, s')

unfoldable pub load_fat_table : Fs → ℕ × Fs
load_fat_table s =
    let start = u32 (num_reserved_sectors s.bs + num_hidden_sectors s.bs) in
    let size = num_sectors_per_fat s.bs in
    let (error, fat_table) =
      char_arr_cpy_index s.fat_table s.disk (u32 (start * sector_size))
        (u32 (start * sector_size + size * sector_size)) in
    (error, record s { fat_table_start = start; fat_table_size = size; fat_table = fat_table })

unfoldable pub cut_tables : Fs → Fs
cut_tables s = record s {
  root_directory_chars =
      cut_rows (s.root_entries_size * sector_size) 32 s.root_directory_chars
        s.root_directory_entries;
  fat_table_chars = cut_rows (s.fat_table_size * sector_size) 2 s.fat_table_chars s.fat_table;
}

unfoldable pub init_fat_structs : Fs → ℕ × Fs
init_fat_structs s =
    let (error, entries) =
      char_arr_cpy_index s.root_directory_entries s.disk (u32 (s.root_sector * sector_size))
        (u32 (s.root_sector * sector_size + 16384)) in
    let s' = record s { root_directory_entries = entries } in
    if error == 0
    then (0, s')
    else let (error', s'') = load_fat_table s' in
      if error' == 0 then (0, s'') else (1, cut_tables s'')

-- Index of the first entry with value 0, or -1
unfoldable pub unallocated_fat_table_index : Fs → ℤ
unallocated_fat_table_index s = elim (find_from 8192 0 (λ i. fat_entry s i == 0)) [
  | none ↦ negsuc 0
  | some i ↦ pos i
]

-- `(data_sector + ((clusterNum - 2) * SECTORS_PER_CLUSTER)) * SECTOR_SIZE`: the product is a
-- signed `int`, the sum and the offset are unsigned and wrap.
unfoldable pub cluster_offset : Fs → ℕ → ℕ
cluster_offset s n =
    u32 (u32 (s.data_sector + 4294967296 + n * sectors_per_cluster - 8) * sector_size)

unfoldable pub root_offset : Fs → ℕ
root_offset s = u32 (s.root_sector * sector_size)

unfoldable pub read_from_cluster : Fs → Bytes → ℕ → Bytes
unfolding cluster_offset root_offset
read_from_cluster s arr cluster_num =
    if cluster_num == 0
    then (char_arr_cpy_index arr s.disk (root_offset s)
        (u32 (root_offset s + s.root_entries_size * 32))).1
    else (char_arr_cpy_index arr s.disk (cluster_offset s cluster_num)
        (u32 (cluster_offset s cluster_num + sector_size * sectors_per_cluster))).1

-- `disk[offset .. offset + n) = src`
store : Fs → ℕ → ℕ → Bytes → Fs
store s offset n src = record s {
  disk = (char_arr_cpy_index_opp s.disk src offset (u32 (offset + n))).1;
}

unfoldable pub write_to_cluster : Fs → Bytes → ℕ → ℕ → Fs
unfolding store cluster_offset
write_to_cluster s arr cluster_num size = store s (cluster_offset s cluster_num) size arr

unfoldable pub write_root_directory : Locals → Fs → Fs
unfolding store root_offset
write_root_directory l s =
    let n = num_root_dir_entries s.bs in
    let buffer = pack_rows n 32 l.buffer l.row s.root_directory_chars in
    store s (root_offset s) 16384 (flatten_rows n 32 l.ret_buff buffer)

-- The second loop runs over `fat_table_size * SECTOR_SIZE` rows, twice as many as there are.
unfoldable pub write_fat_table : Locals → Fs → Fs
unfolding store
write_fat_table l s =
    let n = s.fat_table_size * sector_size in
    let buffer = pack_rows (n / 2) 2 l.buffer l.row s.fat_table_chars in
    store s (u32 (s.fat_table_start * sector_size)) n (flatten_rows n 2 l.ret_buff buffer)

unfoldable pub write_data_entries : Locals → Fs → (parent entries : Bytes) → Fs
unfolding store cluster_offset root_offset
write_data_entries l s parent entries =
    let buffer = pack_rows 64 32 l.buffer l.row entries in
    let ret_buff = flatten_rows 64 32 l.ret_buff buffer in
    if cluster parent == 0
    then store s (root_offset s) 2048 ret_buff
    else store s (cluster_offset s (cluster parent)) 2048 ret_buff
