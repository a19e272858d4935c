-- ===== src/Fat/Volume/Load.antt =====
-- `initFatStructs` on a volume of a known layout, and what a flush and a load come to together.
use pios_private.Base.{ℕ, ◌+◌, ◌*◌, ◌<◌, ◌≡◌, arith, ne→==}
use pios_private.Mem.{Bytes, from}
use pios_private.Mem.Copy.{splice, splice-splice_src}
use pios_private.Str.Copies.{char_arr_cpy_index-region}
use pios_private.Fat.State.{u32, Fs, num_sectors_per_fat}
use pios_private.Fat.Rows.{cut_rows}
use pios_private.Fat.Rows.Flat.{cut_rows-splice}
use pios_private.Fat.Volume.{load_fat_table, cut_tables, init_fat_structs}
use pios_private.Fat.Volume.Layout.{table_start, HasLayout}

-- The state with both tables read from the disk image.
unfoldable pub loaded : Fs → Fs
loaded s =
    let root = from s.disk (512 * s.root_sector) in
    let table = from s.disk (512 * table_start s) in
    let size = 512 * num_sectors_per_fat s.bs in
    record s {
      root_directory_entries = splice s.root_directory_entries 0 16384 root;
      root_directory_chars = splice s.root_directory_chars 0 16384 root;
      fat_table = splice s.fat_table 0 size table;
      fat_table_chars = splice s.fat_table_chars 0 size table;
      fat_table_start = table_start s;
      fat_table_size = num_sectors_per_fat s.bs;
    }

load_fat_table_lem :
    (s : Fs)
    → HasLayout s
    → load_fat_table s ≡ (
      512 * table_start s + 512 * num_sectors_per_fat s.bs,
      record s {
        fat_table =
            splice s.fat_table 0
              (512 * num_sectors_per_fat s.bs)
              (from s.disk (512 * table_start s));
        fat_table_start = table_start s;
        fat_table_size = num_sectors_per_fat s.bs;
      },
    )
unfolding load_fat_table table_start
load_fat_table_lem s h =
    let start : u32 (table_start s) ≡ table_start s =
      omega (arith, h.table, h.clusters, h.on_disk) in
    rw (
      start,
      char_arr_cpy_index-region s.fat_table s.disk (u32 (table_start s * 512))
          (u32 (table_start s * 512 + num_sectors_per_fat s.bs * 512)) (512 * table_start s)
          (512 * num_sectors_per_fat s.bs) (omega (arith, h.table, h.clusters, h.on_disk))
          (omega (arith, h.table, h.clusters, h.on_disk)),
    )

-- Changing the arrays leaves the layout alone.
HasLayout-entries :
    (s : Fs) (b : Bytes) → HasLayout s → HasLayout (record s { root_directory_entries = b })
unfolding table_start
HasLayout-entries s b h = record {
  entries = h.entries;
  entries_size = h.entries_size;
  some_table = h.some_table;
  table_rows = h.table_rows;
  table = h.table;
  clusters = h.clusters;
  on_disk = h.on_disk;
}

-- Both arrays of rows get what has just been read.
cut_rows-read :
    (n w m : ℕ) (rows arr src : Bytes)
    → 0 < w
    → n ≡ m
    → cut_rows n w rows (splice arr 0 m src) ≡ splice rows 0 m src
cut_rows-read n w m rows arr src pos e =
    rw (e, cut_rows-splice m w rows (splice arr 0 m src) pos)
      (splice-splice_src rows 0 m m arr src (omega arith))

-- On a volume with a layout, `initFatStructs` returns 1 and has read the root directory and the
-- first file allocation table from the disk image, and changed nothing else.
pub init_fat_structs-loaded : (s : Fs) → HasLayout s → init_fat_structs s ≡ (1, loaded s)
unfolding init_fat_structs loaded cut_tables table_start
init_fat_structs-loaded s h =
    let root = splice s.root_directory_entries 0 16384 (from s.disk (512 * s.root_sector)) in
    let s' = record s { root_directory_entries = root } in
    rw (
      char_arr_cpy_index-region s.root_directory_entries s.disk (u32 (s.root_sector * 512))
          (u32 (s.root_sector * 512 + 16384)) (512 * s.root_sector) 16384
          (omega (arith, h.clusters, h.on_disk)) (omega (arith, h.clusters, h.on_disk)),
      ne→== (512 * s.root_sector + 16384) 0 (omega arith),
      load_fat_table_lem s' (HasLayout-entries s root h),
      ne→== (512 * table_start s' + 512 * num_sectors_per_fat s.bs) 0 (omega (arith, h.some_table)),
      cut_rows-read (num_sectors_per_fat s.bs * 512) 2 (512 * num_sectors_per_fat s.bs)
          s.fat_table_chars s.fat_table (from s.disk (512 * table_start s')) (omega arith)
          (omega arith),
      cut_rows-read (s.root_entries_size * 512) 32 16384 s.root_directory_chars
          s.root_directory_entries (from s.disk (512 * s.root_sector)) (omega arith)
          (omega (arith, h.entries_size)),
    )
