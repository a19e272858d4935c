-- ===== src/Fat/State.antt =====
-- The structures of src/fat.h, read in place from their bytes as the source's casts do, and the
-- file-scope variables of src/fat.c.
use pios_private.Base.{ℕ, ◌*◌, ◌%◌}
use pios_private.Mem.{Bytes, from, get16, get32}

-- `unsigned int` arithmetic
abbrev pub u32 : ℕ → ℕ
u32 n = n % 4294967296

abbrev pub cluster_size : ℕ
cluster_size = 2048

abbrev pub sector_size : ℕ
sector_size = 512

-- `CLUSTER_SIZE / SECTOR_SIZE`
abbrev pub sectors_per_cluster : ℕ
sectors_per_cluster = 4

abbrev pub root_directory_entry_size : ℕ
root_directory_entry_size = 32

-- `struct boot_sector` is packed.
unfoldable pub num_reserved_sectors : Bytes → ℕ
num_reserved_sectors bs = get16 bs 14

unfoldable pub num_fat_tables : Bytes → ℕ
num_fat_tables bs = bs 16

unfoldable pub num_root_dir_entries : Bytes → ℕ
num_root_dir_entries bs = get16 bs 17

unfoldable pub total_sectors : Bytes → ℕ
total_sectors bs = get16 bs 19

unfoldable pub num_sectors_per_fat : Bytes → ℕ
num_sectors_per_fat bs = get16 bs 22

unfoldable pub num_hidden_sectors : Bytes → ℕ
num_hidden_sectors bs = get32 bs 28

unfoldable pub fs_type : Bytes → Bytes
fs_type bs = from bs 54

unfoldable pub boot_signature : Bytes → ℕ
boot_signature bs = get16 bs 510

-- `struct root_directory_entry`, 32 bytes: the name at 0, the extension at 8.
abbrev pub file_extension : Bytes → Bytes
file_extension rde = from rde 8

abbrev pub attribute : Bytes → ℕ
attribute rde = rde 11

unfoldable pub cluster : Bytes → ℕ
cluster rde = get16 rde 26

unfoldable pub file_size : Bytes → ℕ
file_size rde = get32 rde 28

-- `struct file`, without the links that nothing uses
pub record File : Type 0 where
  pub parent_rde : Bytes
  pub rde : Bytes
  pub start_cluster : ℕ

-- The variables of the file. The rows of `fatTableChars`, `rootDirectoryChars` and `dataChars`
-- lie one behind the other, and the pointer arrays point at these rows.
pub record Fs : Type 0 where
  pub bs : Bytes
  pub disk : Bytes
  pub fat_table : Bytes
  pub fat_table_size : ℕ
  pub fat_table_start : ℕ
  pub fat_table_chars : Bytes
  pub root_sector : ℕ
  pub root_entries_size : ℕ
  pub data_sector : ℕ
  pub root_entries : Bytes
  pub root_directory_entries : Bytes
  pub root_directory_chars : Bytes
  pub data_entries : Bytes
  pub data_chars : Bytes
  pub root_entry : Bytes

-- What the uninitialised local arrays hold when a function begins.
pub record Locals : Type 0 where
  pub filen : Bytes
  pub ext : Bytes
  pub path : Bytes
  pub placement_file : Bytes
  pub row : Bytes
  pub buffer : Bytes
  pub ret_buff : Bytes
  pub cluster_data : Bytes
  pub entries : Bytes
  pub name : Bytes

-- `fatTablePointers[i]->entry`, `*rootDirectoryPointers[i]` and `*dataPointers[i]`
abbrev pub fat_entry : Fs → ℕ → ℕ
fat_entry s i = get16 s.fat_table_chars (2 * i)

abbrev pub root_rde : Fs → ℕ → Bytes
root_rde s i = from s.root_directory_chars (32 * i)

abbrev pub data_rde : Fs → ℕ → Bytes
data_rde s i = from s.data_chars (32 * i)
