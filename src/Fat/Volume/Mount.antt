-- ===== src/Fat/Volume/Mount.antt =====
-- The boot sectors of FAT16 volumes of the geometry that the arrays of src/fat.c have room for.
use pios_private.Base.{ℕ, ◌+◌, ◌*◌, ◌≤◌, ◌<◌, ◌≡◌, arith, true}
use pios_private.Mem.{Bytes}
use pios_private.Fat.State.{
  num_reserved_sectors, num_fat_tables, num_root_dir_entries, num_sectors_per_fat,
  num_hidden_sectors, total_sectors, fs_type, boot_signature,
}
use pios_private.Fat.Volume.{is_fat16}

-- A boot sector of FAT16, with 512 entries in the root directory, at least one table that is not
-- empty, tables of at most 32 sectors, and data that begins within the volume, which has at most the
-- 32768 sectors of the image.
pub record IsVolume (bs : Bytes) : Type 0 where
  pub signature : boot_signature bs ≡ 0xaa55
  pub fat16 : is_fat16 (fs_type bs) ≡ true
  pub entries : num_root_dir_entries bs ≡ 512
  pub some_table : 0 < num_sectors_per_fat bs
  pub tables : 0 < num_fat_tables bs
  pub on_disk :
      num_fat_tables bs * num_sectors_per_fat bs
        + num_reserved_sectors bs
        + num_hidden_sectors bs
        + 32
      < total_sectors bs
  pub table_rows : num_sectors_per_fat bs ≤ 32
  pub image : total_sectors bs ≤ 32768

pub product : (a b : ℕ) → 0 < a → b ≤ a * b
product a b lt = grind arith
