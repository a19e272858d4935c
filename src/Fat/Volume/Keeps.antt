-- ===== src/Fat/Volume/Keeps.antt =====
-- What no operation changes: the boot sector and the geometry that has been read from it.
use pios_private.Base.{ℕ, ◌≡◌, refl, arith, Bool, true, false, ◌∙◌, ◌==◌, if◌then◌else◌}
use pios_private.Mem.{Bytes}
use pios_private.Fat.State.{Fs, Locals, cluster}
use pios_private.Fat.Volume.{
  init_fat_structs, load_fat_table, cut_tables, write_to_cluster, write_root_directory,
  write_fat_table, write_data_entries,
}
use pios_private.Fat.Volume.Layout.{table_start, HasLayout}

-- `t` has the boot sector and the geometry of `s`.
pub record Keeps (s t : Fs) : Type 0 where
  pub bs : t.bs ≡ s.bs
  pub root_sector : t.root_sector ≡ s.root_sector
  pub data_sector : t.data_sector ≡ s.data_sector
  pub root_entries_size : t.root_entries_size ≡ s.root_entries_size

pub HasLayout-Keeps : (s t : Fs) → Keeps s t → HasLayout s → HasLayout t
unfolding table_start
HasLayout-Keeps s t k h = record {
  entries = rw k.bs h.entries;
  entries_size = k.root_entries_size ∙ h.entries_size;
  some_table = rw k.bs h.some_table;
  table_rows = rw k.bs h.table_rows;
  table = rw (k.bs, k.root_sector) h.table;
  clusters = k.data_sector ∙ rw k.root_sector h.clusters;
  on_disk = rw k.data_sector h.on_disk;
}

pub Keeps-refl : (s : Fs) → Keeps s s
Keeps-refl s = record {
  bs = refl;
  root_sector = refl;
  data_sector = refl;
  root_entries_size = refl;
}

pub Keeps-trans : (s t u : Fs) → Keeps s t → Keeps t u → Keeps s u
Keeps-trans s t u h k = record {
  bs = k.bs ∙ h.bs;
  root_sector = k.root_sector ∙ h.root_sector;
  data_sector = k.data_sector ∙ h.data_sector;
  root_entries_size = k.root_entries_size ∙ h.root_entries_size;
}

Keeps-if : (b : Bool) (s t u : Fs) → Keeps s t → Keeps s u → Keeps s (if b then t else u)
Keeps-if true s t u h k = h
Keeps-if false s t u h k = k

pub write_to_cluster-Keeps :
    (s : Fs) (arr : Bytes) (n size : ℕ) → Keeps s (write_to_cluster s arr n size)
unfolding write_to_cluster
write_to_cluster-Keeps s arr n size = record {
  bs = refl;
  root_sector = refl;
  data_sector = refl;
  root_entries_size = refl;
}

pub write_root_directory-Keeps : (l : Locals) (s : Fs) → Keeps s (write_root_directory l s)
unfolding write_root_directory
write_root_directory-Keeps l s = record {
  bs = refl;
  root_sector = refl;
  data_sector = refl;
  root_entries_size = refl;
}

pub write_fat_table-Keeps : (l : Locals) (s : Fs) → Keeps s (write_fat_table l s)
unfolding write_fat_table
write_fat_table-Keeps l s = record {
  bs = refl;
  root_sector = refl;
  data_sector = refl;
  root_entries_size = refl;
}

pub write_data_entries-Keeps :
    (l : Locals) (s : Fs) (parent entries : Bytes) → Keeps s (write_data_entries l s parent entries)
unfolding write_data_entries
write_data_entries-Keeps l s parent entries =
    Keeps-if (cluster parent == 0) s _ _
      (record { bs = refl; root_sector = refl; data_sector = refl; root_entries_size = refl })
      (record { bs = refl; root_sector = refl; data_sector = refl; root_entries_size = refl })

pub init_fat_structs-Keeps : (s : Fs) → Keeps s (init_fat_structs s).1
unfolding init_fat_structs load_fat_table cut_tables
init_fat_structs-Keeps s = ground arith
