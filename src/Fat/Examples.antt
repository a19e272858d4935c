-- ===== src/Fat/Examples.antt =====
-- The theorems of the file system, src/fat.c, at the small volume of Sample.
use pios_private.Base.{
  ℕ, suc, ◌+◌, ◌*◌, ◌<◌, ◌≡◌, ◌≢◌, ◌⊎◌, refl, arith, ◌==◌, if◌then◌else◌, some, [], ◌∷◌, map,
  length, pos, negsuc, find_from,
}
use pios_private.Mem.{Bytes, zeros, from, get16, get32, literal, codes}
use pios_private.Mem.Copy.{splice}
use pios_private.Mem.Text.{IsText}
use pios_private.Clib.{toupper}
use pios_private.Fat.Sample.{
  table, volume, locals, image, stored, greeting, volume-IsLoaded, volume-HasLayout,
  third-IsCluster, locals-IsCleanIo, locals-IsClean, stored-HasLayout,
}
use pios_private.Fat.State.{
  Fs, num_reserved_sectors, num_hidden_sectors, num_sectors_per_fat, cluster, fat_entry, root_rde,
}
use pios_private.Fat.Volume.{
  init_fat_structs, read_from_cluster, write_to_cluster, write_data_entries,
  unallocated_fat_table_index,
}
use pios_private.Fat.Volume.Layout.{table_start, IsCluster}
use pios_private.Fat.Volume.Closed.{directory_at, write_data_entries-splice, read_from_cluster-root}
use pios_private.Fat.Volume.Load.{loaded}
use pios_private.Fat.Open.{keep_path, flush, find_entry, fat_open}
use pios_private.Fat.Open.Find.{stands, find_entry-find_from}
use pios_private.Fat.Open.Path.{open_path, fat_open-open_path}
use pios_private.Fat.Open.Root.{open_first, fat_open-root}
use pios_private.Fat.Names.{placement, entry_path}
use pios_private.Fat.Names.Path.{HasParts, placement-HasParts, joined}
use pios_private.Fat.Names.Entry.{entry_name, entry_path-IsText}
use pios_private.Fat.Flush.{flush_load}
use pios_private.Fat.Cluster.{read_write, write_to_cluster-overrun}
use pios_private.Fat.Table.{unallocated_fat_table_index-first}
use pios_private.Fat.Io.{write_sectors, write_file_length, fat_write, fat_read, started}
use pios_private.Fat.Io.Length.{write_file_length_total}
use pios_private.Fat.Io.Chain.{IsFirstFree, write_sectors-three}
use pios_private.Fat.Io.RoundTrip.{IsOneCluster, fat_read-fat_write}

flush_load_example :
    let s' = (init_fat_structs (flush locals volume)).1 in
    ((j : ℕ) → j < 16384 → s'.fat_table_chars j ≡ table j)
    × ((j : ℕ) → j < 16384 → s'.root_directory_chars j ≡ 0)
    × ((arr : Bytes) (n : ℕ)
        → IsCluster volume n
        → read_from_cluster s' arr n ≡ read_from_cluster volume arr n)
flush_load_example = flush_load volume volume-IsLoaded locals

greeting-IsOneCluster : IsOneCluster stored greeting
unfolding num_sectors_per_fat get16 loaded splice table_start num_reserved_sectors
    num_hidden_sectors get32 cluster
greeting-IsOneCluster = record {
  on_volume = record { lower = omega arith; upper = omega arith };
  in_table = omega arith;
  last = omega arith;
  parent = λ ne. absurd (ne refl);
  apart = ground arith;
}

fat_read-fat_write_example :
    (s' : Fs) × (fat_write 20 9 locals greeting (literal "HELLO") stored
      ≡ some (0, started greeting 2, s'))
    × ((out : Bytes)
        → (r : Bytes) × (t : Fs) × (fat_read 8 locals out (started greeting 2) 6 s' ≡ some (r, t))
          × IsText r (codes "HELLO"))
fat_read-fat_write_example =
    fat_read-fat_write 20 8 locals greeting (literal "HELLO") (codes "HELLO") stored (omega arith)
      (omega arith) locals-IsCleanIo (ground arith) (omega arith) stored-HasLayout
      greeting-IsOneCluster

read_write_example : read_from_cluster (write_to_cluster volume (literal "HELLO") 3 6) zeros 3 ≡ (
    if 3 == 3
    then splice (read_from_cluster volume zeros 3) 0 6 (literal "HELLO")
    else read_from_cluster volume zeros 3)
read_write_example =
    read_write volume 3 6 (literal "HELLO") zeros third-IsCluster (omega arith) 3 third-IsCluster

write_to_cluster-overrun_example :
    read_from_cluster (write_to_cluster volume image 3 2060) zeros 4 5 ≡ image (2048 + 5)
write_to_cluster-overrun_example =
    write_to_cluster-overrun volume 3 2060 image zeros third-IsCluster (omega arith) (omega arith)
      (ground arith) 5 (omega arith)

write_data_entries-splice_example :
    write_data_entries locals volume (greeting.rde) zeros ≡ record volume {
      disk = splice zeros (directory_at volume (cluster (greeting.rde))) 2048 zeros;
    }
unfolding cluster get16
write_data_entries-splice_example =
    write_data_entries-splice locals volume (greeting.rde) zeros volume-HasLayout
      (λ ne. record { lower = omega arith; upper = omega arith })

read_from_cluster-root_example :
    read_from_cluster stored zeros 0 ≡ splice zeros 0 1024 (from image (512 * 68))
read_from_cluster-root_example = read_from_cluster-root stored zeros stored-HasLayout

write_file_length_total_example :
    (rows : Bytes) × (write_file_length 20 locals zeros (greeting.rde) 6 volume
      ≡ some
          (record volume { disk = splice zeros (directory_at volume (cluster zeros)) 2048 rows }))
unfolding cluster get16
write_file_length_total_example =
    write_file_length_total 20 locals (omega arith) locals-IsCleanIo zeros (greeting.rde) 6 volume
      volume-HasLayout (λ ne. absurd (ne refl))

-- The fifth entry of the table is the first free one.
fourth-IsFirstFree : IsFirstFree volume 4
unfolding get16
fourth-IsFirstFree = record { inside = omega arith; free = refl; before = λ k lt. ground arith }

write_sectors-three_example :
    (fat_entry (write_sectors locals zeros 5000 2 0 3 volume) 3
      ≡ (if 3 == 4 then 0xfff8 else if 3 == 3 then 4 else fat_entry volume 3))
    × (fat_entry (write_sectors locals zeros 5000 3 0 3 volume) 3
        ≡ (if 3 == 4 then 0xfff8 else if 3 == 3 then 4 else fat_entry volume 3))
write_sectors-three_example =
    write_sectors-three locals volume zeros 5000 3 4 fourth-IsFirstFree (omega arith) (ground arith)
      3

unallocated_fat_table_index-first_example :
    ((i : ℕ) × (unallocated_fat_table_index volume ≡ pos i)
      × (i < 8192)
      × (fat_entry volume i ≡ 0)
      × ((k : ℕ) → k < i → fat_entry volume k ≢ 0))
    ⊎ ((unallocated_fat_table_index volume ≡ negsuc 0)
        × ((k : ℕ) → k < 8192 → fat_entry volume k ≢ 0))
unallocated_fat_table_index-first_example = unallocated_fat_table_index-first volume

placement-HasParts_example :
    let (count, fn) =
      placement locals (literal "/a/bc") (suc (length (joined (codes "a") (codes "bc" ∷ [])))) in
    HasParts (codes "a" ∷ codes "bc" ∷ []) count fn
unfolding joined
placement-HasParts_example =
    placement-HasParts locals (literal "/a/bc") (codes "a") (codes "bc" ∷ []) (ground arith)
      (omega arith) (ground arith)

entry_path-IsText_example :
    (p : Bytes) × (entry_path 20 locals zeros (literal "KERNEL8 IMG") ≡ some p)
    × IsText p (entry_name (literal "KERNEL8 IMG"))
entry_path-IsText_example =
    entry_path-IsText 20 locals zeros (literal "KERNEL8 IMG") (omega arith) refl

find_entry-find_from_example :
    find_entry 20 locals keep_path zeros (literal "HELLO") (root_rde volume) 512 0
    ≡ some (find_from 512 0 (stands (codes "ELLO") (root_rde volume)))
find_entry-find_from_example =
    find_entry-find_from 20 locals (literal "HELLO") (codes "ELLO") (omega arith) (omega arith) refl
      (ground arith) zeros refl (root_rde volume) 512

fat_open-root_example :
    fat_open 20 locals greeting (literal "hello") stored
    ≡ some (
        open_first locals greeting
          (loaded stored)
          (find_from 512 0 (stands (map toupper (codes "ello")) (root_rde (loaded stored)))))
fat_open-root_example =
    fat_open-root 20 locals greeting (literal "hello") b'h' (codes "ello") stored (omega arith)
      locals-IsClean (omega arith) (ground arith) (ground arith) stored-HasLayout

fat_open-open_path_example :
    fat_open 20 locals greeting (literal "/a/bc") stored
    ≡ some (open_path locals greeting (codes "a") (codes "bc" ∷ []) (loaded stored))
unfolding joined
fat_open-open_path_example =
    fat_open-open_path 20 locals greeting (literal "/a/bc") (codes "a") (codes "bc" ∷ []) stored
      (omega arith) (omega arith) locals-IsClean (ground arith) stored-HasLayout (ground arith)
      (ground arith) (omega arith) (omega arith)
