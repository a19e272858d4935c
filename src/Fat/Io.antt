-- ===== src/Fat/Io.antt =====
-- `writeFileLength`, `fatRead` and `fatWrite` of src/fat.c.
pub mod Length
pub mod Chain
pub mod Read
pub mod Settled
pub mod Size
pub mod RoundTrip
pub mod Root
pub mod Stored
pub mod RootFile
pub mod Written
pub mod After
pub mod Reopened
pub mod ByName
pub mod TwoFiles
mod Examples
pub mod Keeps
use pios_private.Base.{
  ℕ, zero, suc, ◌+◌, ◌-◌, ◌*◌, ◌/◌, ◌%◌, Bool, true, false, Option, none, some, ◌==◌, ltb, leb,
  if◌then◌else◌, ◌>>=◌, for_to, ℤ, pos, negsuc,
}
use pios_private.Mem.{Bytes, from, write, put16, put32}
use pios_private.Clib.{strlen, strcmp}
use pios_private.Str.{null_char_array}
use pios_private.Fat.State.{Fs, File, Locals, u32, cluster_size, cluster, fat_entry}
use pios_private.Fat.Rows.{cut_rows}
use pios_private.Fat.Volume.{
  init_fat_structs, unallocated_fat_table_index, read_from_cluster, write_to_cluster,
  write_data_entries, write_fat_table, write_root_directory,
}
use pios_private.Fat.Names.{root_directory_to_filename}
use pios_private.Fat.Open.{is_zero}

-- Entries with no name are passed over; the first one with the name of the file gets its size.
unfoldable pub set_length :
    ℕ → Locals → (rde_name : Bytes) → (size : ℕ) → (n i : ℕ) → Bytes → Option Bytes
set_length fuel l rde_name size zero i rows = some rows
set_length fuel l rde_name size (suc n) i rows =
    let rest = set_length fuel l rde_name size n (suc i) rows in
    let look = do
      buffer ← root_directory_to_filename fuel l (from rows (32 * i)) l.buffer
      c ← strcmp fuel buffer rde_name
      if is_zero c then some (put32 rows (32 * i + 28) size) else rest
    in if rows (32 * i) == 0 then rest else look

unfoldable pub write_file_length : ℕ → Locals → (parent rde : Bytes) → (size : ℕ) → Fs → Option Fs
write_file_length fuel l parent rde size s = do
  let temp_entries = read_from_cluster s l.cluster_data (cluster parent)
  rde_name ← root_directory_to_filename fuel l rde l.name
  let temp_chars = cut_rows cluster_size 32 l.entries temp_entries
  rows ← set_length fuel l rde_name size 64 0 temp_chars
  some (write_data_entries l s parent rows)

-- `for (i = 0; i < n; i++) { if (index == length) return 1; buffer[index] = data[i]; index++; }`
-- with the Boolean set if it returned
unfoldable pub take_bytes :
    (length : ℕ) → (arr : Bytes) → (n i index : ℕ) → Bytes → Bool × ℕ × Bytes
take_bytes length arr zero i index buffer = (false, index, buffer)
take_bytes length arr (suc n) i index buffer =
    let rest = take_bytes length arr n (suc i) (suc index) (write buffer index (arr i)) in
    if index == length then (true, index, buffer) else rest

-- The loop over the chain, and the part behind it for its last cluster.
unfoldable pub read_chain :
    Locals → Fs → (length steps : ℕ) → (fp_cluster index : ℕ) → Bytes → Option Bytes
read_chain l s length zero fp_cluster index buffer = none
read_chain l s length (suc steps) fp_cluster index buffer =
    let arr = read_from_cluster s l.cluster_data fp_cluster in
    let (stop, index', buffer') = take_bytes length arr 2048 0 index buffer in
    let rest = read_chain l s length steps (fat_entry s fp_cluster) index' buffer' in
    if ltb (fat_entry s fp_cluster) 0xfff8
    then (if stop then some buffer' else rest)
    else some buffer'

-- Returns the buffer; the result of `fatRead` is 1 on every path. `steps` bounds the clusters.
unfoldable pub fat_read :
    (steps : ℕ) → Locals → (buffer : Bytes) → File → (length : ℕ) → Fs → Option (Bytes × Fs)
fat_read steps l buffer fp length s₀ =
    let s = (init_fat_structs s₀).1 in
    let arr = read_from_cluster s l.cluster_data fp.start_cluster in
    let chained = read_chain l s length steps fp.start_cluster 0 buffer >>= λ b. some (b, s) in
    if leb 0xfff8 (fat_entry s fp.start_cluster)
    then some (for_to length 0 (λ i buffer. write buffer i (arr i)) buffer, s)
    else chained

-- `fatTablePointers[i]->entry = v`
unfoldable pub set_entry : Fs → ℕ → ℕ → Fs
set_entry s i v = record s { fat_table_chars = put16 s.fat_table_chars (2 * i) v }

-- `nullCharArray(tempBuffer, 2048); writeToCluster(tempBuffer, n, 2048);`
unfoldable pub clear_cluster : Locals → Fs → ℕ → Fs
clear_cluster l s n = write_to_cluster s (null_char_array l.cluster_data 2048) n 2048

-- The while loop that gives back every cluster of the chain but its last, which it returns.
unfoldable pub release_chain : Locals → (steps : ℕ) → (fp_cluster : ℕ) → Fs → Option (ℕ × Fs)
release_chain l zero fp_cluster s = none
release_chain l (suc steps) fp_cluster s =
    let next = fat_entry s fp_cluster in
    let rest = release_chain l steps next (set_entry (clear_cluster l s fp_cluster) fp_cluster 0) in
    if ltb next 0xfff8 then rest else some (fp_cluster, s)

-- An `int` stored in a `uint16_t`
unfoldable pub to_u16 : ℤ → ℕ
to_u16 (pos n) = n % 65536
to_u16 (negsuc n) = 65535 - n % 65536

-- Both writes of a round: the cluster is cleared, and then gets `size` bytes from row `i` on.
unfoldable pub put_sector : Locals → Fs → (sectors : Bytes) → (i fp_cluster size : ℕ) → Fs
unfolding clear_cluster
put_sector l s sectors i fp_cluster size =
    write_to_cluster (clear_cluster l s fp_cluster) (from sectors (2048 * i)) fp_cluster size

-- The loop over the rows from `i` on, `rounds` of them, the last of which ends the chain. (The
-- first round differs only in that it sets the start cluster of the file.)
unfoldable pub write_sectors :
    Locals → (sectors : Bytes) → (size : ℕ) → (rounds i : ℕ) → (fp_cluster : ℕ) → Fs → Fs
unfolding put_sector set_entry
write_sectors l sectors size zero i fp_cluster s = s
write_sectors l sectors size (suc zero) i fp_cluster s =
    put_sector l (set_entry s fp_cluster 0xfff8) sectors i fp_cluster size
write_sectors l sectors size (suc (suc rounds)) i fp_cluster s =
    let next = to_u16 (unallocated_fat_table_index s) in
    write_sectors l sectors size (suc rounds) (suc i) next
      (put_sector l (set_entry s fp_cluster next) sectors i fp_cluster size)

-- The file as both branches leave it: the copy of its entry is changed, the directory is not.
abbrev pub started : File → ℕ → File
started fp n = record fp { start_cluster = n; rde = put16 fp.rde 26 n }

abbrev pub clusters_needed : ℕ → ℕ
clusters_needed length = u32 (length / cluster_size + 1)

-- The last lines of the branch for several clusters, and of that for one.
unfoldable pub finish_chain : ℕ → Locals → (length : ℕ) → File → Fs → Option (ℕ × File × Fs)
finish_chain fuel l length fp s = do
  s' ← write_file_length fuel l fp.parent_rde fp.rde length s
  some (0, fp, write_root_directory l (init_fat_structs (write_fat_table l s')).1)

unfoldable pub finish_one :
    ℕ → Locals → (length fp_cluster : ℕ) → File → Fs → Option (ℕ × File × Fs)
finish_one fuel l length fp_cluster fp s = do
  s' ← write_file_length fuel l fp.parent_rde fp.rde length s
  let marked = set_entry s' fp_cluster 0xfff8
  some (0, fp, write_root_directory l (init_fat_structs (write_fat_table l marked)).1)

unfoldable pub fat_write :
    (fuel steps : ℕ) → Locals → File → (buffer : Bytes) → Fs → Option (ℕ × File × Fs)
fat_write fuel steps l fp buffer s₀ = do
  let s = (init_fat_structs s₀).1
  len ← strlen fuel buffer
  let length = u32 (len + 1)
  let needed = clusters_needed length
  (fp_cluster, s') ← release_chain l steps fp.start_cluster s
  let sectors = cut_rows (needed * cluster_size) 2048 l.entries buffer
  let several = write_sectors l sectors length needed 0 fp_cluster s'
  let one = write_to_cluster (clear_cluster l s' fp_cluster) buffer fp_cluster length
  if ltb 1 needed
      then finish_chain fuel l length (started fp fp_cluster) several
      else finish_one fuel l length fp_cluster (started fp fp_cluster) one
