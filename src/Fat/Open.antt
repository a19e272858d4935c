-- ===== src/Fat/Open.antt =====
-- `fatOpen` of src/fat.c.
pub mod Find
pub mod Root
pub mod Path
pub mod Same
pub mod Keeps
use pios_private.Base.{
  ℕ, zero, suc, ◌-◌, ◌*◌, Bool, false, Option, none, some, ◌==◌, ltb, if◌then◌else◌, ◌>>=◌,
  find_from, ℤ, pos, negsuc,
}
use pios_private.Mem.{Bytes, from}
use pios_private.Clib.{strlen, strcmp}
use pios_private.Str.{null_char_array}
use pios_private.Fat.State.{Fs, File, Locals, cluster, root_rde, data_rde}
use pios_private.Fat.Rows.{cut_rows}
use pios_private.Fat.Volume.{
  init_fat_structs, read_from_cluster, write_fat_table, write_root_directory,
}
use pios_private.Fat.Names.{placement, entry_path}

unfoldable pub is_zero : ℤ → Bool
is_zero (pos n) = n == 0
is_zero (negsuc n) = false

-- `strcmp(name, path) == 0` for the path of an entry, and that path.
unfoldable pub same_name : ℕ → Locals → (path name rde : Bytes) → Option (Bool × Bytes)
unfolding is_zero
same_name fuel l path name rde = do
  p ← entry_path fuel l path rde
  c ← strcmp fuel name p
  some (is_zero c, p)

-- What a loop does with `path` before it looks at an entry. Those over the root directory leave in
-- it what the entry before has left; those over another directory clear it.
abbrev pub keep_path : Bytes → Bytes
keep_path path = path

abbrev pub clear_path : Bytes → Bytes
clear_path path = null_char_array path 11

-- The loop over the `n` entries from `i` on that breaks at the first one of that name. `rde` is
-- the directory, and `path` the array as the loop has left it; the result is `some none` if the
-- loop runs to its end.
unfoldable pub find_entry :
    ℕ
    → Locals
    → (fresh : Bytes → Bytes) → (path name : Bytes) → (ℕ → Bytes)
    → (n i : ℕ) → Option (Option ℕ)
find_entry fuel l fresh path name rde zero i = some none
find_entry fuel l fresh path name rde (suc n) i =
    let rest = λ (p : Bytes). find_entry fuel l fresh p name rde n (suc i) in
    same_name fuel l (fresh path) name (rde i) >>= λ r.
    let later = rest r.1 in if r.0 then some (some i) else later

-- `readFromCluster(dataEntries, …)`, cut into `dataChars`
unfoldable pub load_directory : Fs → (parent : Bytes) → Fs
load_directory s parent =
    let entries = read_from_cluster s s.data_entries (cluster parent) in
    record s { data_entries = entries; data_chars = cut_rows 2048 32 s.data_chars entries }

-- `placementFile[i]`
abbrev pub part : Bytes → ℕ → Bytes
part fn i = from fn (11 * i)

-- One more than `subDirectIndex`. No row is empty: the source leaves the index unset, and so the
-- result is missing.
unfoldable pub sub_direct_end : Bytes → Option ℕ
sub_direct_end fn = find_from 20 0 (λ i. fn (11 * i) == 0)

abbrev pub Opened : Type 0
Opened = ℕ × File × Fs

abbrev pub opened : Bytes → Bytes → File
opened parent rde = record { parent_rde = parent; rde = rde; start_cluster = cluster rde }

-- `writeFatTable(); writeRootDirectory(); return 0;`
unfoldable pub flush : Locals → Fs → Fs
flush l s = write_root_directory l (write_fat_table l s)

module _ (fuel : ℕ) (l : Locals) (fn : Bytes) where
  -- The while loop from `placementFileIndex = index`, with `rounds` indices left up to
  -- `subDirectIndex`. A part that is found is the file if it is the last one.
  unfoldable pub open_walk : (rounds index : ℕ) → (parent : Bytes) → File → Fs → Option Opened
  open_walk zero index parent fle s = some (2, fle, s)
  open_walk (suc rounds) index parent fle s =
      let s' = load_directory s parent in
      let deeper = λ (i : ℕ). open_walk rounds (suc index) (data_rde s' i) fle s' in
      do
        found ← find_entry fuel l clear_path l.path (part fn index) (data_rde s') 64 0
        elim found [
          | none ↦ some (2, fle, s')
          | some i ↦
              let more = deeper i in
              if rounds == 0 then some (0, opened parent (data_rde s' i), flush l s') else more
        ]

  unfoldable pub open_in_root : File → Fs → Option Opened
  open_in_root fle s = do
    found ← find_entry fuel l keep_path l.path (part fn 0) (root_rde s) 512 0
    some (elim found [
      | none ↦ (1, fle, s)
      | some i ↦ (0, opened s.root_entry (root_rde s i), flush l s)
    ])

  unfoldable pub open_below_root : File → Fs → Option Opened
  open_below_root fle s = do
    found ← find_entry fuel l keep_path l.path (part fn 0) (root_rde s) 512 0
    elim found [
      | none ↦ some (1, fle, s)
      | some i ↦ (sub_direct_end fn >>= λ end. open_walk (end - 1) 1 (root_rde s i) fle s)
    ]

unfoldable pub fat_open : ℕ → Locals → File → Bytes → Fs → Option Opened
fat_open fuel l fle filename s₀ = do
  let s = (init_fat_structs s₀).1
  len ← strlen fuel filename
  let (file_count, fn) = placement l filename len
  if file_count == 1
      then open_in_root fuel l fn fle s
      else if ltb 1 file_count
      then open_below_root fuel l fn fle s
      else some (3, fle, s)
