-- ===== src/Fat/Create.antt =====
-- `fatCreate` of src/fat.c.
pub mod Keeps
pub mod Root
pub mod Entry
pub mod Named
pub mod RoundTrip
pub mod File
pub mod Others
pub mod Empty
mod Examples
mod OthersExample
use pios_private.Base.{
  ℕ, zero, suc, ◌+◌, ◌-◌, ◌*◌, Bool, true, Option, none, some, ◌==◌, ltb, if◌then◌else◌, ◌>>=◌,
  find_from, for_to, pos, negsuc, ◌&&◌,
}
use pios_private.Mem.{Bytes, write, put16, put32}
use pios_private.Clib.{strlen}
use pios_private.Str.{
  char_arr_cpy, char_arr_to_upper, space_char_array, null_char_array, has_separator, extension,
}
use pios_private.Fat.State.{Fs, Locals, fat_entry, root_rde, data_rde}
use pios_private.Fat.Volume.{init_fat_structs, write_data_entries}
use pios_private.Fat.Names.{placement}
use pios_private.Fat.Open.{
  keep_path, clear_path, same_name, load_directory, find_entry, part, sub_direct_end, flush,
}

-- How a loop over a directory's entries ends.
pub data Slot : Type 0 where
  free : ℕ → Slot
  taken : ℕ → Slot
  full : Slot

-- `filen[0] == '\0'` after `extension(filen, …, 8)`
unfoldable pub is_free : Locals → Bytes → Bool
is_free l rde = extension l.filen rde 8 0 == 0

-- The loop breaks at a free entry if `stop`, and at an entry of that name.
unfoldable pub find_slot :
    ℕ
    → Locals
    → (fresh : Bytes → Bytes) → (path name : Bytes) → (stop : Bool) → (ℕ → Bytes)
    → (n i : ℕ) → Option Slot
unfolding is_free
find_slot fuel l fresh path name stop rde zero i = some full
find_slot fuel l fresh path name stop rde (suc n) i =
    let rest = λ (p : Bytes). find_slot fuel l fresh p name stop rde n (suc i) in
    let compare_names = same_name fuel l (fresh path) name (rde i) >>= λ r.
    let later = rest r.1 in if r.0 then some (taken i) else later in
    if is_free l (rde i) && stop then some (free i) else compare_names

-- The first eight and the last three characters of the entry that is made from `name`, a string
-- of `len` characters.
unfoldable pub split_name : Locals → (name : Bytes) → (len : ℕ) → Bytes × Bytes
unfolding char_arr_cpy space_char_array null_char_array char_arr_to_upper has_separator
split_name l name len =
    let temp_name = space_char_array l.name 8 in
    let temp_extension = null_char_array l.ext 3 in
    elim (has_separator name b'.' len) [
      | negsuc _ ↦ (
        char_arr_to_upper (char_arr_cpy temp_name name len).1 8,
        char_arr_to_upper temp_extension 3,
      )
      | pos index ↦ (
        char_arr_to_upper (char_arr_cpy temp_name name index).1 8,
        char_arr_to_upper
            (for_to 3 (suc index) (λ i e. write e (i - suc index) (name i)) temp_extension) 3,
      )
    ]

-- `charArrCpy(dest + p, src, n)`
char_arr_cpy_to : Bytes → ℕ → Bytes → ℕ → Bytes
char_arr_cpy_to dest p src n = for_to n 0 (λ i d. write d (p + i) (src i)) dest

-- The entry at offset `p` of `rows` gets its name, attribute and size, and its cluster if the
-- table had one free.
unfoldable pub fill_entry : (rows : Bytes) → (p : ℕ) → Bytes × Bytes → Bool → Option ℕ → Bytes
unfolding char_arr_cpy_to
fill_entry rows p (name, ext) is_directory new_cluster =
    let named = char_arr_cpy_to (char_arr_cpy_to rows p name 8) (p + 8) ext 3 in
    let marked = write named (p + 11) (if is_directory then 0x10 else 0x20) in
    let linked : Bytes = elim new_cluster [ none ↦ marked | some i ↦ put16 marked (p + 26) i ] in
    put32 linked (p + 28) 0

-- The first free entry of the table, and the table with that entry marked as the end of a chain.
unfoldable pub allocate : Fs → Option ℕ × Bytes
allocate s =
    let found = find_from 8192 0 (λ i. fat_entry s i == 0) in
    (
      found,
      elim found [ none ↦ s.fat_table_chars | some i ↦ put16 s.fat_table_chars (2 * i) 0xfff8 ],
    )

unfoldable pub make_root_entry : Locals → Fs → ℕ → Bytes × Bytes → Bool → Fs
unfolding fill_entry allocate
make_root_entry l s i names is_directory =
    let (new_cluster, table) = allocate s in
    flush l (record s {
      root_directory_chars =
          fill_entry s.root_directory_chars (32 * i) names is_directory new_cluster;
      fat_table_chars = table;
    })

unfoldable pub make_data_entry : Locals → Fs → (parent : Bytes) → ℕ → Bytes × Bytes → Bool → Fs
unfolding fill_entry allocate
make_data_entry l s parent i names is_directory =
    let (new_cluster, table) = allocate s in
    let s' = record s {
      data_chars = fill_entry s.data_chars (32 * i) names is_directory new_cluster;
      fat_table_chars = table;
    } in
    flush l (write_data_entries l s' parent s'.data_chars)

module _ (fuel : ℕ) (l : Locals) (fn : Bytes) (is_directory : Bool) where
  -- `filename` is the whole path here. A full directory leaves `pointer` unset, and so the result
  -- is missing.
  unfoldable pub create_in_root : (filename : Bytes) → Fs → Option (ℕ × Fs)
  create_in_root filename s = do
    slot ← find_slot fuel l keep_path l.path (part fn 0) true (root_rde s) 512 0
    len ← strlen fuel filename
    elim slot [
      | taken _ ↦ some (1, s)
      | full ↦ none
      | free i ↦ some (0, make_root_entry l s i (split_name l filename len) is_directory)
    ]

  -- The while loop from `placementFileIndex = index`, with `rounds` indices left up to
  -- `subDirectIndex`.
  unfoldable pub create_walk : (rounds index : ℕ) → (parent : Bytes) → Fs → Option (ℕ × Fs)
  create_walk zero index parent s = some (4, s)
  create_walk (suc rounds) index parent s =
      let s' = load_directory s parent in
      let deeper = λ (i : ℕ). create_walk rounds (suc index) (data_rde s' i) s' in
      do
        slot ← find_slot fuel l clear_path l.path (part fn index) (rounds == 0) (data_rde s') 64 0
        elim slot [
          | full ↦ some (2, s')
          | taken i ↦ let more = deeper i in if rounds == 0 then some (3, s') else more
          | free i ↦
              (strlen fuel (part fn index) >>= λ len.
              some
                (0, make_data_entry l s' parent i (split_name l (part fn index) len) is_directory))
        ]

  unfoldable pub create_below_root : Fs → Option (ℕ × Fs)
  create_below_root s = do
    found ← find_entry fuel l keep_path l.path (part fn 0) (root_rde s) 512 0
    elim found [
      | none ↦ some (1, s)
      | some i ↦ (sub_direct_end fn >>= λ end. create_walk (end - 1) 1 (root_rde s i) s)
    ]

unfoldable pub fat_create : ℕ → Locals → (filename : Bytes) → Bool → Fs → Option (ℕ × Fs)
fat_create fuel l filename is_directory s₀ = do
  let s = (init_fat_structs s₀).1
  len ← strlen fuel filename
  let (file_count, fn) = placement l filename len
  if file_count == 1
      then create_in_root fuel l fn is_directory filename s
      else if ltb 1 file_count
      then create_below_root fuel l fn is_directory s
      else some (5, s)
