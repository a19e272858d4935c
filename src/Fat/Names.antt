-- ===== src/Fat/Names.antt =====
-- Paths and file names: `pathToFileName`, and the names of directory entries.
pub mod Entry
pub mod Path
use pios_private.Base.{ℕ, suc, ◌+◌, ◌*◌, Option, some, ◌==◌, if◌then◌else◌, ◌>>=◌, for_to, ◌&&◌}
use pios_private.Mem.{Bytes, write}
use pios_private.Clib.{toupper, strcat, strncpy}
use pios_private.Str.{char_arr_cpy, extension, is_separator, null_char_array}
use pios_private.Fat.State.{file_extension, Locals}

-- The loop's variables, with the rows of 11 bytes of `fn`.
pub record Split : Type 0 where
  pub count : ℕ
  pub index : ℕ
  pub fn : Bytes

unfoldable pub split_round : Bytes → ℕ → Split → Split
unfolding is_separator
split_round path i s =
    if is_separator (path i) b'/' && i == 0
    then record s { index = 0 }
    else if is_separator (path i) b'/'
    then record { fn = write s.fn (11 * s.count + s.index) 0; index = 0; count = suc s.count }
    else record s {
      fn = write s.fn (11 * s.count + s.index) (toupper (path i));
      index = suc s.index;
    }

-- The number of parts, and the rows.
unfoldable pub path_to_file_name : Bytes → Bytes → ℕ → ℕ × Bytes
unfolding split_round
path_to_file_name fn path length =
    let s = for_to length 0 (split_round path) (record { count = 0; index = 0; fn = fn }) in
    (suc s.count, s.fn)

-- `placementFile[i]` for i < 20, each row set to NULs, and then filled from the path
unfoldable pub placement : Locals → Bytes → ℕ → ℕ × Bytes
unfolding null_char_array path_to_file_name
placement l filename length =
    let cleared =
      for_to 20 0 (λ i fn. for_to 11 0 (λ j fn. write fn (11 * i + j) 0) fn) l.placement_file in
    path_to_file_name cleared filename length

-- The literal "."
abbrev pub dot : Bytes
dot i = if i == 0 then b'.' else 0

-- The name of a directory entry as a string, in `path`: `extension`, `strncpy` and, if the entry
-- has an extension, `strcat` of a dot and of the extension.
unfoldable pub entry_path : ℕ → Locals → (path rde : Bytes) → Option Bytes
entry_path fuel l path rde =
    let filen = extension l.filen rde 8 in
    let ext = extension l.ext (file_extension rde) 3 in
    let base = strncpy path filen 8 in
    if ext 0 == 0 then some base else do dotted ← strcat fuel base dot; strcat fuel dotted ext

unfoldable pub root_directory_to_filename : ℕ → Locals → (rde buffer : Bytes) → Option Bytes
unfolding entry_path
root_directory_to_filename fuel l rde buffer = do
  path ← entry_path fuel l l.path rde
  some (char_arr_cpy buffer path 11).1
