-- ===== src/Command/Files.antt =====
-- The commands of src/command.c that make and read files: `touch`, `cat` and `mkdir`.
use pios_private.Base.{
  ℕ, ◌+◌, ◌*◌, true, false, not, ◌||◌, Option, some, ◌==◌, if◌then◌else◌, ◌>>=◌, find_from,
}
use pios_private.Mem.{Bytes, from, write, literal, onto}
use pios_private.Clib.{strlen, strcpy}
use pios_private.Str.{space_char_array}
use pios_private.Fat.State.{Fs, File, cluster, file_size}
use pios_private.Fat.Rows.{cut_rows}
use pios_private.Fat.Volume.{read_from_cluster, write_data_entries}
use pios_private.Fat.Open.{fat_open}
use pios_private.Fat.Create.{fat_create}
use pios_private.Fat.Io.{fat_read}
use pios_private.Command.{Shell, Scratch, Print, says, says_text, print, is_directory}

abbrev pub touch_message : ℕ → Bytes → Print
touch_message result path =
    if result == 1
    then says "File already exists.\n"
    else if result == 2
    then says "Subdirectory not found.\n"
    else if result == 3
    then says "File exists in subdirectory.\n"
    else if result == 4
    then says "File could not be created.\n"
    else if result == 5
    then says "File path given is not valid\n"
    else says_text "%s created.\n" path

module _ (fuel steps : ℕ) (x : Scratch) where
  unfoldable pub touch : (path : Bytes) → Shell → Option (ℕ × Shell)
  touch path s = do
    (result, fs) ← fat_create fuel x.locals path false s.fs
    some (result, print (touch_message result path) (record s { fs = fs }))

  unfoldable pub cat : (path : Bytes) → Shell → Option (ℕ × Shell)
  cat path s = do
    (result, f, fs) ← fat_open fuel x.locals x.temp_file path s.fs
    let s' = record s { fs = fs }
    let show = do
      (buffer, fs') ← fat_read steps x.locals x.buffer f (file_size f.rde) fs
      some (0, print (says_text "%s\n" buffer) (record s { fs = fs' }))
    if result == 1
        then some (1, print (says "Directory within path could not be found\n") s')
        else if result == 2
        then some (2, print (says "Subdirectory within path could not be found\n") s')
        else if result == 3
        then some (3, print (says "Path could not be found\n") s')
        else if not (result == 0) || is_directory f.rde
        then some (4, print (says "Path is a directory.\n") s')
        else show

  -- The entries "." and ".." in the rows `i` and `i + 1`, in the order of the source's statements.
  unfoldable pub dot_entries : (rows : Bytes) → (i : ℕ) → Option Bytes
  dot_entries rows i = do
    let p = 32 * i
    let q = 32 * (i + 1)
    let blank = onto rows p (space_char_array (from rows p) 8)
    let blanks = onto blank q (space_char_array (from blank q) 8)
    dot ← strcpy fuel (from blanks p) (literal ".")
    let one = onto blanks p dot
    dots ← strcpy fuel (from one q) (literal "..")
    some (write (write (onto one q dots) (p + 11) 0x10) (q + 11) 0x10)

  -- The part behind `fatOpen`. `none`: the loop has found no row for one of the two entries, and
  -- the source uses pointers behind the end of `tempPointers`.
  unfoldable pub fill_directory : File → Fs → Option Fs
  fill_directory f fs = do
    let entries = read_from_cluster fs x.locals.cluster_data (cluster f.rde)
    let rows = cut_rows 2048 32 x.locals.entries entries
    i ← find_from 63 0 (λ i. rows (32 * i) == 0)
    rows' ← dot_entries rows i
    some (write_data_entries x.locals fs f.rde rows')

  unfoldable pub mkdir : (path : Bytes) → Shell → Option (ℕ × Shell)
  mkdir path s =
      let make = do
        (created, fs) ← fat_create fuel x.locals path true s.fs
        let fill = do
          (result, f, fs') ← fat_open fuel x.locals x.temp_file path fs
          let filled = fill_directory f fs' >>= λ fs''. some (0, record s { fs = fs'' })
          if result == 0 then filled else some (3, record s { fs = fs' })
        if created == 0 then fill else some (2, record s { fs = fs })
      in strlen fuel path >>= λ len. if len == 0 then some (1, s) else make
