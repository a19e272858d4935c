-- ===== src/Command.antt =====
-- The shell's commands, src/command.c. What they print is kept as the list of the calls of
-- `esp_printf`, the latest one first: the formatter of src/rprintf.c is another author's.
-- `fatOpen` and the others do what Fat says; the fuel of string scans is `fuel`, and that of chains
-- of clusters `steps`.
pub mod Files
pub mod Execute
pub mod Keeps
pub mod Dispatch
pub mod Directory
pub mod EchoCat
pub mod Listing
pub mod Dots
pub mod Made
mod Examples
use Prim.Native.String.{String}
use pios_private.Base.{
  ℕ, zero, suc, ◌+◌, ◌-◌, ◌*◌, Bool, true, false, not, ◌&&◌, ◌||◌, Option, none, some, List, [],
  ◌∷◌, ◌==◌, ltb, if◌then◌else◌, ◌>>=◌, find_from,
}
use pios_private.Mem.{Bytes, from, write, literal, onto}
use pios_private.Clib.{strlen, strcmp, strcpy}
use pios_private.Str.{char_arr_cpy, is_separator, space_char_array}
use pios_private.Fat.State.{Fs, File, Locals, attribute, cluster, file_size, root_rde}
use pios_private.Fat.Rows.{cut_rows}
use pios_private.Fat.Volume.{read_from_cluster, write_data_entries}
use pios_private.Fat.Names.{entry_path, root_directory_to_filename}
use pios_private.Fat.Open.{is_zero, fat_open}
use pios_private.Fat.Create.{fat_create}
use pios_private.Fat.Io.{fat_read, fat_write}
use pios_private.Parse.{num_args, arg_length, init_parse_arguments}

-- An argument of `esp_printf`: what a pointer points at, or a number.
pub data Arg : Type 0 where
  text : Bytes → Arg
  number : ℕ → Arg

pub record Print : Type 0 where
  pub format : String
  pub args : List Arg

pub record Shell : Type 0 where
  pub fs : Fs
  pub parse_arguments : Bytes
  pub working_directory : Bytes
  pub console : List Print

-- What the uninitialised local variables of a command hold: those of the file system's functions,
-- `tempFile`, and `buffer`.
pub record Scratch : Type 0 where
  pub locals : Locals
  pub temp_file : File
  pub buffer : Bytes

abbrev pub says : String → Print
says format = record { format = format; args = [] }

abbrev pub says_text : String → Bytes → Print
says_text format b = record { format = format; args = text b ∷ [] }

-- `esp_printf((void *) putc, …)`
abbrev pub print : Print → Shell → Shell
print p s = record s { console = p ∷ s.console }

-- `commandList`: its last two names are empty.
abbrev pub command_names : List String
command_names = "touch" ∷ "ls" ∷ "cd" ∷ "pwd" ∷ "cat" ∷ "mkdir" ∷ "help" ∷ "echo" ∷ "" ∷ "" ∷ []

-- `ROOT_DIRECTORY`
abbrev pub root_directory : Bytes
root_directory = literal "/"

abbrev pub is_directory : Bytes → Bool
is_directory rde = attribute rde == 0x10

abbrev pub is_file : Bytes → Bool
is_file rde = attribute rde == 0x20

-- `parseArguments[i]`
abbrev pub argument : Shell → ℕ → Bytes
argument s i = from s.parse_arguments (arg_length * i)

-- The lines that both loops of `ls` print of an entry with that name.
unfoldable pub list_entry : (rde name : Bytes) → List Print → List Print
list_entry rde name console =
    let kind =
      if is_directory rde
      then says "Directory: " ∷ console
      else if is_file rde
      then record { format = "File: Size - %d, "; args = number (file_size rde) ∷ [] } ∷ console
      else console in
    says_text "%s\n" name ∷ kind

-- A loop of `ls` over the `n` entries from `i` on: entries to skip and entries without a name are
-- passed over.
unfoldable pub list_entries :
    (skip : Bytes → Bool)
    → (name : Bytes → Option Bytes) → (rde : ℕ → Bytes) → (n i : ℕ) → List Print
    → Option (List Print)
unfolding list_entry
list_entries skip name rde zero i console = some console
list_entries skip name rde (suc n) i console =
    let pass = list_entries skip name rde n (suc i) console in
    let show =
      name (rde i) >>= λ b. list_entries skip name rde n (suc i) (list_entry (rde i) b console) in
    if skip (rde i) || rde i 0 == 0 then pass else show

unfoldable pub pwd : Shell → Shell
pwd s = print (says_text "Working Directory: %s\n" s.working_directory) s

module _ (fuel steps : ℕ) (x : Scratch) where
  -- The branch for the root directory: names are made as in `fatOpen`.
  unfoldable pub ls_root : Shell → Option Shell
  ls_root s = do
    console ←
        list_entries (λ rde. not (is_directory rde) && not (is_file rde))
          (entry_path fuel x.locals x.locals.path) (root_rde s.fs) 512 0 s.console
    some (record s { console = console })

  -- What is printed of a file, and of a directory that has been opened.
  unfoldable pub ls_opened : File → Shell → Option Shell
  ls_opened f s =
      let show_name = λ (rde : Bytes). root_directory_to_filename fuel x.locals rde x.locals.name in
      let entries = read_from_cluster s.fs x.locals.cluster_data f.start_cluster in
      let rows = cut_rows 2048 32 x.locals.entries entries in
      if is_file f.rde
      then (show_name f.rde >>= λ name. some (
          print
            (record {
              format = "File: Size - %d, %s\n";
              args = number (file_size f.rde) ∷ text name ∷ [];
            })
            s))
      else if is_directory f.rde
      then (list_entries (λ rde. attribute rde == 15) show_name (λ i. from rows (32 * i)) 64 0
            s.console
          >>= λ console. some (record s { console = console }))
      else some s

  unfoldable pub ls_path : (path : Bytes) → Shell → Option Shell
  ls_path path s = do
    (result, f, fs) ← fat_open fuel x.locals x.temp_file path s.fs
    let s' = record s { fs = fs }
    if result == 0 then ls_opened f s' else some (print (says "Path could not be found.\n") s')

  unfoldable pub ls : (path : Bytes) → Shell → Option Shell
  ls path s = do
    home ← strcmp fuel root_directory s.working_directory
    len ← strlen fuel path
    if is_zero home && len == 0
        then ls_root s
        else if len == 0
        then ls_path s.working_directory s
        else ls_path path s

  unfoldable pub change_directory : (path : Bytes) → Shell → Option (ℕ × Shell)
  change_directory path s = do
    wd ← strcpy fuel s.working_directory path
    some (
      0,
      record (print (says_text "Changing directory to %s.\n" path) s) { working_directory = wd },
    )

  unfoldable pub cd : (path : Bytes) → Shell → Option (ℕ × Shell)
  cd path s =
      let look = do
        (result, f, fs) ← fat_open fuel x.locals x.temp_file path s.fs
        let s' = record s { fs = fs }
        if not (result == 0)
            then some (1, print (says "Path could not be found.\n") s')
            else if not (is_directory f.rde)
            then some (2, print (says "Path entered is a file, not a directory.\n") s')
            else change_directory path s'
      in strlen fuel path >>= λ len. if len == 0 then change_directory root_directory s else look
