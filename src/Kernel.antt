-- ===== src/Kernel.antt =====
-- The main loop of src/kernel_main.c, and `initEnvironment` of src/environment.c.
pub mod Steps
pub mod Run
pub mod Start
pub mod Entered
pub mod EchoCat
pub mod NewFile
mod Examples
mod StoredExample
mod NewFileExample
use pios_private.Base.{ℕ, ◌+◌, ◌-◌, Option, none, some, List, [], ◌∷◌, ◌>>=◌, for_to}
use pios_private.Mem.{Bytes, write, zeros}
use pios_private.Clib.{strlen}
use pios_private.Str.{char_arr_cpy, null_char_array}
use pios_private.Fat.State.{Fs}
use pios_private.Fat.Volume.{SdCard, init_fat, init_fat_structs}
use pios_private.Parse.{init_parse_arguments, input_to_buffer, buffer_to_args}
use pios_private.Command.{Shell, Scratch, says_text, print, root_directory}
use pios_private.Command.Execute.{execute_command}

-- The file-scope variables, the local array `buffer`, and what the serial line will still bring.
pub record Kernel : Type 0 where
  pub shell : Shell
  pub buffer : Bytes
  pub input : List ℕ

unfoldable pub init_environment : ℕ → Bytes → Option Bytes
init_environment fuel working_directory = do
  len ← strlen fuel root_directory
  some (char_arr_cpy working_directory root_directory len).1

-- `for (; begin < end; begin++) *begin = 0;`
unfoldable pub clear_bss : (memory : Bytes) → (bss_start bss_end : ℕ) → Bytes
clear_bss memory bss_start bss_end =
    for_to (bss_end - bss_start) bss_start (λ p m. write m p 0) memory

-- Up to the loop; the results of `initFat` and `initFatStructs` are not looked at.
unfoldable pub start : ℕ → SdCard → Kernel → Option Kernel
unfolding init_environment
start fuel sd k = do
  let fs = (init_fat_structs (init_fat sd k.shell.fs).1).1
  working_directory ← init_environment fuel k.shell.working_directory
  some (record k {
    shell = record k.shell {
      fs = fs;
      working_directory = working_directory;
      parse_arguments = init_parse_arguments k.shell.parse_arguments;
    };
  })

-- A round of the loop. `none` also says that it still waits for the end of the line.
unfoldable pub kernel_round : (fuel steps : ℕ) → Scratch → Kernel → Option Kernel
kernel_round fuel steps x k = do
  let s = print (says_text "%s> " k.shell.working_directory) k.shell
  (line, input) ← input_to_buffer k.input k.buffer 100
  args ← buffer_to_args fuel s.parse_arguments line
  (result, s') ← execute_command fuel steps x (record s { parse_arguments = args })
  some (record { shell = s'; buffer = null_char_array line 100; input = input })
