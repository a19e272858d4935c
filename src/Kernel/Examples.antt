-- ===== src/Kernel/Examples.antt =====
-- The main loop at concrete lines.
use pios_private.Base.{
  if◌then◌else◌, ◌==◌, ℕ, ◌≡◌, ◌≤◌, ◌<◌, ◌*◌, ap, refl, arith, true, false, some, List, [], ◌∷◌,
  ◌++◌, length, ◌>>=◌,
}
use pios_private.Mem.{Bytes, from, zeros, literal, codes}
use pios_private.Mem.Text.{IsText}
use pios_private.Fat.Sample.{stored, locals, greeting, stored-HasLayout, locals-IsClean}
use pios_private.Mem.{get16, get32}
use pios_private.Fat.State.{
  boot_signature, fs_type, num_fat_tables, num_root_dir_entries, num_sectors_per_fat,
  num_reserved_sectors, num_hidden_sectors, total_sectors,
}
use pios_private.Fat.Sample.{boot}
use pios_private.Fat.Volume.{SdCard, is_fat16}
use pios_private.Fat.Volume.Mount.{IsVolume}
use pios_private.Kernel.{start}
use pios_private.Kernel.Start.{start-IsMounted}
use pios_private.Fat.Volume.Card.{IsCard, IsMounted}
use pios_private.Mem.Copy.{splice}
use pios_private.Parse.Rows.{fields}
use pios_private.Command.{Shell, Scratch, print, says_text, argument, pwd}
use pios_private.Command.Execute.{run_command, has_redirection}
use pios_private.Command.Dispatch.{names-length}
use pios_private.Kernel.{Kernel, kernel_round}
use pios_private.Kernel.Steps.{IsReady, here, round, Reach-IsReady}
use pios_private.Kernel.Entered.{code_of, kernel_round-cd}
use pios_private.Kernel.Run.{ended, IsPrompted, kernel_round-run_command, kernel_round-not_found}

abbrev entered : List ℕ → Kernel
entered line = record {
  shell = record {
    fs = stored;
    parse_arguments = zeros;
    working_directory = literal "/";
    console = [];
  };
  buffer = zeros;
  input = line ++ 10 ∷ [];
}

abbrev scratch : Scratch
scratch = record { locals = locals; temp_file = greeting; buffer = zeros }

entered-IsReady : (line : List ℕ) → IsReady (entered line)
entered-IsReady line = record {
  layout = stored-HasLayout;
  arguments = λ j lt. refl;
  line = λ j lt. refl;
}

kernel_round-run_command_example :
    (s : Shell) × (b : Bytes) × IsPrompted (entered (codes "pwd \"a b\"")) (codes "pwd \"a b\"") s
    × (kernel_round 200 9 scratch (entered (codes "pwd \"a b\""))
        ≡ (run_command 200 9 scratch 3 (has_redirection s) s >>= λ r. some (ended b [] r)))
unfolding fields
kernel_round-run_command_example =
    kernel_round-run_command 200 9 scratch (entered (codes "pwd \"a b\"")) (codes "pwd \"a b\"") []
      (entered-IsReady (codes "pwd \"a b\"")) refl (ground arith) (ground arith) (omega arith)
      (omega arith) (omega arith) 3 b'p' (omega arith) refl

kernel_round-not_found_example :
    (s : Shell) × (b : Bytes) × IsPrompted (entered (codes "shutdown 0")) (codes "shutdown 0") s
    × IsText (argument s 0) (codes "shutdown")
    × (kernel_round 200 9 scratch (entered (codes "shutdown 0"))
        ≡ some (ended b [] (false, print (says_text "\nCommand %s not found.\n" (argument s 0)) s)))
unfolding fields
kernel_round-not_found_example =
    kernel_round-not_found 200 9 scratch (entered (codes "shutdown 0")) (codes "shutdown 0") []
      (entered-IsReady (codes "shutdown 0")) refl (ground arith) (ground arith) (omega arith)
      (omega arith) (omega arith) b's' (codes "hutdown")
      (λ i lt e. absurd (omega (arith, names-length i lt, ap length e))) refl

pwd_round :
    (s : Shell) × (b : Bytes) × (kernel_round 200 9 scratch (entered (codes "pwd"))
      ≡ some (ended b [] (true, pwd s)))
unfolding fields run_command
pwd_round =
    let (s, b, prompted, e) =
      kernel_round-run_command 200 9 scratch (entered (codes "pwd")) (codes "pwd") []
        (entered-IsReady (codes "pwd")) refl (ground arith) (ground arith) (omega arith)
        (omega arith) (omega arith) 3 b'p' (omega arith) refl in
    (s, b, e)

Reach-IsReady_example : IsReady (ended (pwd_round.1) [] (true, pwd (pwd_round.0)))
Reach-IsReady_example = Reach-IsReady stored-HasLayout here (round 200 9 scratch (pwd_round.2))

-- A card with the boot sector of a volume, a table and a root directory of no entries.
abbrev blocks : Bytes
blocks j =
    if j == 20
    then 128
    else if j == 54
    then b'F'
    else if j == 55
    then b'A'
    else if j == 56
    then b'T'
    else if j == 57
    then b'1'
    else if j == 58
    then b'6'
    else if j == 59
    then b' '
    else if j == 510
    then 0x55
    else if j == 511
    then 0xaa
    else if j == 2048
    then 0xf8
    else if j == 2049
    then 0xff
    else boot j

abbrev card : SdCard
card = record {
  readblock = λ lba buffer num. (512 * num, splice buffer 0 (512 * num) (from blocks (512 * lba)));
}

card-IsCard : IsCard card 32768 blocks
card-IsCard = record { reads = λ lba buffer num some_block inside. refl }

card-IsVolume : IsVolume blocks
unfolding boot_signature fs_type num_fat_tables num_root_dir_entries num_sectors_per_fat
    num_reserved_sectors num_hidden_sectors total_sectors get16 get32 is_fat16
card-IsVolume = record {
  signature = refl;
  fat16 = refl;
  entries = refl;
  some_table = omega arith;
  tables = omega arith;
  on_disk = omega arith;
  table_rows = omega arith;
  image = omega arith;
}

card-sectors : total_sectors blocks ≤ 32768
unfolding total_sectors get16
card-sectors = omega arith

-- All variables are zero.
abbrev before : Kernel
before = record {
  shell = record {
    fs = record stored { bs = zeros };
    parse_arguments = zeros;
    working_directory = zeros;
    console = [];
  };
  buffer = zeros;
  input = codes "ls";
}

start-IsMounted_example :
    (k' : Kernel) × (start 9 card before ≡ some k')
    × IsMounted blocks k'.shell.fs
    × IsText k'.shell.working_directory (codes "/")
    × ((j : ℕ) → j < 5000 → k'.shell.parse_arguments j ≡ 0)
start-IsMounted_example =
    start-IsMounted 9 card 32768 blocks before (omega arith) card-IsCard card-IsVolume card-sectors
      refl

kernel_round-cd_example :
    (k' : Kernel) × (wd : Bytes) × (kernel_round 200 9 scratch (entered (codes "cd docs"))
      ≡ some k')
    × IsReady k'
    × (k'.input ≡ [])
    × IsText wd (codes "docs")
    × (k'.shell.working_directory ≡ (
        if code_of (entered (codes "cd docs")).shell (codes "ocs") == 0 then wd else literal "/"))
unfolding fields
kernel_round-cd_example =
    kernel_round-cd 200 9 scratch (entered (codes "cd docs")) (codes "cd docs") []
      (entered-IsReady (codes "cd docs")) refl (ground arith) (ground arith) (omega arith)
      (omega arith) (omega arith) locals-IsClean b'd' b'c' (codes "ocs") (omega arith) refl refl
      (omega arith) (ground arith)
