-- ===== src/Command/Execute.antt =====
-- `help`, `echo` and `executeCommand` of src/command.c.
use Prim.Native.String.{String}
use pios_private.Base.{
  ℕ, suc, ◌+◌, Bool, true, false, not, Option, none, some, List, [], ◌∷◌, ◌==◌, if◌then◌else◌,
  ◌>>=◌, find_from,
}
use pios_private.Mem.{Bytes, literal}
use pios_private.Clib.{strlen, strcmp}
use pios_private.Str.{char_arr_cpy, is_separator}
use pios_private.Fat.Open.{is_zero, fat_open}
use pios_private.Fat.Io.{fat_write}
use pios_private.Parse.{num_args, init_parse_arguments}
use pios_private.Command.{
  Shell, Scratch, Print, says, says_text, print, command_names, is_file, argument, ls, cd, pwd,
}
use pios_private.Command.Files.{touch, cat, mkdir}

-- The names that are empty are passed over.
unfoldable pub help_names : ℕ → List String → List Print → Option (List Print)
help_names fuel [] console = some console
help_names fuel (name ∷ names) console =
    let pass = help_names fuel names console in
    let show = help_names fuel names (says_text "\t%s\n" (literal name) ∷ console) in
    strlen fuel (literal name) >>= λ len. if len == 0 then pass else show

unfoldable pub help : ℕ → Shell → Option Shell
help fuel s = do
  let heading = says "---------------\nHelp Menu\n---------------\nCommands:\n"
  console ← help_names fuel command_names (heading ∷ s.console)
  some (record s { console = console })

-- The result, what `redirection` then holds, and the shell.
unfoldable pub echo : ℕ → (buffer redirection : Bytes) → Shell → Option (ℕ × Bytes × Shell)
echo fuel buffer redirection s = do
  len ← strlen fuel buffer
  let shown = print (says_text "%s\n" buffer) s
  if len == 0
      then some (0, redirection, print (says "\n") s)
      else if redirection 0 == 0
      then some (1, redirection, shown)
      else some (0, (char_arr_cpy redirection buffer (len + 1)).1, shown)

-- The loop over `commandList` from index `i` on, which ends at the first name that `strcmp` takes
-- for the word, or at the end of the list.
unfoldable pub find_command : ℕ → (word : Bytes) → List String → (i : ℕ) → Option ℕ
find_command fuel word [] i = some i
find_command fuel word (name ∷ names) i =
    let rest = find_command fuel word names (suc i) in
    strcmp fuel word (literal name) >>= λ c. if is_zero c then some i else rest

-- One of the first 50 arguments begins with '>'.
unfoldable pub has_redirection : Shell → Bool
unfolding is_separator
has_redirection s = elim (find_from num_args 0 (λ i. is_separator (argument s i 0) b'>')) [
  | none ↦ false
  | some i ↦ true
]

module _ (fuel steps : ℕ) (x : Scratch) where
  -- The case of `echo` with a redirection: the third argument is the path.
  unfoldable pub echo_to : Shell → Option Shell
  echo_to s = do
    len ← strlen fuel (argument s 1)
    (code, buffer, s₁) ← echo fuel (argument s 1) x.buffer s
    (result, f, fs) ← fat_open fuel x.locals x.temp_file (argument s₁ 3) s₁.fs
    let s₂ = record s₁ { fs = fs }
    let store = do
      (result', f', fs') ← fat_write fuel steps x.locals f buffer fs
      some (record (print (says_text "Writing to path: %s.\n" (argument s₂ 3)) s₂) { fs = fs' })
    if not (result == 0)
        then some (print (says_text "Path: %s not found.\n" (argument s₂ 3)) s₂)
        else if not (is_file f.rde)
        then some (print (says_text "Path: %s is a directory.\n" (argument s₂ 3)) s₂)
        else store

  -- The switch; `false` says that the command was not found.
  unfoldable pub run_command : (i : ℕ) → (redirection : Bool) → Shell → Option (Bool × Shell)
  run_command i redirection s =
      let done : Option Shell → Option (Bool × Shell) = λ r. r >>= λ s'. some (true, s') in
      if i == 0
      then (touch fuel steps x (argument s 1) s >>= λ r. some (true, r.1))
      else if i == 1
      then done (ls fuel steps x (argument s 1) s)
      else if i == 2
      then (cd fuel steps x (argument s 1) s >>= λ r. some (true, r.1))
      else if i == 3
      then some (true, pwd s)
      else if i == 4
      then (cat fuel steps x (argument s 1) s >>= λ r. some (true, r.1))
      else if i == 5
      then (mkdir fuel steps x (argument s 1) s >>= λ r. some (true, r.1))
      else if i == 6
      then done (help fuel s)
      else if i == 7
      then (if redirection
          then done (echo_to s)
          else (echo fuel (argument s 1) (literal "") s >>= λ r. some (true, r.2)))
      else some (false, print (says_text "\nCommand %s not found.\n" (argument s 0)) s)

  unfoldable pub execute_command : Shell → Option (ℕ × Shell)
  execute_command s = do
    i ← find_command fuel (argument s 0) command_names 0
    (found, s') ← run_command i (has_redirection s) s
    let cleared = record s' { parse_arguments = init_parse_arguments s'.parse_arguments }
    some (if found then 0 else 1, cleared)
