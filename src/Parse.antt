-- ===== src/Parse.antt =====
-- The command line parser of src/parse.c. `parseArguments` is one memory with rows of 100 bytes.
pub mod Line
pub mod Clear
pub mod Rows
mod Examples
use pios_private.Base.{
  ℕ, zero, suc, ◌+◌, ◌-◌, ◌*◌, Bool, ◌&&◌, Option, none, some, List, [], ◌∷◌, ◌==◌, ltb,
  if◌then◌else◌, ◌>>=◌, for_to,
}
use pios_private.Mem.{Bytes, from, write}
use pios_private.Clib.{strlen}
use pios_private.Str.{is_separator}

abbrev pub num_args : ℕ
num_args = 50

abbrev pub arg_length : ℕ
arg_length = 100

unfoldable pub init_parse_arguments : Bytes → Bytes
init_parse_arguments parse_arguments =
    for_to num_args 0 (λ i a. for_to arg_length 0 (λ j a. write a (arg_length * i + j) 0) a)
      parse_arguments

unfoldable pub number_arguments : ℕ → Bytes → Option ℕ
unfolding is_separator
number_arguments fuel buffer = do
  buffer_length ← strlen fuel buffer
  some (
      for_to buffer_length 0 (λ i count. if is_separator (buffer i) b' ' then suc count else count)
        0)

-- `count` and `maxLength`
pub record Longest : Type 0 where
  pub count : ℕ
  pub max_length : ℕ

unfoldable pub longer : Longest → ℕ
longer s = if ltb s.max_length s.count then s.count else s.max_length

unfoldable pub longest_round : (buffer : Bytes) (buffer_length i : ℕ) → Longest → Longest
unfolding is_separator longer
longest_round buffer buffer_length i s =
    if is_separator (buffer i) b' '
    then record { count = 0; max_length = longer s }
    else let s' = record s { count = suc s.count } in
      if i == buffer_length - 1 then record s' { max_length = longer s' } else s'

unfoldable pub longest_buffer_length : ℕ → Bytes → Option ℕ
unfolding longest_round
longest_buffer_length fuel buffer = do
  buffer_length ← strlen fuel buffer
  let start : Longest = record { count = 0; max_length = 0 }
  let s = for_to buffer_length 0 (longest_round buffer buffer_length) start
  some s.max_length

-- `parseArguments` and the loop's variables
pub record Args : Type 0 where
  pub parse_arguments : Bytes
  pub count : ℕ
  pub index : ℕ
  pub quotes : ℕ

unfoldable pub args_round : (buffer : Bytes) (i : ℕ) → Args → Args
unfolding is_separator
args_round buffer i s =
    if is_separator (buffer i) b' ' && s.quotes == 0
    then record s { count = suc s.count; index = 0 }
    else if is_separator (buffer i) b'"' && s.quotes == 0
    then record s { quotes = 1 }
    else if is_separator (buffer i) b'"' && s.quotes == 1
    then record s { quotes = 0 }
    else record s {
      parse_arguments = write s.parse_arguments (arg_length * s.count + s.index) (buffer i);
      index = suc s.index;
    }

unfoldable pub buffer_to_args : ℕ → (parse_arguments buffer : Bytes) → Option Bytes
unfolding args_round
buffer_to_args fuel parse_arguments buffer = do
  buffer_length ← strlen fuel buffer
  let start : Args = record { parse_arguments = parse_arguments; count = 0; index = 0; quotes = 0 }
  let s = for_to buffer_length 0 (args_round buffer) start
  some s.parse_arguments

-- `input` is what `getc` returns one after the other, and the result has what is left of it; `none`
-- says that the function still waits for a character. `length` is below 2 ^ 15, so that the
-- `short` index does not wrap.
unfoldable pub input_loop :
    (input : List ℕ) → (buffer : Bytes) (length index : ℕ) → Option (Bytes × List ℕ)
input_loop [] buffer length index = if index == length then some (buffer, []) else none
input_loop (character ∷ input) buffer length index =
    let rest = input_loop input (write buffer index character) length (suc index) in
    if index == length
    then some (buffer, character ∷ input)
    else if character == 10
    then some (buffer, input)
    else rest

unfoldable pub input_to_buffer :
    (input : List ℕ) → (buffer : Bytes) (length : ℕ) → Option (Bytes × List ℕ)
unfolding input_loop
input_to_buffer input buffer length = input_loop input buffer length 0
