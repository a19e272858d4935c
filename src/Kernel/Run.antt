-- ===== src/Kernel/Run.antt =====
-- A round of the main loop from the line that is entered to the command that it runs.
use pios_private.Base.{
  ℕ, suc, ◌+◌, ◌*◌, ◌≤◌, ◌<◌, ◌≡◌, refl, arith, Bool, false, some, List, [], ◌∷◌, ◌++◌, length,
  get_or, ltb, get_or-above, if◌then◌else◌, ◌>>=◌, ap, ◌∙◌, ◌≢◌, Option-cases, inl, inr,
}
use native.Mathlib.Decide.{dec_lt}
use mathlib.Core.Path.{subst}
use native.Mathlib.Nat.{zero-add, add-zero}
use pios_private.Mem.{Bytes, codes}
use pios_private.Mem.Text.{IsText, TextAt}
use pios_private.Str.{null_char_array}
use pios_private.Links.Linked.{Apart}
use pios_private.Fat.Names.Entry.{rest}
use pios_private.Parse.{init_parse_arguments, input_to_buffer, buffer_to_args}
use pios_private.Parse.Line.{input_to_buffer-line}
use pios_private.Parse.Rows.Text.{line_fields, line_fields-AreShort, buffer_to_args-line_fields}
use pios_private.Command.{Shell, Scratch, says_text, print, command_names, argument}
use pios_private.Command.Execute.{execute_command, run_command, find_command, has_redirection}
use pios_private.Command.Dispatch.{find_command-get_or, find_command-none}
use pios_private.Kernel.{Kernel, kernel_round}
use pios_private.Kernel.Steps.{IsReady}

-- What is read into a cleared buffer is the line as a string.
line-TextAt :
    (xs : List ℕ) (r : Bytes) (p : ℕ)
    → Apart 0 xs
    → ((j : ℕ) → j < suc (length xs) → r (p + j) ≡ get_or xs j 0)
    → TextAt r p xs
line-TextAt [] r p h at = ground (arith, at 0, add-zero p)
line-TextAt (x ∷ xs) r p h at = (
  rw (← add-zero p) (at 0 (omega arith)),
  h.0,
  line-TextAt xs r (suc p) h.1
      (λ j lt. let e : suc p + j ≡ p + suc j = omega arith in rw e (at (suc j) (omega arith))),
)

read_lem :
    (xs : List ℕ) (buffer r : Bytes) {j : ℕ}
    → r j ≡ (if ltb j (length xs) then get_or xs j 0 else buffer j)
    → buffer j ≡ 0
    → r j ≡ get_or xs j 0
read_lem xs buffer r {j} at clear = elim (dec_lt j (length xs)) [
  | yes inside ↦ ground arith
  | no behind ↦ rw (get_or-above xs j 0 (omega arith)) (ground arith)
]

-- The kernel once a command has run.
unfoldable pub ended : (line : Bytes) → (input : List ℕ) → Bool × Shell → Kernel
ended line input (found, s) = record {
  shell = record s { parse_arguments = init_parse_arguments s.parse_arguments };
  buffer = null_char_array line 100;
  input = input;
}

-- What the shell is when the command that `line` names gets it.
pub record IsPrompted (k : Kernel) (line : List ℕ) (s : Shell) : Type 0 where
  pub same : s ≡ record (print (says_text "%s> " k.shell.working_directory) k.shell) {
    parse_arguments = s.parse_arguments;
  }
  pub arguments :
      (j : ℕ)
      → j < length (line_fields line)
      → IsText (argument s j) (get_or (line_fields line) j [])
  pub others : (q : ℕ) → 100 * length (line_fields line) ≤ q → q < 5000 → s.parse_arguments q ≡ 0

prompted_shell : Kernel → Bytes → Shell
prompted_shell k a = record (print (says_text "%s> " k.shell.working_directory) k.shell) {
  parse_arguments = a;
}

round_lem :
    (fuel steps : ℕ) (x : Scratch) (k : Kernel) (input : List ℕ) (b a : Bytes) (i : ℕ)
    → input_to_buffer k.input k.buffer 100 ≡ some (b, input)
    → buffer_to_args fuel k.shell.parse_arguments b ≡ some a
    → let s = prompted_shell k a in
      find_command fuel (argument s 0) command_names 0 ≡ some i
      → kernel_round fuel steps x k
        ≡ (run_command fuel steps x i (has_redirection s) s >>= λ r. some (ended b input r))
unfolding kernel_round ended execute_command prompted_shell
round_lem fuel steps x k input b a i reads splits found =
    let s = prompted_shell k a in
    elim (Option-cases (run_command fuel steps x i (has_redirection s) s)) [
      | inl stuck ↦ rw (reads, splits, found, stuck) refl
      | inr (r, runs) ↦ rw (reads, splits, found, runs) refl
    ]

not_found_lem :
    (fuel steps : ℕ) (x : Scratch) (i : ℕ) (redirection : Bool) (s : Shell) (b : Bytes)
    (input : List ℕ)
    → 8 ≤ i
    → (run_command fuel steps x i redirection s >>= λ r. some (ended b input r))
      ≡ some (ended b input (false, print (says_text "\nCommand %s not found.\n" (argument s 0)) s))
unfolding run_command
not_found_lem fuel steps x i redirection s b input behind = ground arith

module _ (fuel steps : ℕ) (x : Scratch) (k : Kernel) (line input : List ℕ) (ready : IsReady k)
    (entered : k.input ≡ line ++ 10 ∷ input) (no_newline : Apart 10 line) (no_nul : Apart 0 line)
    (fits : length line < 100) (enough : 100 ≤ fuel) (few : length (line_fields line) ≤ 50) where
  round-line :
      (s : Shell) × (b : Bytes) × IsPrompted k line s
      × ((i : ℕ)
          → find_command fuel (argument s 0) command_names 0 ≡ some i
          → kernel_round fuel steps x k
            ≡ (run_command fuel steps x i (has_redirection s) s >>= λ r. some (ended b input r)))
  unfolding prompted_shell
  round-line =
      let (b, reads, at) = input_to_buffer-line line input k.buffer 100 no_newline fits in
      let t = line-TextAt line b 0 no_nul (λ j lt.
        ap b (zero-add j) ∙ read_lem line k.buffer b (at j) (ready.line j (omega arith))) in
      let (a, splits, rows, behind) =
        buffer_to_args-line_fields fuel line k.shell.parse_arguments b t (omega arith)
          ready.arguments few (line_fields-AreShort line fits) in
      let prompted : IsPrompted k line (prompted_shell k a) = record {
        same = refl;
        arguments = rows;
        others = λ q lo hi. behind q lo ∙ ready.arguments q hi;
      } in
      (
        prompted_shell k a,
        b,
        prompted,
        λ i. round_lem fuel steps x k input b a i (rw entered reads) splits,
      )

  -- Between two rounds, with fuel for a line: a line without NUL of less than 100 characters and at
  -- most 50 fields, whose first field is the name of command `i`, makes the next round run that command
  -- once, on the shell that has printed the prompt and has the fields as its arguments, and clear the
  -- arguments and the line behind it. The round returns whenever the command does. The first characters
  -- of the field and of the name may differ.
  pub kernel_round-run_command :
      (i c : ℕ)
      → i < 8
      → get_or (line_fields line) 0 [] ≡ c ∷ rest (codes (get_or command_names i ""))
      → (s : Shell) × (b : Bytes) × IsPrompted k line s
        × (kernel_round fuel steps x k
            ≡ (run_command fuel steps x i (has_redirection s) s >>= λ r. some (ended b input r)))
  kernel_round-run_command i c lt word =
      let (s, b, prompted, run) = round-line in
      let first : IsText (argument s 0) (c ∷ rest (codes (get_or command_names i ""))) =
        subst (λ ys. IsText (argument s 0) ys) word (prompted.arguments 0 (omega arith)) in
      (s, b, prompted, run i (find_command-get_or fuel i c (argument s 0) lt (omega arith) first))

  -- Between two rounds, with fuel for a line: a line without NUL of less than 100 characters and at
  -- most 50 fields, whose first field agrees with no command's name from the second character on, makes the next round
  -- return: it prints the prompt and that the command was not found, and changes nothing else but
  -- the arguments and the line, which it clears.
  pub kernel_round-not_found :
      (c : ℕ) (cs : List ℕ)
      → ((i : ℕ) → i < 8 → cs ≢ rest (codes (get_or command_names i "")))
      → get_or (line_fields line) 0 [] ≡ c ∷ cs
      → (s : Shell) × (b : Bytes) × IsPrompted k line s
        × IsText (argument s 0) (c ∷ cs)
        × (kernel_round fuel steps x k
            ≡ some (
                ended b input
                  (false, print (says_text "\nCommand %s not found.\n" (argument s 0)) s)))
  kernel_round-not_found c cs none_agrees word =
      let (s, b, prompted, run) = round-line in
      let first : IsText (argument s 0) (c ∷ cs) =
        subst (λ ys. IsText (argument s 0) ys) word (prompted.arguments 0 (omega arith)) in
      let short : length cs < fuel =
        omega (arith, ap length word, (line_fields-AreShort line fits).0) in
      let (i, behind, found) = find_command-none fuel c cs (argument s 0) none_agrees short first in
      (
        s,
        b,
        prompted,
        first,
        run i found ∙ not_found_lem fuel steps x i (has_redirection s) s b input behind,
      )
