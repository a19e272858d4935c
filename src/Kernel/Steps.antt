-- ===== src/Kernel/Steps.antt =====
-- The main loop as a step relation: what holds between two rounds, whatever is entered and whatever
-- the uninitialised variables of the commands hold.
use pios_private.Base.{ℕ, ◌<◌, ◌≡◌, arith, some, Option-cases, inl, inr}
use pios_private.Str.{null_char_array}
use pios_private.Fat.Volume.Keeps.{HasLayout-Keeps}
use pios_private.Fat.Volume.Layout.{HasLayout}
use pios_private.Parse.{input_to_buffer, buffer_to_args}
use pios_private.Parse.Clear.{init_parse_arguments-zero, null_char_array-zero}
use pios_private.Command.{Scratch, says_text, print}
use pios_private.Command.Execute.{execute_command}
use pios_private.Command.Keeps.{execute_command-Keeps, execute_command-cleared}
use pios_private.Kernel.{Kernel, kernel_round}

-- A round with enough fuel, and with any values in the uninitialised variables.
pub data Step (k k' : Kernel) : Type 0 where
  round : (fuel steps : ℕ) (x : Scratch) → kernel_round fuel steps x k ≡ some k' → Step k k'

pub data Reach (k : Kernel) : Kernel → Type 0 where
  here : Reach k k
  next : {k' k'' : Kernel} → Reach k k' → Step k' k'' → Reach k k''

-- Between two rounds.
pub record IsReady (k : Kernel) : Type 0 where
  pub layout : HasLayout k.shell.fs
  pub arguments : (j : ℕ) → j < 5000 → k.shell.parse_arguments j ≡ 0
  pub line : (j : ℕ) → j < 100 → k.buffer j ≡ 0

-- A round leaves the arguments and the line cleared, and the volume with its geometry, whatever
-- command it has run.
pub Step-IsReady : {k k' : Kernel} → HasLayout k.shell.fs → Step k k' → IsReady k'
unfolding kernel_round
Step-IsReady {k} {k'} h (round fuel steps x e) =
    let s = print (says_text "%s> " k.shell.working_directory) k.shell in
    elim (Option-cases (input_to_buffer k.input k.buffer 100)) [
      | inl stuck ↦ absurd (ground arith)
      | inr ((line, input), reads) ↦
          elim (Option-cases (buffer_to_args fuel s.parse_arguments line)) [
            | inl stuck ↦ absurd (ground arith)
            | inr (args, splits) ↦
                let s₁ = record s { parse_arguments = args } in
                elim (Option-cases (execute_command fuel steps x s₁)) [
                  | inl stuck ↦ absurd (ground arith)
                  | inr ((r, t), runs) ↦
                      let keeps = execute_command-Keeps fuel steps x s₁ r t runs in
                      let (a, cleared) = execute_command-cleared fuel steps x s₁ r t runs in
                      let e' : k'
                          ≡ record { shell = t; buffer = null_char_array line 100; input = input } =
                        ground arith in
                      rw e' (record {
                        layout = HasLayout-Keeps k.shell.fs t.fs keeps h;
                        arguments = λ j lt. rw cleared (init_parse_arguments-zero a j lt);
                        line = λ j lt. null_char_array-zero line 100 j lt;
                      })
                ]
          ]
    ]

Reach-layout : {k k' : Kernel} → HasLayout k.shell.fs → Reach k k' → HasLayout k'.shell.fs
Reach-layout h here = h
Reach-layout h (next r st) = (Step-IsReady (Reach-layout h r) st).layout

-- From a volume with a layout on, after any number of rounds and one more, the volume has a layout,
-- all 50 arguments are cleared, and so is the line.
pub Reach-IsReady :
    {k k' k'' : Kernel} → HasLayout k.shell.fs → Reach k k' → Step k' k'' → IsReady k''
Reach-IsReady h r st = Step-IsReady (Reach-layout h r) st
