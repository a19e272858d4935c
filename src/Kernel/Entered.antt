-- ===== src/Kernel/Entered.antt =====
-- A line with `cd` that is entered at the prompt, to the next prompt.
use pios_private.Base.{
  ℕ, ◌≤◌, ◌<◌, ◌≡◌, refl, arith, true, Option, some, none, List, [], ◌∷◌, ◌++◌, length, get_or, map,
  ◌==◌, if◌then◌else◌, find_from, ap, ◌∙◌,
}
use mathlib.Core.Path.{subst}
use pios_private.Mem.{Bytes, codes}
use pios_private.Mem.Text.{IsText}
use pios_private.Clib.{toupper}
use pios_private.Links.Linked.{Apart}
use pios_private.Fat.State.{root_rde, attribute}
use pios_private.Fat.Volume.Load.{loaded}
use pios_private.Fat.Names.Path.{NoSlash}
use pios_private.Fat.Open.Find.{stands}
use pios_private.Fat.Open.Root.{IsClean}
use pios_private.Parse.Rows.Text.{line_fields}
use pios_private.Command.{Shell, Scratch, argument}
use pios_private.Command.Execute.{run_command}
use pios_private.Command.Directory.{cd_root_code, cd-root}
use pios_private.Kernel.{Kernel, kernel_round}
use pios_private.Kernel.Steps.{round, IsReady, Step-IsReady}
use pios_private.Kernel.Run.{ended, kernel_round-run_command}

-- The result of `cd` in the root directory of a shell's volume, for what follows the first character.
unfoldable pub code_of : Shell → List ℕ → ℕ
code_of s cs = cd_root_code s (find_from 512 0 (stands (map toupper cs) (root_rde (loaded s.fs))))

code_same :
    (s t : Shell) (found : Option ℕ) → s.fs ≡ t.fs → cd_root_code s found ≡ cd_root_code t found
unfolding cd_root_code
code_same s t none e = refl
code_same s t (some i) e = ap (λ fs. if attribute (root_rde (loaded fs) i) == 0x10 then 0 else 2) e

code_of-fs : (s t : Shell) (cs : List ℕ) → s.fs ≡ t.fs → code_of s cs ≡ code_of t cs
unfolding code_of
code_of-fs s t cs e =
    code_same s t (find_from 512 0 (stands (map toupper cs) (root_rde (loaded s.fs)))) e
    ∙ ap (λ fs. cd_root_code t (find_from 512 0 (stands (map toupper cs) (root_rde (loaded fs))))) e

module _ (fuel steps : ℕ) (x : Scratch) (k : Kernel) (line input : List ℕ) (ready : IsReady k)
    (entered : k.input ≡ line ++ 10 ∷ input) (no_newline : Apart 10 line) (no_nul : Apart 0 line)
    (fits : length line < 100) (enough : 100 ≤ fuel) (few : length (line_fields line) ≤ 50)
    (clean : IsClean x.locals) where
  -- Between two rounds, a line without NUL of less than 100 characters and at most 50 fields, the first
  -- of which is `cd` up to its first character and the second a part of at most 10 characters without
  -- a slash: with fuel for the line, and with the NULs in the scratch arrays, the next round returns
  -- and leaves the kernel ready for the next line. The search of the root directory stops at the first
  -- entry at which the capitals of the part agree, from the second character on, with the name of the
  -- last entry up to there that has one. If it stops at a directory, the working directory is then
  -- the part as it was entered, and otherwise it is what it was.
  pub kernel_round-cd :
      (c d : ℕ) (cs : List ℕ)
      → 1 < length (line_fields line)
      → get_or (line_fields line) 0 [] ≡ d ∷ codes "d"
      → get_or (line_fields line) 1 [] ≡ c ∷ cs
      → length cs < 10
      → NoSlash (c ∷ cs)
      → (k' : Kernel) × (wd : Bytes) × (kernel_round fuel steps x k ≡ some k')
        × IsReady k'
        × (k'.input ≡ input)
        × IsText wd (c ∷ cs)
        × (k'.shell.working_directory
            ≡ (if code_of k.shell cs == 0 then wd else k.shell.working_directory))
  unfolding run_command ended code_of
  kernel_round-cd c d cs two word name short no_slash =
      let (s, b, prompted, run) =
        kernel_round-run_command fuel steps x k line input ready entered no_newline no_nul fits
          enough few 2 d (omega arith) word in
      let path : IsText (argument s 1) (c ∷ cs) =
        subst (λ ys. IsText (argument s 1) ys) name (prompted.arguments 1 two) in
      let same : s.fs ≡ k.shell.fs = ap (λ (t : Shell). t.fs) prompted.same in
      let home : s.working_directory ≡ k.shell.working_directory =
        ap (λ (t : Shell). t.working_directory) prompted.same in
      let (s', wd, e, text, moved) =
        cd-root fuel steps x (argument s 1) c cs s path no_slash short (omega arith) clean
          (rw same ready.layout) in
      let returns : kernel_round fuel steps x k ≡ some (ended b input (true, s')) =
        run ∙ rw e refl in
      (
        ended b input (true, s'),
        wd,
        returns,
        Step-IsReady ready.layout (round fuel steps x returns),
        refl,
        text,
        moved
            ∙ ap (λ (n : ℕ). if n == 0 then wd else s.working_directory)
                (code_of-fs s k.shell cs same)
            ∙ ap (λ (h : Bytes). if code_of k.shell cs == 0 then wd else h) home,
      )
