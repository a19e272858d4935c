-- ===== src/Kernel/EchoCat.antt =====
-- Two lines that are entered one after the other: `echo TEXT > PATH`, and then `cat PATH`.
use pios_private.Base.{
  ℕ, suc, ◌≤◌, ◌<◌, ◌≡◌, ◌≢◌, refl, arith, true, some, List, [], ◌∷◌, ◌++◌, map, length, get_or, ap,
  ◌∙◌,
}
use mathlib.Core.Path.{subst}
use pios_private.Mem.{Bytes, codes}
use pios_private.Mem.Text.{IsText}
use pios_private.Clib.{toupper}
use pios_private.Links.Linked.{Apart}
use pios_private.Fat.State.{cluster}
use pios_private.Fat.Names.Path.{NoSlash}
use pios_private.Fat.Open.Root.{IsClean}
use pios_private.Fat.Io.Length.{IsCleanIo}
use pios_private.Fat.Io.Stored.{IsStored}
use pios_private.Fat.Io.RootFile.{IsRootFile}
use pios_private.Parse.Rows.Text.{line_fields, field-length}
use pios_private.Command.{Shell, Scratch, says_text, print, argument}
use pios_private.Command.Execute.{run_command}
use pios_private.Command.EchoCat.{has_redirection-IsText, echo_to-IsStored, cat-IsStored}
use pios_private.Kernel.{Kernel, kernel_round}
use pios_private.Kernel.Steps.{round, IsReady, Step-IsReady}
use pios_private.Kernel.Run.{ended, kernel_round-run_command}

-- A line that can be entered: no NUL and no newline, and room for it and its fields.
pub record IsLine (line : List ℕ) : Type 0 where
  pub no_newline : Apart 10 line
  pub no_nul : Apart 0 line
  pub fits : length line < 100
  pub few : length (line_fields line) ≤ 50

module _ (fuel steps : ℕ) (enough : 100 ≤ fuel) (c : ℕ) (cs : List ℕ) (short : length cs < 10)
    (no_slash : NoSlash (c ∷ cs)) where
  -- The round with `echo`.
  round-echo :
      (x : Scratch) (k : Kernel) (line input : List ℕ) (i d y : ℕ) (xs gs : List ℕ)
      → IsReady k
      → IsLine line
      → k.input ≡ line ++ 10 ∷ input
      → IsClean x.locals
      → IsCleanIo x.locals
      → x.buffer 0 ≢ 0
      → 3 < length (line_fields line)
      → get_or (line_fields line) 0 [] ≡ d ∷ codes "cho"
      → get_or (line_fields line) 1 [] ≡ y ∷ xs
      → get_or (line_fields line) 2 [] ≡ b'>' ∷ gs
      → get_or (line_fields line) 3 [] ≡ c ∷ cs
      → IsRootFile k.shell.fs (map toupper cs) i
      → cluster k.shell.fs.root_entry ≡ 0
      → (k' : Kernel) × (kernel_round fuel (suc steps) x k ≡ some k')
        × IsReady k'
        × (k'.input ≡ input)
        × IsStored k'.shell.fs (map toupper cs) i (y ∷ xs)
  unfolding run_command ended
  round-echo x k line input i d y xs gs ready h entered clean clean_io ne four word said sign name
        file root =
      let (s, b, prompted, run) =
        kernel_round-run_command fuel (suc steps) x k line input ready entered h.no_newline h.no_nul
          h.fits enough h.few 7 d (omega arith) word in
      let row = λ (j : ℕ) (ys : List ℕ) (lt : j < 4) (e : get_or (line_fields line) j [] ≡ ys).
        subst (λ zs. IsText (argument s j) zs) e (prompted.arguments j (omega arith)) in
      let same : s.fs ≡ k.shell.fs = ap (λ (t : Shell). t.fs) prompted.same in
      let brief : length (y ∷ xs) < 100 =
        subst (λ zs. length zs < 100) said (field-length line 1 h.fits) in
      let (s', e, stored) =
        echo_to-IsStored fuel steps c cs (omega arith) short no_slash x s i y xs clean clean_io ne
          (row 1 (y ∷ xs) (omega arith) said) (omega (arith, brief)) (omega (arith, brief))
          (row 3 (c ∷ cs) (omega arith) name) (rw same file) (rw same root) in
      let returns : kernel_round fuel (suc steps) x k ≡ some (ended b input (true, s')) =
        run
        ∙ rw (has_redirection-IsText s 2 gs (omega arith) (row 2 (b'>' ∷ gs) (omega arith) sign), e)
            refl in
      (
        ended b input (true, s'),
        returns,
        Step-IsReady ready.layout (round fuel (suc steps) x returns),
        refl,
        stored,
      )

  -- The round with `cat`.
  round-cat :
      (x : Scratch) (k : Kernel) (line input : List ℕ) (i d : ℕ) (xs : List ℕ)
      → IsReady k
      → IsLine line
      → k.input ≡ line ++ 10 ∷ input
      → IsClean x.locals
      → 1 < length (line_fields line)
      → get_or (line_fields line) 0 [] ≡ d ∷ codes "at"
      → get_or (line_fields line) 1 [] ≡ c ∷ cs
      → IsStored k.shell.fs (map toupper cs) i xs
      → (k' : Kernel) × (r : Bytes) × (kernel_round fuel steps x k ≡ some k')
        × (k'.input ≡ input)
        × (k'.shell.console
            ≡ says_text "%s\n" r ∷ says_text "%s> " k.shell.working_directory ∷ k.shell.console)
        × IsText r xs
  unfolding run_command ended
  round-cat x k line input i d xs ready h entered clean two word name stored =
      let (s, b, prompted, run) =
        kernel_round-run_command fuel steps x k line input ready entered h.no_newline h.no_nul
          h.fits enough h.few 4 d (omega arith) word in
      let path : IsText (argument s 1) (c ∷ cs) =
        subst (λ ys. IsText (argument s 1) ys) name (prompted.arguments 1 two) in
      let same : s.fs ≡ k.shell.fs = ap (λ (t : Shell). t.fs) prompted.same in
      let shown : s.console ≡ says_text "%s> " k.shell.working_directory ∷ k.shell.console =
        ap (λ (t : Shell). t.console) prompted.same in
      let (r, u, e, text) =
        cat-IsStored fuel steps c cs (omega arith) short no_slash x s (argument s 1) i xs clean path
          (rw same stored) in
      let s' = record (print (says_text "%s\n" r) s) { fs = u } in
      (
        ended b input (true, s'),
        r,
        run ∙ rw e refl,
        refl,
        ap (λ zs. says_text "%s\n" r ∷ zs) shown,
        text,
      )

  -- With fuel for a line, from a state that is ready for the next line on, two lines are entered,
  -- each without NUL, of less than 100 characters and at most 50 fields. The first one has `echo`, a
  -- text of at least one character, a field that begins with '>', and a name of at most 10
  -- characters without a slash; the second one has `cat` and the same name. The first characters of
  -- `echo` and `cat` do not count. The first entry of the root directory that agrees with the
  -- capitals of the name from the second character on is one of the first 32, is in use with a name, and is that
  -- of a file of one cluster of the volume whose table entry ends its chain; the structure that
  -- stands for the root directory has cluster 0. The scratch arrays have their NULs, and the first
  -- byte of the buffer that `echo` copies the text to is not NUL. Then both rounds return, both
  -- lines have been read, and the last thing that the second round prints, behind its prompt, is the
  -- text.
  pub kernel_round-echo-cat :
      (x₁ x₂ : Scratch) (k : Kernel) (line₁ line₂ input : List ℕ) (i d₁ d₂ y : ℕ) (xs gs : List ℕ)
      → IsReady k
      → IsLine line₁
      → IsLine line₂
      → k.input ≡ line₁ ++ 10 ∷ (line₂ ++ 10 ∷ input)
      → IsClean x₁.locals
      → IsCleanIo x₁.locals
      → x₁.buffer 0 ≢ 0
      → IsClean x₂.locals
      → 3 < length (line_fields line₁)
      → get_or (line_fields line₁) 0 [] ≡ d₁ ∷ codes "cho"
      → get_or (line_fields line₁) 1 [] ≡ y ∷ xs
      → get_or (line_fields line₁) 2 [] ≡ b'>' ∷ gs
      → get_or (line_fields line₁) 3 [] ≡ c ∷ cs
      → 1 < length (line_fields line₂)
      → get_or (line_fields line₂) 0 [] ≡ d₂ ∷ codes "at"
      → get_or (line_fields line₂) 1 [] ≡ c ∷ cs
      → IsRootFile k.shell.fs (map toupper cs) i
      → cluster k.shell.fs.root_entry ≡ 0
      → (k₁ : Kernel) × (k₂ : Kernel) × (r : Bytes) × (kernel_round fuel (suc steps) x₁ k ≡ some k₁)
        × (kernel_round fuel steps x₂ k₁ ≡ some k₂)
        × (k₂.input ≡ input)
        × (k₂.shell.console
            ≡ says_text "%s\n" r ∷ says_text "%s> " k₁.shell.working_directory ∷ k₁.shell.console)
        × IsText r (y ∷ xs)
  kernel_round-echo-cat x₁ x₂ k line₁ line₂ input i d₁ d₂ y xs gs ready h₁ h₂ entered clean₁
        clean_io ne clean₂ four word₁ said sign name₁ two word₂ name₂ file root =
      let (k₁, e₁, ready₁, left, stored) =
        round-echo x₁ k line₁ (line₂ ++ 10 ∷ input) i d₁ y xs gs ready h₁ entered clean₁ clean_io ne
          four word₁ said sign name₁ file root in
      let (k₂, r, e₂, left₂, shown, text) =
        round-cat x₂ k₁ line₂ input i d₂ (y ∷ xs) ready₁ h₂ left clean₂ two word₂ name₂ stored in
      (k₁, k₂, r, e₁, e₂, left₂, shown, text)
