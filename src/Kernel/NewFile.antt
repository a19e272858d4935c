-- ===== src/Kernel/NewFile.antt =====
-- Three lines that are entered one after the other: `touch PATH`, `echo TEXT > PATH`, and `cat PATH`.
use pios_private.Base.{
  ℕ, suc, ◌≤◌, ◌<◌, ◌≡◌, ◌≢◌, refl, arith, true, false, some, List, [], ◌∷◌, ◌++◌, map, length,
  get_or, ap, ◌∙◌,
}
use mathlib.Core.Path.{subst}
use pios_private.Mem.{Bytes, codes}
use pios_private.Mem.Text.{IsText}
use pios_private.Clib.{toupper}
use pios_private.Fat.State.{Fs, cluster}
use pios_private.Fat.Volume.Layout.{HasLayout}
use pios_private.Fat.Names.Path.{NoSlash}
use pios_private.Fat.Open.Root.{IsClean}
use pios_private.Fat.Create.Entry.{IsPlain}
use pios_private.Fat.Create.File.{
  HasRoom, created, fat_create-created, created-root_entry, created-IsRootFile,
}
use pios_private.Fat.Io.Length.{IsCleanIo}
use pios_private.Fat.Io.RootFile.{IsRootFile}
use pios_private.Parse.Rows.Text.{line_fields}
use pios_private.Command.{Shell, Scratch, says_text, print, argument}
use pios_private.Command.Files.{touch}
use pios_private.Command.Execute.{run_command}
use pios_private.Kernel.{Kernel, kernel_round}
use pios_private.Kernel.Steps.{round, IsReady, Step-IsReady}
use pios_private.Kernel.Run.{ended, kernel_round-run_command}
use pios_private.Kernel.EchoCat.{IsLine, kernel_round-echo-cat}

module _ (fuel steps : ℕ) (enough : 100 ≤ fuel) (c : ℕ) (cs : List ℕ) (short : length cs < 8)
    (no_slash : NoSlash (c ∷ cs)) (plain : IsPlain (c ∷ cs)) where
  touch-IsRootFile :
      (x : Scratch) (s : Shell) (path : Bytes) (i n : ℕ)
      → IsClean x.locals
      → HasLayout s.fs
      → IsText path (c ∷ cs)
      → HasRoom s.fs (map toupper cs) i n
      → (u : Fs) × (touch fuel steps x path s
          ≡ some (0, print (says_text "%s created.\n" path) (record s { fs = u })))
        × (u.root_entry ≡ s.fs.root_entry)
        × IsRootFile u (map toupper cs) i
  unfolding touch
  touch-IsRootFile x s path i n clean layout text room =
      let at =
        fat_create-created fuel x.locals path false c cs s.fs i n (omega arith) clean short no_slash
          plain text layout room in
      (
        created fuel x.locals path false c cs s.fs i n (omega arith) clean short no_slash plain text
            layout room,
        rw at refl,
        created-root_entry fuel x.locals path false c cs s.fs i n (omega arith) clean short no_slash
            plain text layout room,
        created-IsRootFile fuel x.locals path false c cs s.fs i n (omega arith) clean short no_slash
            plain text layout room refl,
      )

  -- The round with `touch`.
  round-touch :
      (x : Scratch) (k : Kernel) (line input : List ℕ) (i n d : ℕ)
      → IsReady k
      → IsLine line
      → k.input ≡ line ++ 10 ∷ input
      → IsClean x.locals
      → 1 < length (line_fields line)
      → get_or (line_fields line) 0 [] ≡ d ∷ codes "ouch"
      → get_or (line_fields line) 1 [] ≡ c ∷ cs
      → HasRoom k.shell.fs (map toupper cs) i n
      → (k' : Kernel) × (kernel_round fuel steps x k ≡ some k')
        × IsReady k'
        × (k'.input ≡ input)
        × (k'.shell.fs.root_entry ≡ k.shell.fs.root_entry)
        × IsRootFile k'.shell.fs (map toupper cs) i
  unfolding run_command ended
  round-touch x k line input i n d ready h entered clean two word name room =
      let (s, b, prompted, run) =
        kernel_round-run_command fuel steps x k line input ready entered h.no_newline h.no_nul
          h.fits enough h.few 0 d (omega arith) word in
      let path : IsText (argument s 1) (c ∷ cs) =
        subst (λ ys. IsText (argument s 1) ys) name (prompted.arguments 1 two) in
      let same : s.fs ≡ k.shell.fs = ap (λ (t : Shell). t.fs) prompted.same in
      let (u, e, entry, file) =
        touch-IsRootFile x s (argument s 1) i n clean (rw same ready.layout) path (rw same room) in
      let s' = record (print (says_text "%s created.\n" (argument s 1)) s) { fs = u } in
      let returns : kernel_round fuel steps x k ≡ some (ended b input (true, s')) =
        run ∙ rw e refl in
      (
        ended b input (true, s'),
        returns,
        Step-IsReady ready.layout (round fuel steps x returns),
        refl,
        entry ∙ ap (λ (fs : Fs). fs.root_entry) same,
        file,
      )

  -- With fuel for a line, from a state that is ready for the next line on, three lines are entered,
  -- each without NUL, of less than 100 characters and at most 50 fields. The first one has `touch`
  -- and a name of at most 8 characters without slashes, dots and blanks; the second one `echo`, a
  -- text of at least one character, a field that begins with '>', and the name; the third one `cat`
  -- and the name. The first characters of the commands do not count. The search for the name in the
  -- root directory ends at a free entry among the first 32, and the first free cluster is one of the
  -- volume, with its entry in the table; the structure that stands for the root directory has
  -- cluster 0. The scratch arrays have their NULs, and the first byte of the buffer that `echo`
  -- copies the text to is not NUL. Then the three rounds return, all three lines have been read, and
  -- the last thing that the third round prints, behind its prompt, is the text.
  pub kernel_round-touch-echo-cat :
      (x₀ x₁ x₂ : Scratch) (k : Kernel) (line₀ line₁ line₂ input : List ℕ) (i n d₀ d₁ d₂ y : ℕ)
      (xs gs : List ℕ)
      → IsReady k
      → IsLine line₀
      → IsLine line₁
      → IsLine line₂
      → k.input ≡ line₀ ++ 10 ∷ (line₁ ++ 10 ∷ (line₂ ++ 10 ∷ input))
      → IsClean x₀.locals
      → IsClean x₁.locals
      → IsCleanIo x₁.locals
      → x₁.buffer 0 ≢ 0
      → IsClean x₂.locals
      → 1 < length (line_fields line₀)
      → get_or (line_fields line₀) 0 [] ≡ d₀ ∷ codes "ouch"
      → get_or (line_fields line₀) 1 [] ≡ c ∷ cs
      → 3 < length (line_fields line₁)
      → get_or (line_fields line₁) 0 [] ≡ d₁ ∷ codes "cho"
      → get_or (line_fields line₁) 1 [] ≡ y ∷ xs
      → get_or (line_fields line₁) 2 [] ≡ b'>' ∷ gs
      → get_or (line_fields line₁) 3 [] ≡ c ∷ cs
      → 1 < length (line_fields line₂)
      → get_or (line_fields line₂) 0 [] ≡ d₂ ∷ codes "at"
      → get_or (line_fields line₂) 1 [] ≡ c ∷ cs
      → HasRoom k.shell.fs (map toupper cs) i n
      → cluster k.shell.fs.root_entry ≡ 0
      → (k₁ : Kernel) × (k₂ : Kernel) × (k₃ : Kernel) × (r : Bytes) × (kernel_round fuel steps x₀ k
          ≡ some k₁)
        × (kernel_round fuel (suc steps) x₁ k₁ ≡ some k₂)
        × (kernel_round fuel steps x₂ k₂ ≡ some k₃)
        × (k₃.input ≡ input)
        × (k₃.shell.console
            ≡ says_text "%s\n" r ∷ says_text "%s> " k₂.shell.working_directory ∷ k₂.shell.console)
        × IsText r (y ∷ xs)
  kernel_round-touch-echo-cat x₀ x₁ x₂ k line₀ line₁ line₂ input i n d₀ d₁ d₂ y xs gs ready h₀ h₁ h₂
        entered clean₀ clean₁ clean_io ne clean₂ one word₀ name₀ four word₁ said sign name₁ two
        word₂ name₂ room root =
      let (k₁, e₁, ready₁, left, entry, file) =
        round-touch x₀ k line₀ (line₁ ++ 10 ∷ (line₂ ++ 10 ∷ input)) i n d₀ ready h₀ entered clean₀
          one word₀ name₀ room in
      let (k₂, k₃, r, e₂, e₃, rest, shown, text) =
        kernel_round-echo-cat fuel steps enough c cs (omega arith) no_slash x₁ x₂ k₁ line₁ line₂
          input i d₁ d₂ y xs gs ready₁ h₁ h₂ left clean₁ clean_io ne clean₂ four word₁ said sign
          name₁ two word₂ name₂ file (rw entry root) in
      (k₁, k₂, k₃, r, e₁, e₂, e₃, rest, shown, text)
