-- ===== src/Command/EchoCat.antt =====
-- `echo TEXT > PATH` and `cat PATH` for a file in the root directory.
use pios_private.Base.{
  ℕ, suc, ◌+◌, ◌<◌, ◌≡◌, ◌≢◌, refl, arith, true, false, ◌==◌, ne→==, Option-cases, inl, inr,
  find_from, find_from-none, some, List, ◌∷◌, map, length,
}
use pios_private.Mem.{Bytes}
use pios_private.Mem.Copy.{splice, splice_head}
use pios_private.Mem.Text.{IsText, TextAt-same}
use pios_private.Clib.{toupper}
use pios_private.Clib.Strings.{strlen-length}
use pios_private.Str.Copies.{char_arr_cpy-splice}
use pios_private.Fat.State.{Fs, cluster}
use pios_private.Fat.Names.Path.{NoSlash}
use pios_private.Fat.Open.Root.{IsClean}
use pios_private.Fat.Io.Length.{IsCleanIo}
use pios_private.Fat.Io.Stored.{IsStored, fat_read-IsStored}
use pios_private.Fat.Io.RootFile.{IsRootFile}
use pios_private.Fat.Io.ByName.{fat_write-IsStored}
use pios_private.Command.{Shell, Scratch, says_text, print, argument}
use pios_private.Command.Files.{cat}
use pios_private.Command.Execute.{echo, echo_to, has_redirection}
use pios_private.Parse.{num_args}
use pios_private.Str.{is_separator}

-- A copy of a text by `charArrCpy`, with its terminator.
echo-splice :
    (fuel : ℕ) (buffer redirection : Bytes) (y : ℕ) (xs : List ℕ) (s : Shell)
    → IsText buffer (y ∷ xs)
    → suc (length xs) < fuel
    → redirection 0 ≢ 0
    → echo fuel buffer redirection s
      ≡ some (0, splice redirection 0 (length xs + 2) buffer, print (says_text "%s\n" buffer) s)
unfolding echo
echo-splice fuel buffer redirection y xs s text long ne =
    let some_text : (suc (length xs) == 0) ≡ false = ground arith in
    let n : suc (length xs) + 1 ≡ length xs + 2 = omega arith in
    rw
      (
        strlen-length fuel (y ∷ xs) buffer text long,
        some_text,
        ne→== (redirection 0) 0 ne,
        char_arr_cpy-splice redirection buffer (suc (length xs) + 1),
        n,
      )
      refl

-- An argument that begins with '>' is seen.
pub has_redirection-IsText :
    (s : Shell) (j : ℕ) (xs : List ℕ)
    → j < 50
    → IsText (argument s j) (b'>' ∷ xs)
    → has_redirection s ≡ true
unfolding has_redirection is_separator
has_redirection-IsText s j xs lt text =
    let test = λ (i : ℕ). argument s i 0 == b'>' in
    elim (Option-cases (find_from num_args 0 test)) [
      | inl none_found ↦
          let miss = find_from-none num_args 0 test none_found j (omega arith) (omega arith) in
          absurd (ground (arith, miss, text))
      | inr (i, hit) ↦ rw (has_redirection, hit) refl
    ]

module _ (fuel steps : ℕ) (c : ℕ) (cs : List ℕ) (enough : 12 < fuel) (short : length cs < 10)
    (no_slash : NoSlash (c ∷ cs)) where
  pub echo_to-IsStored :
      (x : Scratch) (s : Shell) (i y : ℕ) (xs : List ℕ)
      → IsClean x.locals
      → IsCleanIo x.locals
      → x.buffer 0 ≢ 0
      → IsText (argument s 1) (y ∷ xs)
      → suc (length xs) < fuel
      → suc (length xs) < 2047
      → IsText (argument s 3) (c ∷ cs)
      → IsRootFile s.fs (map toupper cs) i
      → cluster s.fs.root_entry ≡ 0
      → (s' : Shell) × (echo_to fuel (suc steps) x s ≡ some s')
        × IsStored s'.fs (map toupper cs) i (y ∷ xs)
  unfolding echo_to
  echo_to-IsStored x s i y xs clean clean_io ne text long small path h root =
      let copy = splice x.buffer 0 (length xs + 2) (argument s 1) in
      let copied : IsText copy (y ∷ xs) =
        TextAt-same (argument s 1) copy (y ∷ xs) 0 0
          (λ j lt. splice_head x.buffer (length xs + 2) (argument s 1) (0 + j) (omega arith))
          text in
      let (f, t, f', u, opens, kind, writes, stored) =
        fat_write-IsStored fuel steps x.locals x.temp_file (argument s 3) copy c cs (y ∷ xs) enough
          long clean clean_io short no_slash path copied small s.fs i h root in
      (
        record (print (says_text "Writing to path: %s.\n" (argument s 3))
            (print (says_text "%s\n" (argument s 1)) s)) { fs = u },
        rw
            (
              strlen-length fuel (y ∷ xs) (argument s 1) text long,
              echo-splice fuel (argument s 1) x.buffer y xs s text long ne,
              opens,
              kind,
              writes,
            )
            refl,
        stored,
      )

  pub cat-IsStored :
      (x : Scratch) (s : Shell) (path : Bytes) (i : ℕ) (xs : List ℕ)
      → IsClean x.locals
      → IsText path (c ∷ cs)
      → IsStored s.fs (map toupper cs) i xs
      → (r : Bytes) × (u : Fs) × (cat fuel steps x path s
          ≡ some (0, print (says_text "%s\n" r) (record s { fs = u })))
        × IsText r xs
  unfolding cat
  cat-IsStored x s path i xs clean named h =
      let (f, t, r, u, opens, kind, size, reads, text) =
        fat_read-IsStored fuel x.locals x.temp_file path c cs enough clean short no_slash named
          steps x.locals s.fs i xs x.buffer h in
      (r, u, rw (opens, kind, size, reads) refl, text)
