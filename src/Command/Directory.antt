-- ===== src/Command/Directory.antt =====
-- `cd` changes the working directory if and only if it has found a directory.
use pios_private.Base.{
  ℕ, suc, ◌+◌, ◌<◌, ◌≡◌, refl, arith, Option, none, some, List, ◌∷◌, map, length, ◌==◌,
  if◌then◌else◌, find_from, Bool-cases, ne→==, inl, inr, ap, ◌∙◌,
}
use pios_private.Mem.{Bytes, from}
use pios_private.Mem.Copy.{splice, splice_head}
use pios_private.Mem.Text.{IsText, TextAt-same}
use pios_private.Clib.{strcpy, toupper}
use pios_private.Clib.Strings.{strlen-length, strcpy-splice}
use pios_private.Fat.State.{Fs, File, root_rde}
use pios_private.Fat.Volume.Layout.{HasLayout}
use pios_private.Fat.Volume.Load.{loaded}
use pios_private.Fat.Names.Path.{NoSlash}
use pios_private.Fat.Open.{fat_open}
use pios_private.Fat.Open.Find.{stands}
use pios_private.Fat.Open.Root.{IsClean, open_first, fat_open-root}
use pios_private.Command.{
  Shell, Scratch, print, says, says_text, is_directory, change_directory, cd,
}

-- A string, copied with its terminator.
copied : Bytes → List ℕ → Bytes → Bytes
copied wd xs path = splice wd 0 (suc (length xs)) (from path 0)

copied-IsText :
    (wd : Bytes) (xs : List ℕ) (path : Bytes) → IsText path xs → IsText (copied wd xs path) xs
unfolding copied
copied-IsText wd xs path h =
    TextAt-same path (copied wd xs path) xs 0 0
      (λ i lt.
        splice_head wd (suc (length xs)) (from path 0) (0 + i) (omega arith)
        ∙ ap path (omega arith))
      h

-- The result of `cd`, from that of `fatOpen` and from the file that it has opened.
unfoldable pub cd_code : (result : ℕ) → File → ℕ
cd_code result f = if result == 0 then (if is_directory f.rde then 0 else 2) else 1

module _ (fuel steps : ℕ) (x : Scratch) (path : Bytes) (c : ℕ) (cs : List ℕ) (s : Shell)
    (text : IsText path (c ∷ cs)) (long : suc (length cs) < fuel) where
  pub cd_opened :
      (r : ℕ) (f : File) (fs : Fs)
      → fat_open fuel x.locals x.temp_file path s.fs ≡ some (r, f, fs)
      → (s' : Shell) × (wd : Bytes) × (cd fuel steps x path s ≡ some (cd_code r f, s'))
        × (s'.fs ≡ fs)
        × IsText wd (c ∷ cs)
        × (s'.working_directory ≡ (if cd_code r f == 0 then wd else s.working_directory))
  unfolding cd cd_code change_directory
  cd_opened r f fs opens =
      let s₁ = record s { fs = fs } in
      let wd = copied s.working_directory (c ∷ cs) path in
      let moved = record (print (says_text "Changing directory to %s.\n" path) s₁) {
        working_directory = wd;
      } in
      let t = copied-IsText s.working_directory (c ∷ cs) path text in
      let copy : strcpy fuel s.working_directory path ≡ some wd =
        unfold copied in strcpy-splice fuel (c ∷ cs) s.working_directory path text long in
      let len = strlen-length fuel (c ∷ cs) path text long in
      let filled = ne→== (suc (length cs)) 0 (omega arith) in
      elim (Bool-cases (r == 0)) [
        | inr failed ↦ (
          print (says "Path could not be found.\n") s₁,
          wd,
          rw (len, filled, opens, failed) refl,
          refl,
          t,
          rw failed refl,
        )
        | inl found ↦ elim (Bool-cases (is_directory f.rde)) [
          | inr file ↦ (
            print (says "Path entered is a file, not a directory.\n") s₁,
            wd,
            rw (len, filled, opens, found, file) refl,
            refl,
            t,
            rw (found, file) refl,
          )
          | inl dir ↦ (
            moved,
            wd,
            rw (len, filled, opens, found, dir, copy) refl,
            refl,
            t,
            rw (found, dir) refl,
          )
        ]
      ]

-- The result for what the search of the root directory has found.
unfoldable pub cd_root_code : Shell → Option ℕ → ℕ
cd_root_code s none = 1
cd_root_code s (some i) = if is_directory (root_rde (loaded s.fs) i) then 0 else 2

code_first :
    (x : Scratch) (s : Shell) (found : Option ℕ)
    → let o = open_first x.locals x.temp_file (loaded s.fs) found in
      cd_code o.0 o.1 ≡ cd_root_code s found
unfolding open_first cd_code cd_root_code
code_first x s none = refl
code_first x s (some i) = refl

-- On a volume with a layout, with the NULs in the scratch arrays and fuel for the names, `cd` of
-- one part of at most 10 characters, without a slash, returns. The search of the root directory
-- stops at the first entry at which the capitals of the part agree, from the second character on,
-- with the name of the last entry up to there that has one. `cd` returns 0 if that entry is a
-- directory, and the working directory is then the path as it was entered; it returns 2 if it is no
-- directory and 1 if there is no such entry, and the working directory stays as it was.
pub cd-root :
    (fuel steps : ℕ) (x : Scratch) (path : Bytes) (c : ℕ) (cs : List ℕ) (s : Shell)
    → IsText path (c ∷ cs)
    → NoSlash (c ∷ cs)
    → length cs < 10
    → 12 < fuel
    → IsClean x.locals
    → HasLayout s.fs
    → let found = find_from 512 0 (stands (map toupper cs) (root_rde (loaded s.fs))) in
      let code = cd_root_code s found in
      (s' : Shell) × (wd : Bytes) × (cd fuel steps x path s ≡ some (code, s'))
      × IsText wd (c ∷ cs)
      × (s'.working_directory ≡ (if code == 0 then wd else s.working_directory))
cd-root fuel steps x path c cs s text no_slash fits enough clean layout =
    let found = find_from 512 0 (stands (map toupper cs) (root_rde (loaded s.fs))) in
    let o = open_first x.locals x.temp_file (loaded s.fs) found in
    let opens =
      fat_open-root fuel x.locals x.temp_file path c cs s.fs enough clean fits no_slash text
        layout in
    let (s', wd, e, same, t, dir) =
      cd_opened fuel steps x path c cs s text (omega arith) o.0 o.1 o.2 opens in
    let code = code_first x s found in
    (
      s',
      wd,
      e ∙ ap (λ k. some (k, s')) code,
      t,
      dir ∙ ap (λ (k : ℕ). if k == 0 then wd else s.working_directory) code,
    )
