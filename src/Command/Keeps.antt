-- ===== src/Command/Keeps.antt =====
-- No command changes the geometry of the volume, whatever it returns.
use pios_private.Base.{
  ℕ, ◌≡◌, refl, arith, Bool, true, false, Option, none, some, ◌>>=◌, Option-cases, inl, inr,
}
use pios_private.Mem.{Bytes, literal}
use pios_private.Fat.State.{Fs, File, file_size}
use pios_private.Fat.Volume.Keeps.{Keeps, write_data_entries-Keeps}
use pios_private.Fat.Open.Keeps.{fat_open-Keeps}
use pios_private.Fat.Create.Keeps.{fat_create-Keeps}
use pios_private.Fat.Io.Keeps.{fat_read-Keeps, fat_write-Keeps}
use pios_private.Fat.Open.{fat_open}
use pios_private.Fat.Create.{fat_create}
use pios_private.Fat.Io.{fat_read, fat_write}
use pios_private.Parse.{init_parse_arguments}
use pios_private.Command.{
  Shell, Scratch, argument, root_directory, command_names, ls, ls_root, ls_opened, ls_path,
  change_directory, cd, pwd,
}
use pios_private.Command.Files.{touch, cat, fill_directory, mkdir}
use pios_private.Command.Execute.{
  find_command, has_redirection, help, echo, echo_to, run_command, execute_command,
}

-- A case of the switch.
abbrev finished : Shell → Option (Bool × Shell)
finished t = some (true, t)

done :
    {A : Type 0} (s : Shell) (m : Option A) (f : A → Shell) (found : Bool) (t : Shell)
    → ((a : A) → m ≡ some a → Keeps s.fs (f a).fs)
    → (m >>= λ a. finished (f a)) ≡ some (found, t)
    → Keeps s.fs t.fs
done s none f found t h e = cc
done s (some a) f found t h e = ground (arith, h a refl)

help-Keeps : (fuel : ℕ) (s t : Shell) → help fuel s ≡ some t → Keeps s.fs t.fs
unfolding help
help-Keeps fuel s t e = ground arith

echo-Keeps :
    (fuel : ℕ) (b c : Bytes) (s : Shell) (r : ℕ) (d : Bytes) (t : Shell)
    → echo fuel b c s ≡ some (r, d, t)
    → Keeps s.fs t.fs
unfolding echo
echo-Keeps fuel b c s r d t e = ground arith

module _ (fuel steps : ℕ) (x : Scratch) where
  ls_root-Keeps : (s t : Shell) → ls_root fuel steps x s ≡ some t → Keeps s.fs t.fs
  unfolding ls_root
  ls_root-Keeps s t e = ground arith

  ls_opened-Keeps : (f : File) (s t : Shell) → ls_opened fuel steps x f s ≡ some t → Keeps s.fs t.fs
  unfolding ls_opened
  ls_opened-Keeps f s t e = ground arith

  ls_path-Keeps :
      (path : Bytes) (s t : Shell) → ls_path fuel steps x path s ≡ some t → Keeps s.fs t.fs
  unfolding ls_path
  ls_path-Keeps path s t e = elim (Option-cases (fat_open fuel x.locals x.temp_file path s.fs)) [
    | inl stuck ↦ ground arith
    | inr ((r, f, fs), opens) ↦
        let s' = record s { fs = fs } in
        ground (
          arith,
          fat_open-Keeps fuel x.locals x.temp_file path s.fs r f fs opens,
          ls_opened-Keeps f s' t,
        )
  ]

  ls-Keeps : (path : Bytes) (s t : Shell) → ls fuel steps x path s ≡ some t → Keeps s.fs t.fs
  unfolding ls
  ls-Keeps path s t e =
      ground
        (arith, ls_root-Keeps s t, ls_path-Keeps path s t, ls_path-Keeps s.working_directory s t)

  touch-Keeps :
      (path : Bytes) (s : Shell) (r : ℕ) (t : Shell)
      → touch fuel steps x path s ≡ some (r, t)
      → Keeps s.fs t.fs
  unfolding touch
  touch-Keeps path s r t e = elim (Option-cases (fat_create fuel x.locals path false s.fs)) [
    | inl stuck ↦ ground arith
    | inr ((c, fs), made) ↦ ground (arith, fat_create-Keeps fuel x.locals path false s.fs c fs made)
  ]

  change_directory-Keeps :
      (path : Bytes) (s : Shell) (r : ℕ) (t : Shell)
      → change_directory fuel steps x path s ≡ some (r, t)
      → Keeps s.fs t.fs
  unfolding change_directory
  change_directory-Keeps path s r t e = ground arith

  cd-Keeps :
      (path : Bytes) (s : Shell) (r : ℕ) (t : Shell)
      → cd fuel steps x path s ≡ some (r, t)
      → Keeps s.fs t.fs
  unfolding cd
  cd-Keeps path s r t e = elim (Option-cases (fat_open fuel x.locals x.temp_file path s.fs)) [
    | inl stuck ↦ ground (arith, change_directory-Keeps root_directory s r t)
    | inr ((c, f, fs), opens) ↦
        let s' = record s { fs = fs } in
        ground (
          arith,
          fat_open-Keeps fuel x.locals x.temp_file path s.fs c f fs opens,
          change_directory-Keeps root_directory s r t,
          change_directory-Keeps path s' r t,
        )
  ]

  cat-Keeps :
      (path : Bytes) (s : Shell) (r : ℕ) (t : Shell)
      → cat fuel steps x path s ≡ some (r, t)
      → Keeps s.fs t.fs
  unfolding cat
  cat-Keeps path s r t e = elim (Option-cases (fat_open fuel x.locals x.temp_file path s.fs)) [
    | inl stuck ↦ ground arith
    | inr ((c, f, fs), opens) ↦
        let here = fat_open-Keeps fuel x.locals x.temp_file path s.fs c f fs opens in
        elim (Option-cases (fat_read steps x.locals x.buffer f (file_size f.rde) fs)) [
          | inl stuck ↦ ground (arith, here)
          | inr ((b, fs'), reads) ↦ ground (
            arith,
            here,
            fat_read-Keeps steps x.locals x.buffer f (file_size f.rde) fs b fs' reads,
          )
        ]
  ]

  fill_directory-Keeps :
      (f : File) (s t : Fs) → fill_directory fuel steps x f s ≡ some t → Keeps s t
  unfolding fill_directory
  fill_directory-Keeps f s t e = grind (arith, write_data_entries-Keeps)

  mkdir-Keeps :
      (path : Bytes) (s : Shell) (r : ℕ) (t : Shell)
      → mkdir fuel steps x path s ≡ some (r, t)
      → Keeps s.fs t.fs
  unfolding mkdir
  mkdir-Keeps path s r t e = elim (Option-cases (fat_create fuel x.locals path true s.fs)) [
    | inl stuck ↦ ground arith
    | inr ((c, fs), made) ↦
        let here = fat_create-Keeps fuel x.locals path true s.fs c fs made in
        elim (Option-cases (fat_open fuel x.locals x.temp_file path fs)) [
          | inl stuck ↦ ground (arith, here)
          | inr ((o, f, fs'), opens) ↦
              let there = fat_open-Keeps fuel x.locals x.temp_file path fs o f fs' opens in
              elim (Option-cases (fill_directory fuel steps x f fs')) [
                | inl stuck ↦ ground (arith, here, there)
                | inr (fs'', fills) ↦
                    ground (arith, here, there, fill_directory-Keeps f fs' fs'' fills)
              ]
        ]
  ]

  echo_to-Keeps : (s t : Shell) → echo_to fuel steps x s ≡ some t → Keeps s.fs t.fs
  unfolding echo_to
  echo_to-Keeps s t e = elim (Option-cases (echo fuel (argument s 1) x.buffer s)) [
    | inl stuck ↦ ground arith
    | inr ((r, b, s₁), echoes) ↦
        let here = echo-Keeps fuel (argument s 1) x.buffer s r b s₁ echoes in
        elim (Option-cases (fat_open fuel x.locals x.temp_file (argument s₁ 3) s₁.fs)) [
          | inl stuck ↦ ground (arith, here)
          | inr ((o, f, fs), opens) ↦
              let there =
                fat_open-Keeps fuel x.locals x.temp_file (argument s₁ 3) s₁.fs o f fs opens in
              elim (Option-cases (fat_write fuel steps x.locals f b fs)) [
                | inl stuck ↦ ground (arith, here, there)
                | inr ((w, g, fs'), writes) ↦
                    ground (
                      arith,
                      here,
                      there,
                      fat_write-Keeps fuel steps x.locals f b fs w g fs' writes,
                    )
              ]
        ]
  ]

  pub run_command-Keeps :
      (i : ℕ) (redirection : Bool) (s : Shell) (found : Bool) (t : Shell)
      → run_command fuel steps x i redirection s ≡ some (found, t)
      → Keeps s.fs t.fs
  unfolding run_command pwd
  run_command-Keeps i redirection s found t e =
      let path = argument s 1 in
      ground (
        arith,
        done s (touch fuel steps x path s) (λ r. r.1) found t (λ (c, u). touch-Keeps path s c u),
        done s (ls fuel steps x path s) (λ u. u) found t (ls-Keeps path s),
        done s (cd fuel steps x path s) (λ r. r.1) found t (λ (c, u). cd-Keeps path s c u),
        done s (cat fuel steps x path s) (λ r. r.1) found t (λ (c, u). cat-Keeps path s c u),
        done s (mkdir fuel steps x path s) (λ r. r.1) found t (λ (c, u). mkdir-Keeps path s c u),
        done s (help fuel s) (λ u. u) found t (help-Keeps fuel s),
        done s (echo_to fuel steps x s) (λ u. u) found t (echo_to-Keeps s),
        done s (echo fuel path (literal "") s) (λ r. r.2) found t
            (λ (c, b, u). echo-Keeps fuel path (literal "") s c b u),
      )

  pub execute_command-Keeps :
      (s : Shell) (r : ℕ) (t : Shell)
      → execute_command fuel steps x s ≡ some (r, t)
      → Keeps s.fs t.fs
  unfolding execute_command
  execute_command-Keeps s r t e =
      elim (Option-cases (find_command fuel (argument s 0) command_names 0)) [
        | inl stuck ↦ ground arith
        | inr (i, found) ↦ elim (Option-cases (run_command fuel steps x i (has_redirection s) s)) [
          | inl stuck ↦ ground arith
          | inr ((b, t'), runs) ↦
              ground (arith, run_command-Keeps i (has_redirection s) s b t' runs)
        ]
      ]

  -- The arguments are cleared on every path.
  pub execute_command-cleared :
      (s : Shell) (r : ℕ) (t : Shell)
      → execute_command fuel steps x s ≡ some (r, t)
      → (a : Bytes) × (t.parse_arguments ≡ init_parse_arguments a)
  unfolding execute_command
  execute_command-cleared s r t e =
      elim (Option-cases (find_command fuel (argument s 0) command_names 0)) [
        | inl stuck ↦ ground arith
        | inr (i, found) ↦ elim (Option-cases (run_command fuel steps x i (has_redirection s) s)) [
          | inl stuck ↦ ground arith
          | inr ((b, t'), runs) ↦ (t'.parse_arguments, ground arith)
        ]
      ]
