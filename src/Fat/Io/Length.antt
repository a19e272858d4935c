-- ===== src/Fat/Io/Length.antt =====
-- `writeFileLength` returns, and writes one directory and nothing else.
use pios_private.Base.{
  ℕ, zero, suc, ◌+◌, ◌*◌, ◌<◌, ◌≡◌, ◌≢◌, refl, arith, some, ap, ◌∙◌, ℤ, Bool-cases, inl, inr, ◌==◌,
}
use pios_private.Mem.{Bytes, from, put32}
use pios_private.Mem.Copy.{splice, splice_above}
use pios_private.Clib.{strcmp}
use pios_private.Clib.Strings.{chars, TextAt-chars, length-chars}
use pios_private.Clib.Compare.{lex, strcmp-lex}
use pios_private.Str.Copies.{char_arr_cpy-splice}
use pios_private.Fat.State.{Fs, Locals, cluster}
use pios_private.Fat.Rows.{cut_rows}
use pios_private.Fat.Names.{root_directory_to_filename}
use pios_private.Fat.Names.Entry.{entry_path-IsText}
use pios_private.Fat.Volume.{read_from_cluster}
use pios_private.Fat.Volume.Layout.{HasLayout, IsCluster}
use pios_private.Fat.Volume.Closed.{directory_at, write_data_entries-splice}
use pios_private.Fat.Open.{is_zero}
use pios_private.Fat.Io.{set_length, write_file_length}

-- The NULs that `rootDirectoryToFilename` and its callers take for granted behind their arrays.
pub record IsCleanIo (l : Locals) : Type 0 where
  pub ext : l.ext 3 ≡ 0
  pub buffer : l.buffer 11 ≡ 0
  pub name : l.name 11 ≡ 0

module _ (fuel : ℕ) (l : Locals) (enough : 12 < fuel) (clean : IsCleanIo l) where
  filename_total :
      (rde buffer : Bytes)
      → buffer 11 ≡ 0
      → (r : Bytes) × (root_directory_to_filename fuel l rde buffer ≡ some r) × (r 11 ≡ 0)
  unfolding root_directory_to_filename
  filename_total rde buffer nul =
      let (p, e, t) = entry_path-IsText fuel l l.path rde enough clean.ext in
      (
        splice buffer 0 11 p,
        rw (e, char_arr_cpy-splice buffer p 11) refl,
        splice_above buffer 0 11 p 11 (omega arith) ∙ nul,
      )

  strcmp_total : (a b : Bytes) → a 11 ≡ 0 → b 11 ≡ 0 → (c : ℤ) × (strcmp fuel a b ≡ some c)
  strcmp_total a b ha hb = (
    lex (chars 10 a 1) (chars 10 b 1),
    strcmp-lex fuel (chars 10 a 1) (chars 10 b 1) a b (TextAt-chars 10 1 a ha)
        (TextAt-chars 10 1 b hb) (omega (arith, length-chars 10 1 a)),
  )

  set_length_total :
      (rde_name : Bytes) (size n i : ℕ) (rows : Bytes)
      → rde_name 11 ≡ 0
      → (r : Bytes) × (set_length fuel l rde_name size n i rows ≡ some r)
  unfolding set_length
  set_length_total rde_name size zero i rows nul = (rows, refl)
  set_length_total rde_name size (suc n) i rows nul =
      let (later, e) = set_length_total rde_name size n (suc i) rows nul in
      let (b, made, hb) = filename_total (from rows (32 * i)) l.buffer clean.buffer in
      let (c, compared) = strcmp_total b rde_name hb nul in
      elim (Bool-cases (rows (32 * i) == 0)) [
        | inl free ↦ rw free (later, e)
        | inr used ↦
            rw (used, made, compared)
              (elim (Bool-cases (is_zero c)) [
                | inl hit ↦ (put32 rows (32 * i + 28) size, rw hit)
                | inr miss ↦ (later, rw miss e)
              ])
      ]

  -- With the NULs behind the local arrays and fuel for a name, on a volume with a layout and for a
  -- parent that is the root or a cluster of the volume, `writeFileLength` returns, and all it
  -- changes are 2048 bytes of the disk image where the parent directory stands.
  pub write_file_length_total :
      (parent rde : Bytes) (size : ℕ) (s : Fs)
      → HasLayout s
      → (cluster parent ≢ 0 → IsCluster s (cluster parent))
      → (rows : Bytes) × (write_file_length fuel l parent rde size s
          ≡ some (record s { disk = splice s.disk (directory_at s (cluster parent)) 2048 rows }))
  unfolding write_file_length
  write_file_length_total parent rde size s h c =
      let (rde_name, named, nul) = filename_total rde l.name clean.name in
      let (rows, e) =
        set_length_total rde_name size 64 0
          (cut_rows 2048 32 l.entries (read_from_cluster s l.cluster_data (cluster parent))) nul in
      (rows, rw (named, e) (ap some (write_data_entries-splice l s parent rows h c)))
