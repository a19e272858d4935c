-- ===== src/Command/Dots.antt =====
-- The entries "." and ".." that `mkdir` puts into a directory.
use pios_private.Base.{
  ℕ, ◌+◌, ◌*◌, ◌<◌, ◌≡◌, refl, arith, some, ◌==◌, ne→==, find_from, find_from-IsFirst,
  find_from-first, ap, ◌∙◌,
}
use pios_private.Mem.{Bytes, codes, from, literal, onto, write}
use pios_private.Mem.Copy.{splice, splice_head}
use pios_private.Mem.Text.{IsText}
use pios_private.Clib.Strings.{strcpy-splice}
use pios_private.Str.{space_char_array}
use pios_private.Fat.State.{Fs, File, attribute, cluster}
use pios_private.Fat.Rows.{cut_rows}
use pios_private.Fat.Rows.Flat.{cut_rows-splice}
use pios_private.Fat.Volume.{read_from_cluster}
use pios_private.Fat.Volume.Layout.{HasLayout, IsCluster}
use pios_private.Fat.Volume.Closed.{
  cluster_at, directory_at, read_from_cluster-splice, write_data_entries-splice,
}
use pios_private.Fat.Cluster.{with_disk}
use pios_private.Command.{Scratch}
use pios_private.Command.Files.{dot_entries, fill_directory}

-- The rows `i` and `i + 1` are the entries "." and "..".
pub record HasDots (rows : Bytes) (i : ℕ) : Type 0 where
  pub dot : IsText (from rows (32 * i)) (codes ".")
  pub dots : IsText (from rows (32 * (i + 1))) (codes "..")
  pub dot_kind : attribute (from rows (32 * i)) ≡ 0x10
  pub dots_kind : attribute (from rows (32 * (i + 1))) ≡ 0x10

pub dot_entries-HasDots :
    (fuel steps : ℕ) (x : Scratch) (rows : Bytes) (i : ℕ)
    → 12 < fuel
    → (r : Bytes) × (dot_entries fuel steps x rows i ≡ some r) × HasDots r i
unfolding dot_entries onto write splice
dot_entries-HasDots fuel steps x rows i enough =
    let p = 32 * i in
    let q = 32 * (i + 1) in
    let blank = onto rows p (space_char_array (from rows p) 8) in
    let blanks = onto blank q (space_char_array (from blank q) 8) in
    let dot = splice (from blanks p) 0 2 (from (literal ".") 0) in
    let one = onto blanks p dot in
    let dots = splice (from one q) 0 3 (from (literal "..") 0) in
    (
      write (write (onto one q dots) (p + 11) 0x10) (q + 11) 0x10,
      rw
          (
            strcpy-splice fuel (codes ".") (from blanks p) (literal ".") (ground arith)
                (omega arith),
            strcpy-splice fuel (codes "..") (from one q) (literal "..") (ground arith)
                (omega arith),
          )
          refl,
      record {
        dot = ground arith;
        dots = ground arith;
        dot_kind = ground arith;
        dots_kind = ground arith;
      },
    )

-- The rows of a cluster.
row_lem :
    (x : Scratch) (t : Fs) (n r : ℕ)
    → IsCluster t n
    → r < 64
    → cut_rows 2048 32 x.locals.entries (read_from_cluster t x.locals.cluster_data n) (32 * r)
      ≡ t.disk (cluster_at t n + 32 * r)
row_lem x t n r k lt =
    rw
      (
        cut_rows-splice 2048 32 x.locals.entries (read_from_cluster t x.locals.cluster_data n)
            (omega arith),
        read_from_cluster-splice t x.locals.cluster_data n k,
      )
      (splice_head x.locals.entries 2048
          (splice x.locals.cluster_data 0 2048 (from t.disk (cluster_at t n))) (32 * r)
          (omega arith)
        ∙ splice_head x.locals.cluster_data 2048 (from t.disk (cluster_at t n)) (32 * r)
            (omega arith))

pub fill_directory-HasDots :
    (fuel steps : ℕ) (x : Scratch) (f : File) (t : Fs) (n r : ℕ)
    → 12 < fuel
    → HasLayout t
    → cluster f.rde ≡ n
    → IsCluster t n
    → find_from 63 0 (λ r. t.disk (cluster_at t n + 32 * r) == 0) ≡ some r
    → (rows : Bytes) × (fill_directory fuel steps x f t
        ≡ some (with_disk t (splice t.disk (cluster_at t n) 2048 rows)))
      × HasDots rows r
unfolding fill_directory directory_at
fill_directory-HasDots fuel steps x f t n r enough layout start k free =
    let found = find_from-IsFirst 63 0 (λ r. t.disk (cluster_at t n + 32 * r) == 0) r free in
    let rows = cut_rows 2048 32 x.locals.entries (read_from_cluster t x.locals.cluster_data n) in
    let same = λ (r : ℕ) (lt : r < 64). ap (λ (c : ℕ). c == 0) (row_lem x t n r k lt) in
    let search =
      find_from-first 63 0 (λ r. rows (32 * r) == 0) r
        (record {
          lower = omega arith;
          upper = found.upper;
          holds = same r (omega (arith, found.upper)) ∙ found.holds;
          before = λ j lo lt. same j (omega (arith, found.upper)) ∙ found.before j lo lt;
        }) in
    let (rows', e, dots) = dot_entries-HasDots fuel steps x rows r enough in
    let stored = write_data_entries-splice x.locals t f.rde rows' layout (λ ne. rw start k) in
    let placed : directory_at t (cluster f.rde) ≡ cluster_at t n =
      rw (start, ne→== n 0 (omega (arith, k.lower))) refl in
    (
      rows',
      rw (start, search, e)
          (ap some stored ∙ ap (λ p. some (with_disk t (splice t.disk p 2048 rows'))) placed),
      dots,
    )
