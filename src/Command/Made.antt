-- ===== src/Command/Made.antt =====
-- `mkdir` of a directory in the root directory, and `cd` to it.
use pios_private.Base.{
  ℕ, suc, ◌+◌, ◌*◌, ◌<◌, ◌≡◌, refl, arith, true, some, List, ◌∷◌, map, length, ◌==◌, if◌then◌else◌,
  ne→==, find_from, [], IsFirst, find_from-IsFirst, find_from-first, ap, ◌∙◌, sym, ◌≢◌,
}
use pios_private.Mem.{Bytes, codes, from}
use pios_private.Mem.Copy.{splice, splice_at}
use pios_private.Mem.Text.{IsText, TextAt-same}
use pios_private.Clib.{toupper}
use pios_private.Clib.Strings.{strlen-length}
use pios_private.Fat.State.{Fs, root_rde, attribute, cluster}
use pios_private.Fat.Volume.Layout.{HasLayout, IsCluster}
use pios_private.Fat.Volume.Closed.{cluster_at}
use pios_private.Fat.Volume.Load.{loaded}
use pios_private.Fat.Volume.Keeps.{Keeps}
use pios_private.Fat.Cluster.{with_disk}
use pios_private.Fat.Flush.{HasLayout-disk}
use pios_private.Fat.Names.Path.{NoSlash}
use pios_private.Fat.Open.{opened}
use pios_private.Fat.Open.Find.{agrees}
use pios_private.Fat.Names.Entry.{entry_name}
use pios_private.Fat.Open.Root.{IsClean}
use pios_private.Fat.Open.Same.{entry_name-same, agrees-same}
use pios_private.Fat.Create.Entry.{IsPlain}
use pios_private.Fat.Create.File.{
  created-name, HasRoom, created, fat_create-created, made_fields, made-IsFirst, created-HasLayout,
  created-Keeps, created-cluster,
}
use pios_private.Fat.Io.Stored.{reopened, reopened-HasLayout, reopened-cluster, fat_open-first}
use pios_private.Fat.Io.Reopened.{reopened-root}
use pios_private.Command.{Shell, Scratch, cd}
use pios_private.Command.Files.{mkdir}
use pios_private.Command.Directory.{cd_code, cd_opened}
use pios_private.Command.Dots.{HasDots, fill_directory-HasDots}

-- A cluster is no part of the root directory.
cluster-root :
    (t : Fs) (n : ℕ) (rows : Bytes) (q : ℕ)
    → HasLayout t
    → IsCluster t n
    → q < 16384
    → (loaded (with_disk t (splice t.disk (cluster_at t n) 2048 rows))).root_directory_chars q
      ≡ (loaded t).root_directory_chars q
unfolding loaded splice
cluster-root t n rows q layout k lt = ground (arith, layout.clusters, k.lower)

module _ (fuel steps : ℕ) (x : Scratch) (path : Bytes) (c : ℕ) (cs : List ℕ) (s : Fs) (i n r : ℕ)
    (enough : 12 < fuel) (clean : IsClean x.locals) (short : length cs < 8)
    (no_slash : NoSlash (c ∷ cs)) (plain : IsPlain (c ∷ cs)) (text : IsText path (c ∷ cs))
    (layout : HasLayout s) (room : HasRoom s (map toupper cs) i n)
    (free : find_from 63 0 (λ r. s.disk (cluster_at s n + 32 * r) == 0) ≡ some r) where
  -- The states behind `fatCreate`, and behind the `fatOpen` that follows.
  abbrev new : Fs
  new =
      created fuel x.locals path true c cs s i n enough clean short no_slash plain text layout room

  abbrev seen : Fs
  seen = reopened new

  new-Keeps : Keeps s new
  new-Keeps =
      created-Keeps fuel x.locals path true c cs s i n enough clean short no_slash plain text layout
        room

  new-HasLayout : HasLayout new
  new-HasLayout =
      created-HasLayout fuel x.locals path true c cs s i n enough clean short no_slash plain text
        layout room

  new-IsFirst : IsFirst 512 0 (λ k. agrees (map toupper cs) (root_rde (loaded new) k)) i
  new-IsFirst =
      made-IsFirst fuel x.locals path true c cs s i n enough clean short no_slash plain text layout
        room

  new-has_name : entry_name (root_rde (loaded new) i) ≢ []
  new-has_name e =
      let name =
        created-name fuel x.locals path true c cs s i n enough clean short no_slash plain text
          layout room in
      absurd (ground (arith, e, name))

  new_fields :
      (attribute (root_rde (loaded new) i) ≡ 0x10) × (cluster (root_rde (loaded new) i) ≡ n)
  new_fields =
      made_fields fuel x.locals path true c cs s i n enough clean short no_slash plain text layout
        room

  new-IsCluster : IsCluster new n
  new-IsCluster = record {
    lower = room.on_volume.lower;
    upper = rw new-Keeps.data_sector room.on_volume.upper;
  }

  seen-IsCluster : IsCluster seen n
  unfolding loaded
  seen-IsCluster = record { lower = new-IsCluster.lower; upper = new-IsCluster.upper }

  seen_at : cluster_at seen n ≡ cluster_at s n
  unfolding loaded
  seen_at = rw new-Keeps.data_sector refl

  -- The new cluster holds what it held before.
  seen-disk : (q : ℕ) → q < 2048 → seen.disk (cluster_at s n + q) ≡ s.disk (cluster_at s n + q)
  seen-disk q lt =
      let at : cluster_at new n ≡ cluster_at s n = rw new-Keeps.data_sector refl in
      rw at at (reopened-cluster new new-HasLayout n q new-IsCluster lt)
      ∙ created-cluster fuel x.locals path true c cs s i n enough clean short no_slash plain text
          layout room n q room.on_volume lt

  still_free : find_from 63 0 (λ r. seen.disk (cluster_at seen n + 32 * r) == 0) ≡ some r
  still_free =
      let found = find_from-IsFirst 63 0 (λ r. s.disk (cluster_at s n + 32 * r) == 0) r free in
      let same = λ (j : ℕ) (lt : j < 63).
        ap (λ (c : ℕ). c == 0)
          (ap (λ p. seen.disk (p + 32 * j)) seen_at ∙ seen-disk (32 * j) (omega arith)) in
      find_from-first 63 0 (λ r. seen.disk (cluster_at seen n + 32 * r) == 0) r
        (record {
          lower = omega arith;
          upper = found.upper;
          holds = same r found.upper ∙ found.holds;
          before = λ j lo lt. same j (omega (arith, found.upper)) ∙ found.before j lo lt;
        })

  -- The root directory, when the directory has been written to its cluster.
  abbrev filled : Bytes → Fs
  filled rows = with_disk seen (splice seen.disk (cluster_at seen n) 2048 rows)

  filled-root :
      (rows : Bytes) (k j : ℕ)
      → k < 512
      → j < 32
      → root_rde (loaded (filled rows)) k j ≡ root_rde (loaded new) k j
  filled-root rows k j low within =
      cluster-root seen n rows (32 * k + j) (reopened-HasLayout new new-HasLayout) seen-IsCluster
        (omega arith)
      ∙ reopened-root new new-HasLayout k j low within

  filled-HasLayout : (rows : Bytes) → HasLayout (filled rows)
  filled-HasLayout rows = HasLayout-disk seen _ (reopened-HasLayout new new-HasLayout)

  filled-IsFirst :
      (rows : Bytes)
      → IsFirst 512 0 (λ k. agrees (map toupper cs) (root_rde (loaded (filled rows)) k)) i
  filled-IsFirst rows =
      let same = λ (k : ℕ) (low : k < 512).
        agrees-same (map toupper cs) (root_rde (loaded (filled rows)) k) (root_rde (loaded new) k)
          (λ j lt. filled-root rows k j low (omega arith)) in
      record {
        lower = omega arith;
        upper = new-IsFirst.upper;
        holds = same i new-IsFirst.upper ∙ new-IsFirst.holds;
        before = λ k lo lt. same k (omega (arith, new-IsFirst.upper)) ∙ new-IsFirst.before k lo lt;
      }

  filled-has_name : (rows : Bytes) → entry_name (root_rde (loaded (filled rows)) i) ≢ []
  filled-has_name rows e =
      let same =
        entry_name-same (root_rde (loaded (filled rows)) i) (root_rde (loaded new) i)
          (λ j lt. filled-root rows i j new-IsFirst.upper (omega arith)) in
      new-has_name (sym same ∙ e)

  -- What stands in the new cluster.
  filled_bytes :
      (rows : Bytes) (q : ℕ) → q < 2048 → (filled rows).disk (cluster_at s n + q) ≡ rows q
  filled_bytes rows q lt =
      ap (λ p. (filled rows).disk (p + q)) (sym seen_at)
      ∙ splice_at seen.disk (cluster_at seen n) 2048 rows q lt

  filled-dots :
      (rows : Bytes) → HasDots rows r → HasDots (from (filled rows).disk (cluster_at s n)) r
  filled-dots rows h =
      let low =
        (find_from-IsFirst 63 0 (λ r. s.disk (cluster_at s n + 32 * r) == 0) r free).upper in
      let same = filled_bytes rows in
      let row = from (filled rows).disk (cluster_at s n) in
      record {
        dot =
            TextAt-same (from rows (32 * r)) (from row (32 * r)) (codes ".") 0 0
              (λ j lt. same (32 * r + (0 + j)) (omega arith)) h.dot;
        dots =
            TextAt-same (from rows (32 * (r + 1))) (from row (32 * (r + 1))) (codes "..") 0 0
              (λ j lt. same (32 * (r + 1) + (0 + j)) (omega arith)) h.dots;
        dot_kind = same (32 * r + 11) (omega arith) ∙ h.dot_kind;
        dots_kind = same (32 * (r + 1) + 11) (omega arith) ∙ h.dots_kind;
      }

  -- On a volume with a layout, with fuel for the names and the NULs in the scratch arrays, for a
  -- name of at most 8 characters without slashes, dots and blanks: if the search for the name in the
  -- root directory ends at a free entry among the first 32, the first free cluster is one of the
  -- volume, and the first row of that cluster that begins with NUL is one of its first 63, then
  -- `mkdir` returns 0. That row and the next one of the cluster are then the entries "." and "..",
  -- both marked as directories, and a `cd` of the name returns 0 and makes it the working directory.
  pub mkdir-cd :
      (x' : Scratch) (sh : Shell)
      → sh.fs ≡ s
      → IsClean x'.locals
      → (s₁ : Shell) × (s₂ : Shell) × (wd : Bytes) × (mkdir fuel steps x path sh ≡ some (0, s₁))
        × HasDots (from s₁.fs.disk (cluster_at s n)) r
        × (cd fuel steps x' path s₁ ≡ some (0, s₂))
        × (s₂.working_directory ≡ wd)
        × IsText wd (c ∷ cs)
  unfolding mkdir cd_code
  mkdir-cd x' sh same clean' =
      let f = opened new.root_entry (root_rde (loaded new) i) in
      let made =
        fat_create-created fuel x.locals path true c cs s i n enough clean short no_slash plain text
          layout room in
      let opens =
        fat_open-first fuel x.locals x.temp_file path c cs enough clean (omega arith) no_slash text
          new i new-HasLayout new-IsFirst new-has_name in
      let (rows, fills, dots) =
        fill_directory-HasDots fuel steps x f seen n r enough (reopened-HasLayout new new-HasLayout)
          new_fields.1 seen-IsCluster still_free in
      let s₁ = record sh { fs = filled rows } in
      let again =
        fat_open-first fuel x'.locals x'.temp_file path c cs enough clean' (omega arith) no_slash
          text (filled rows) i (filled-HasLayout rows) (filled-IsFirst rows)
          (filled-has_name rows) in
      let (s₂, wd, goes, at, home, moved) =
        cd_opened fuel steps x' path c cs s₁ text (omega arith) 0
          (opened (filled rows).root_entry (root_rde (loaded (filled rows)) i))
          (reopened (filled rows)) again in
      let kind : root_rde (loaded (filled rows)) i 11 ≡ 0x10 =
        filled-root rows i 11 new-IsFirst.upper (omega arith) ∙ new_fields.0 in
      let code : (if root_rde (loaded (filled rows)) i 11 == 0x10 then 0 else 2) ≡ 0 =
        rw kind refl in
      let len = strlen-length fuel (c ∷ cs) path text (omega arith) in
      let filled_path = ne→== (suc (length cs)) 0 (omega arith) in
      (
        s₁,
        s₂,
        wd,
        rw (len, filled_path, same, made, opens, fills) refl,
        filled-dots rows dots,
        goes ∙ ap (λ k. some (k, s₂)) code,
        moved ∙ ap (λ (k : ℕ). if k == 0 then wd else sh.working_directory) code,
        home,
      )
