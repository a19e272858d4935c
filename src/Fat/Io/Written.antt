-- ===== src/Fat/Io/Written.antt =====
-- `fatWrite` of a file in the root directory stores the text under the name of the file.
use pios_private.Base.{
  ℕ, suc, ◌+◌, ◌*◌, ◌≤◌, ◌<◌, ◌≡◌, refl, arith, some, length, ap, ◌∙◌, sym, find_from,
  find_from-first, ◌⊎◌, inl, inr,
}
use pios_private.Mem.{Bytes, from, put32, put16, write}
use pios_private.Mem.Copy.{splice, splice_at}
use pios_private.Mem.Text.{IsText}
use pios_private.Str.{null_char_array}
use pios_private.Fat.State.{Fs, File, root_rde, file_size, cluster}
use pios_private.Fat.Volume.Layout.{IsLoaded}
use pios_private.Fat.Volume.Closed.{directory_at}
use pios_private.Fat.Volume.Load.{loaded}
use pios_private.Fat.Flush.{HasLayout-disk}
use pios_private.Fat.Cluster.{with_disk}
use pios_private.Fat.Names.Entry.{rest}
use pios_private.Fat.Open.{opened}
use pios_private.Fat.Open.Find.{agrees, agrees_iff}
use pios_private.Fat.Open.Same.{entry_name-same, agrees-same, fields-same}
use pios_private.Fat.Io.{started, set_entry, fat_write}
use pios_private.Fat.Io.Length.{IsCleanIo}
use pios_private.Fat.Io.Size.{take, take-all, short_rest, named, sized}
use pios_private.Fat.Io.Root.{root_rows, sized_rows, write_file_length-root}
use pios_private.Fat.Io.Settled.{
  filled, settled, settled-root, marked, marked-IsLoaded, loaded-IsLoaded,
}
use pios_private.Fat.Io.RoundTrip.{IsOneCluster, write_one-rows}
use pios_private.Fat.Io.RootFile.{
  RootWrite, size_stored, size_outside, named-agrees, not_named, named-same,
}
use native.Mathlib.Decide.{dec_lt}

module _ (w : RootWrite) where
  abbrev pub fp : File
  fp = opened w.parent w.rde

  -- The entry in memory has the cluster of the entry in the directory.
  pub start : cluster w.rde ≡ cluster (root_rde (loaded w.s) w.i)
  start = (fields-same w.rde (root_rde (loaded w.s) w.i) w.same).1

  pub one : IsOneCluster w.s fp
  one = record {
    on_volume = rw start w.h.on_volume;
    in_table = rw start w.h.in_table;
    last = rw start w.h.last;
    parent = λ ne. absurd (ne w.root);
    apart = λ e. absurd (omega (arith, e, w.root, start, w.h.on_volume.lower));
  }

  -- What the directory is written from.
  unfoldable pub filled_state : Fs
  filled_state = with_disk (loaded w.s) (
      filled (loaded w.s) (cluster w.rde) (suc (length w.xs))
        (null_char_array w.l.cluster_data 2048) w.buffer)

  pub rows : Bytes
  rows = sized_rows w.l filled_state (started fp fp.start_cluster).rde (suc (length w.xs))

  pub read_rows :
      (k j : ℕ)
      → k < 32
      → j < 32
      → root_rows w.l filled_state (32 * k + j) ≡ root_rde (loaded w.s) k j
  unfolding loaded splice filled_state
  read_rows k j low within = ground (arith, w.h.layout.clusters, one.on_volume.lower)

  the_name : short_rest (started fp fp.start_cluster).rde ≡ w.ys
  unfolding put16 write
  the_name =
      let e =
        entry_name-same (started fp fp.start_cluster).rde (root_rde (loaded w.s) w.i)
          (λ j lt. ground (arith, w.same j (omega arith))) in
      let e' = (agrees_iff w.ys (root_rde (loaded w.s) w.i)).0 w.h.first.holds in
      ap (λ zs. take 10 (rest zs)) e ∙ ap (take 10) (sym e') ∙ take-all 10 w.ys (omega arith)

  found : find_from 64 0 (λ k. named w.ys (from (root_rows w.l filled_state) (32 * k))) ≡ some w.i
  found =
      let rows₀ = root_rows w.l filled_state in
      let as_read =
        λ (k : ℕ) (low : k < 32) (j : ℕ) (lt : j < 11). read_rows k j low (omega arith) in
      find_from-first 64 0 (λ k. named w.ys (from rows₀ (32 * k))) w.i
        (record {
          lower = omega arith;
          upper = omega (arith, w.h.low);
          holds =
              named-same w.ys (from rows₀ (32 * w.i)) (root_rde (loaded w.s) w.i)
                (as_read w.i w.h.low)
              ∙ named-agrees w.ys (root_rde (loaded w.s) w.i) w.short w.h.used w.h.first.holds;
          before = λ k lo lt.
              named-same w.ys (from rows₀ (32 * k)) (root_rde (loaded w.s) k)
                (as_read k (omega (arith, w.h.low)))
              ∙ not_named w.ys (root_rde (loaded w.s) k) w.short (w.h.first.before k lo lt);
        })

  rows_lem : rows ≡ put32 (root_rows w.l filled_state) (32 * w.i + 28) (suc (length w.xs))
  unfolding rows sized
  rows_lem =
      let rows₀ = root_rows w.l filled_state in
      ap
        (λ zs.
          sized (suc (length w.xs)) rows₀ (find_from 64 0 (λ k. named zs (from rows₀ (32 * k)))))
        the_name
      ∙ ap (sized (suc (length w.xs)) rows₀) found

  -- The state behind the last change of the tables, and that at the end.
  unfoldable pub changed : Fs
  changed =
      marked (loaded w.s)
        (splice filled_state.disk (directory_at (loaded w.s) (cluster w.parent)) 2048 rows)
        (cluster w.rde)

  unfoldable pub after_write : Fs
  after_write = settled w.l changed

  pub changed-IsLoaded : IsLoaded changed
  unfolding changed
  changed-IsLoaded =
      marked-IsLoaded (loaded w.s)
        (splice filled_state.disk (directory_at (loaded w.s) (cluster w.parent)) 2048 rows)
        (cluster w.rde) (loaded-IsLoaded w.s w.h.layout)

  root_region : directory_at (loaded w.s) (cluster w.parent) ≡ 512 * changed.root_sector
  unfolding changed set_entry directory_at
  root_region = rw w.root refl

  -- The directory that is read again.
  pub after-root :
      (k j : ℕ)
      → k < 32
      → j < 32
      → root_rde (loaded after_write) k j
        ≡ put32 (root_rows w.l filled_state) (32 * w.i + 28) (suc (length w.xs)) (32 * k + j)
  unfolding after_write changed set_entry
  after-root k j low within =
      let d = directory_at (loaded w.s) (cluster w.parent) in
      settled-root changed changed-IsLoaded w.l (32 * k + j) (omega arith)
      ∙ ap (λ p. changed.disk (p + (32 * k + j))) (sym root_region)
      ∙ splice_at filled_state.disk d 2048 rows (32 * k + j) (omega arith)
      ∙ ap (λ (b : Bytes). b (32 * k + j)) rows_lem

  outside : (k j : ℕ) → j < 28 → (32 * k + j < 32 * w.i + 28) ⊎ (32 * w.i + 28 + 4 ≤ 32 * k + j)
  outside k j within = elim (dec_lt w.i k) [
    | yes above ↦ inr (omega (arith, above))
    | no below ↦ inl (omega (arith, below))
  ]

  pub after-head :
      (k j : ℕ) → k < 32 → j < 28 → root_rde (loaded after_write) k j ≡ root_rde (loaded w.s) k j
  after-head k j low within =
      after-root k j low (omega arith)
      ∙ size_outside (root_rows w.l filled_state) (32 * w.i + 28) (suc (length w.xs)) (32 * k + j)
          (outside k j within)
      ∙ read_rows k j low (omega arith)

  pub same_name :
      (k : ℕ)
      → k < 32
      → agrees w.ys (root_rde (loaded after_write) k) ≡ agrees w.ys (root_rde (loaded w.s) k)
  same_name k low =
      agrees-same w.ys (root_rde (loaded after_write) k) (root_rde (loaded w.s) k)
        (λ j lt. after-head k j low (omega arith))

  pub after-size : file_size (root_rde (loaded after_write) w.i) ≡ suc (length w.xs)
  after-size =
      let rows₁ = put32 (root_rows w.l filled_state) (32 * w.i + 28) (suc (length w.xs)) in
      (fields-same (root_rde (loaded after_write) w.i) (from rows₁ (32 * w.i))
        (λ j lt. after-root w.i j w.h.low lt)).0
      ∙ size_stored (root_rows w.l filled_state) (32 * w.i) (suc (length w.xs)) (omega arith)

  loaded_root : directory_at (loaded w.s) (cluster w.parent) ≡ 512 * (loaded w.s).root_sector
  unfolding directory_at
  loaded_root = rw w.root refl

  -- `fatWrite` comes to that state.
  pub fat_write-root :
      (fuel steps : ℕ)
      → 12 < fuel
      → length w.xs < fuel
      → IsCleanIo w.l
      → w.l.path 1 ≡ 0
      → IsText w.buffer w.xs
      → fat_write fuel (suc steps) w.l fp w.buffer w.s
        ≡ some (0, started fp fp.start_cluster, after_write)
  unfolding after_write changed filled_state rows
  fat_write-root fuel steps enough long clean clear text =
      write_one-rows fuel steps w.l fp w.buffer w.xs w.s enough long clean text w.small w.h.layout
        one rows
        (write_file_length-root fuel w.l enough clean clear w.parent
            (started fp fp.start_cluster).rde (suc (length w.xs)) filled_state
            (HasLayout-disk (loaded w.s) filled_state.disk (loaded-IsLoaded w.s w.h.layout).layout)
            w.root
          ∙ ap (λ p. some (with_disk (loaded w.s) (splice filled_state.disk p 2048 rows)))
              (sym loaded_root))
