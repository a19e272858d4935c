-- ===== src/Fat/Io/After.antt =====
-- What the volume holds after `fatWrite` of a file in the root directory: that file, and the others.
use pios_private.Base.{
  ℕ, suc, ◌+◌, ◌*◌, ◌≤◌, ◌<◌, ◌≡◌, ◌≢◌, refl, arith, List, length, ◌∙◌, sym, IsFirst, ◌==◌,
  if◌then◌else◌, ◌⊎◌, inl, inr, ne→==,
}
use pios_private.Mem.{get16, from}
use pios_private.Mem.Copy.{splice, splice_at}
use pios_private.Mem.Text.{IsText, TextAt-same}
use pios_private.Fat.State.{Fs, root_rde, file_size, cluster, fat_entry, num_sectors_per_fat}
use pios_private.Fat.Volume.Layout.{HasLayout, IsCluster}
use pios_private.Fat.Volume.Closed.{cluster_at}
use pios_private.Fat.Volume.Keeps.{Keeps, HasLayout-Keeps}
use pios_private.Fat.Table.{fat_entry-set_entry}
use pios_private.Fat.Volume.Load.{loaded}
use pios_private.Fat.Cluster.{with_disk}
use pios_private.Fat.Open.Find.{agrees}
use pios_private.Fat.Names.Entry.{entry_name}
use pios_private.Fat.Open.Same.{entry_name-same, agrees-same, fields-same}
use pios_private.Fat.Io.{set_entry}
use pios_private.Fat.Io.Root.{root_rows}
use pios_private.Fat.Io.Settled.{
  settled-Keeps, settled-entry, settled-cluster, directory-apart, loaded-IsLoaded,
}
use pios_private.Fat.Io.Stored.{IsStored}
use pios_private.Fat.Io.RootFile.{RootWrite, size_outside}
use native.Mathlib.Decide.{dec_lt}
use pios_private.Fat.Io.Written.{
  one, start, changed, filled_state, rows, changed-IsLoaded, after_write, after-root, after-head,
  after-size, read_rows,
}

module _ (w : RootWrite) where
  abbrev after : Fs
  after = after_write w

  keeps : Keeps (changed w) after
  unfolding after_write
  keeps = settled-Keeps (changed w) (changed-IsLoaded w) w.l

  after-HasLayout : HasLayout after
  after-HasLayout = HasLayout-Keeps (changed w) after keeps (changed-IsLoaded w).layout

  -- The first entry with a name is still that entry.
  IsFirst-kept :
      (ys : List ℕ) (j : ℕ)
      → j < 32
      → IsFirst 512 0 (λ k. agrees ys (root_rde (loaded w.s) k)) j
      → IsFirst 512 0 (λ k. agrees ys (root_rde (loaded after) k)) j
  IsFirst-kept ys j low first =
      let same_name = λ (k : ℕ) (lt : k < 32).
        agrees-same ys (root_rde (loaded after) k) (root_rde (loaded w.s) k)
          (λ q within. after-head w k q lt (omega arith)) in
      record {
        lower = omega arith;
        upper = omega arith;
        holds = same_name j low ∙ first.holds;
        before = λ k lo lt. same_name k (omega arith) ∙ first.before k lo lt;
      }

  after-cluster :
      (k : ℕ) → k < 32 → cluster (root_rde (loaded after) k) ≡ cluster (root_rde (loaded w.s) k)
  unfolding cluster get16
  after-cluster k low =
      rw (after-head w k 26 low (omega arith), after-head w k 27 low (omega arith)) refl

  -- A cluster of the volume is one of the states behind as well.
  changed-IsCluster : (n : ℕ) → IsCluster w.s n → IsCluster (changed w) n
  unfolding changed loaded set_entry
  changed-IsCluster n k = record { lower = k.lower; upper = k.upper }

  after-IsCluster : (n : ℕ) → IsCluster w.s n → IsCluster after n
  after-IsCluster n k = record {
    lower = k.lower;
    upper = rw keeps.data_sector (changed-IsCluster n k).upper;
  }

  after-in_table :
      (n : ℕ) → n < 256 * num_sectors_per_fat w.s.bs → n < 256 * num_sectors_per_fat after.bs
  unfolding changed loaded set_entry
  after-in_table n lt = rw keeps.bs lt

  -- The table.
  after-entry :
      (n : ℕ)
      → IsCluster w.s n
      → n < 256 * num_sectors_per_fat w.s.bs
      → fat_entry (loaded after) n
        ≡ (if n == cluster w.rde then 0xfff8 else fat_entry (loaded w.s) n)
  unfolding after_write changed loaded set_entry num_sectors_per_fat
  after-entry n k lt =
      settled-entry w.l (changed w) (changed-IsLoaded w) n (changed-IsCluster n k) lt
      ∙ fat_entry-set_entry (with_disk (loaded w.s) (changed w).disk) (cluster w.rde) 0xfff8 n
          (omega arith)

  -- The clusters.
  after-disk :
      (n j : ℕ)
      → IsCluster w.s n
      → j < 2048
      → after.disk (cluster_at after n + j) ≡ (filled_state w).disk (cluster_at w.s n + j)
  unfolding after_write changed loaded set_entry
  after-disk n j k lt = rw keeps.data_sector (
      settled-cluster (changed w) (changed-IsLoaded w) w.l n j (changed-IsCluster n k) lt
      ∙ directory-apart (loaded w.s) n (cluster w.parent) j (filled_state w).disk (rows w)
          (loaded-IsLoaded w.s w.h.layout).layout (record { lower = k.lower; upper = k.upper })
          (λ ne. absurd (ne w.root)) (λ e. absurd (omega (arith, e, w.root, k.lower))) lt)

  filled_text :
      (j : ℕ)
      → j < suc (length w.xs)
      → (filled_state w).disk (cluster_at w.s (cluster w.rde) + j) ≡ w.buffer j
  unfolding filled_state loaded
  filled_text j lt =
      splice_at _ (cluster_at (loaded w.s) (cluster w.rde)) (suc (length w.xs)) w.buffer j lt

  filled_apart :
      (n j : ℕ)
      → IsCluster w.s n
      → n ≢ cluster w.rde
      → j < 2048
      → (filled_state w).disk (cluster_at w.s n + j) ≡ w.s.disk (cluster_at w.s n + j)
  unfolding filled_state loaded splice
  filled_apart n j k ne lt = ground (arith, k.lower, (one w).on_volume.lower)

  after-name :
      (k : ℕ)
      → k < 32
      → entry_name (root_rde (loaded after) k) ≡ entry_name (root_rde (loaded w.s) k)
  after-name k low =
      entry_name-same (root_rde (loaded after) k) (root_rde (loaded w.s) k)
        (λ j lt. after-head w k j low (omega arith))

  pub after-IsStored : (text : IsText w.buffer w.xs) → IsStored after w.ys w.i w.xs
  after-IsStored text =
      let same = after-cluster w.i w.h.low ∙ sym (start w) in
      let k = (one w).on_volume in
      let c = cluster w.rde in
      record {
        layout = after-HasLayout;
        first = IsFirst-kept w.ys w.i w.h.low w.h.first;
        has_name = λ e. w.h.has_name (sym (after-name w.i w.h.low) ∙ e);
        kind = after-head w w.i 11 w.h.low (omega arith) ∙ w.h.kind;
        size = after-size w;
        fits = omega arith;
        on_volume = rw same (after-IsCluster c k);
        in_table = rw same (after-in_table c (one w).in_table);
        last = rw same (ground (arith, after-entry c k (one w).in_table));
        text = rw same (
            TextAt-same w.buffer (from after.disk (cluster_at after c)) w.xs 0 0
              (λ j lt. after-disk c (0 + j) k (omega arith) ∙ filled_text (0 + j) (omega arith))
              text);
      }

  elsewhere :
      (k j : ℕ) → k ≢ w.i → j < 32 → (32 * k + j < 32 * w.i + 28) ⊎ (32 * w.i + 28 + 4 ≤ 32 * k + j)
  elsewhere k j ne lt = elim (dec_lt w.i k) [
    | yes above ↦ inr (omega (arith, above))
    | no below ↦ inl (omega (arith, below, ne))
  ]

  after-size_of :
      (k : ℕ)
      → k < 32
      → k ≢ w.i
      → file_size (root_rde (loaded after) k) ≡ file_size (root_rde (loaded w.s) k)
  after-size_of k low ne =
      (fields-same (root_rde (loaded after) k) (root_rde (loaded w.s) k) (λ j lt.
        after-root w k j low lt
        ∙ size_outside (root_rows w.l (filled_state w)) (32 * w.i + 28) (suc (length w.xs))
            (32 * k + j) (elsewhere k j ne lt)
        ∙ read_rows w k j low lt)).0

  -- Another file that is stored.
  pub after-others :
      (ys : List ℕ) (j : ℕ) (zs : List ℕ)
      → j < 32
      → j ≢ w.i
      → cluster (root_rde (loaded w.s) j) ≢ cluster w.rde
      → IsStored w.s ys j zs
      → IsStored after ys j zs
  after-others ys j zs low other apart h =
      let same = after-cluster j low in
      let c = cluster (root_rde (loaded w.s) j) in
      record {
        layout = after-HasLayout;
        first = IsFirst-kept ys j low h.first;
        has_name = λ e. h.has_name (sym (after-name j low) ∙ e);
        kind = after-head w j 11 low (omega arith) ∙ h.kind;
        size = after-size_of j low other ∙ h.size;
        fits = h.fits;
        on_volume = rw same (after-IsCluster c h.on_volume);
        in_table = rw same (after-in_table c h.in_table);
        last =
            rw (same, after-entry c h.on_volume h.in_table, ne→== c (cluster w.rde) apart) h.last;
        text = rw same (
            TextAt-same (from w.s.disk (cluster_at w.s c)) (from after.disk (cluster_at after c)) zs
              0 0
              (λ q lt.
                after-disk c (0 + q) h.on_volume (omega (arith, h.fits))
                ∙ filled_apart c (0 + q) h.on_volume apart (omega (arith, h.fits)))
              h.text);
      }
