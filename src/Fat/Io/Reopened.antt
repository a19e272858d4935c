-- ===== src/Fat/Io/Reopened.antt =====
-- What `fatOpen` leaves of the files in the root directory: it flushes the tables and nothing else.
use pios_private.Base.{ℕ, ◌+◌, ◌*◌, ◌<◌, ◌≡◌, arith, List, ◌∙◌, sym, IsFirst}
use pios_private.Mem.{from}
use pios_private.Mem.Text.{TextAt-same}
use pios_private.Fat.State.{Fs, root_rde, cluster, file_size, num_sectors_per_fat}
use pios_private.Fat.Volume.Load.{loaded}
use pios_private.Fat.Volume.Layout.{HasLayout, IsCluster}
use pios_private.Fat.Volume.Closed.{cluster_at}
use pios_private.Fat.Flush.{loaded-root}
use pios_private.Fat.Open.Find.{agrees}
use pios_private.Fat.Names.Entry.{entry_name}
use pios_private.Fat.Open.Same.{entry_name-same, agrees-same, fields-same}
use pios_private.Fat.Io.Settled.{loaded-IsLoaded}
use pios_private.Fat.Io.Stored.{
  IsStored, reopened, reopened-HasLayout, reopened-entry, reopened-cluster,
}
use pios_private.Fat.Io.RootFile.{IsRootFile}

module _ (s : Fs) (layout : HasLayout s) where
  -- The entries of the root directory behind `fatOpen`.
  pub reopened-root :
      (k j : ℕ) → k < 512 → j < 32 → root_rde (loaded (reopened s)) k j ≡ root_rde (loaded s) k j
  reopened-root k j low within =
      loaded-root (loaded s) (loaded-IsLoaded s layout) (32 * k + j) (omega arith)

  pub reopened-name :
      (k : ℕ)
      → k < 512
      → entry_name (root_rde (loaded (reopened s)) k) ≡ entry_name (root_rde (loaded s) k)
  reopened-name k low =
      entry_name-same (root_rde (loaded (reopened s)) k) (root_rde (loaded s) k)
        (λ j lt. reopened-root k j low (omega arith))

  reopened-agrees :
      (ys : List ℕ) (k : ℕ)
      → k < 512
      → agrees ys (root_rde (loaded (reopened s)) k) ≡ agrees ys (root_rde (loaded s) k)
  reopened-agrees ys k low =
      agrees-same ys (root_rde (loaded (reopened s)) k) (root_rde (loaded s) k)
        (λ j lt. reopened-root k j low (omega arith))

  reopened-IsFirst :
      (ys : List ℕ) (i : ℕ)
      → IsFirst 512 0 (λ k. agrees ys (root_rde (loaded s) k)) i
      → IsFirst 512 0 (λ k. agrees ys (root_rde (loaded (reopened s)) k)) i
  reopened-IsFirst ys i first = record {
    lower = omega arith;
    upper = first.upper;
    holds = reopened-agrees ys i first.upper ∙ first.holds;
    before = λ k lo lt. reopened-agrees ys k (omega (arith, first.upper)) ∙ first.before k lo lt;
  }

  pub reopened-fields :
      (i : ℕ)
      → i < 512
      → (file_size (root_rde (loaded (reopened s)) i) ≡ file_size (root_rde (loaded s) i))
        × (cluster (root_rde (loaded (reopened s)) i) ≡ cluster (root_rde (loaded s) i))
  reopened-fields i low =
      fields-same (root_rde (loaded (reopened s)) i) (root_rde (loaded s) i)
        (λ j lt. reopened-root i j low lt)

  reopened-IsCluster : (n : ℕ) → IsCluster s n → IsCluster (reopened s) n
  unfolding loaded
  reopened-IsCluster n k = record { lower = k.lower; upper = k.upper }

  reopened-in_table :
      (n : ℕ) → n < 256 * num_sectors_per_fat s.bs → n < 256 * num_sectors_per_fat (reopened s).bs
  unfolding loaded
  reopened-in_table n lt = lt

  pub reopened-IsRootFile : (ys : List ℕ) (i : ℕ) → IsRootFile s ys i → IsRootFile (reopened s) ys i
  reopened-IsRootFile ys i h =
      let c = cluster (root_rde (loaded s) i) in
      let same = (reopened-fields i h.first.upper).1 in
      record {
        layout = reopened-HasLayout s layout;
        first = reopened-IsFirst ys i h.first;
        has_name = λ e. h.has_name (sym (reopened-name i h.first.upper) ∙ e);
        low = h.low;
        used = λ e. h.used (sym (reopened-root i 0 h.first.upper (omega arith)) ∙ e);
        kind = reopened-root i 11 h.first.upper (omega arith) ∙ h.kind;
        on_volume = rw same (reopened-IsCluster c h.on_volume);
        in_table = rw same (reopened-in_table c h.in_table);
        last = rw (same, reopened-entry s layout c h.in_table) h.last;
      }

  pub reopened-IsStored :
      (ys : List ℕ) (i : ℕ) (xs : List ℕ) → IsStored s ys i xs → IsStored (reopened s) ys i xs
  unfolding loaded
  reopened-IsStored ys i xs h =
      let c = cluster (root_rde (loaded s) i) in
      let (size, same) = reopened-fields i h.first.upper in
      record {
        layout = reopened-HasLayout s layout;
        first = reopened-IsFirst ys i h.first;
        has_name = λ e. h.has_name (sym (reopened-name i h.first.upper) ∙ e);
        kind = reopened-root i 11 h.first.upper (omega arith) ∙ h.kind;
        size = size ∙ h.size;
        fits = h.fits;
        on_volume = rw same (reopened-IsCluster c h.on_volume);
        in_table = rw same (reopened-in_table c h.in_table);
        last = rw (same, reopened-entry s layout c h.in_table) h.last;
        text = rw same (
            TextAt-same (from s.disk (cluster_at s c)) (from (reopened s).disk (cluster_at s c)) xs
              0 0 (λ j lt. reopened-cluster s layout c (0 + j) h.on_volume (omega (arith, h.fits)))
              h.text);
      }
