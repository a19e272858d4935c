-- ===== src/Fat/Cluster.antt =====
-- Clusters as a store: what a read sees of a write.
use pios_private.Base.{
  ℕ, suc, ◌+◌, ◌≤◌, ◌<◌, ◌≡◌, ◌≢◌, arith, ◌∙◌, fun_ext, ap, ◌==◌, if◌then◌else◌, Bool-cases, inl,
  inr, ==→eq, ==→ne,
}
use pios_private.Mem.{Bytes, from}
use pios_private.Mem.Copy.{splice, splice_in, splice_head, splice-same}
use pios_private.Fat.State.{Fs}
use pios_private.Fat.Volume.{read_from_cluster, write_to_cluster}
use pios_private.Fat.Volume.Layout.{IsCluster}
use pios_private.Fat.Volume.Closed.{cluster_at, read_from_cluster-splice, write_to_cluster-splice}

-- A copy of the disk image.
abbrev pub with_disk : Fs → Bytes → Fs
with_disk s d = record s { disk = d }

pub IsCluster-disk :
    (s : Fs) (n : ℕ) (d : Bytes) → IsCluster s n → IsCluster (record s { disk = d }) n
IsCluster-disk s n d c = record { lower = c.lower; upper = c.upper }

-- Another cluster's bytes.
pub cluster-apart :
    (s : Fs) (n m size : ℕ) (arr : Bytes) (i : ℕ)
    → IsCluster s n
    → IsCluster s m
    → size ≤ 2048
    → m ≢ n
    → i < 2048
    → splice s.disk (cluster_at s n) size arr (cluster_at s m + i) ≡ s.disk (cluster_at s m + i)
unfolding splice
cluster-apart s n m size arr i c d small ne lt = ground (arith, c.lower, d.lower)

module _ (s : Fs) (n size : ℕ) (arr out : Bytes) (c : IsCluster s n) where
  written :
      (size < 1073741824)
      → (m : ℕ) → IsCluster s m
      → read_from_cluster (write_to_cluster s arr n size) out m
        ≡ splice out 0 2048 (from (splice s.disk (cluster_at s n) size arr) (cluster_at s m))
  written small m d = rw (write_to_cluster-splice s arr n size c small) (
      read_from_cluster-splice (with_disk s (splice s.disk (cluster_at s n) size arr)) out m
        (IsCluster-disk s m _ d))

  read_own :
      size ≤ 2048
      → read_from_cluster (write_to_cluster s arr n size) out n
        ≡ splice (read_from_cluster s out n) 0 size arr
  unfolding splice
  read_own small =
      rw (written (omega arith) n c, read_from_cluster-splice s out n c) (fun_ext λ j. ground arith)

  -- For clusters of the volume: after a write of at most a cluster's size, reading that cluster returns what was written, in
  -- front of what the cluster held behind it, and reading any other cluster returns what it
  -- returned before.
  pub read_write :
      size ≤ 2048
      → (m : ℕ) → IsCluster s m
      → read_from_cluster (write_to_cluster s arr n size) out m ≡ (
          if m == n
          then splice (read_from_cluster s out n) 0 size arr
          else read_from_cluster s out m)
  read_write small m d = elim (Bool-cases (m == n)) [
    | inl same ↦ rw (same, ==→eq m n same) (read_own small)
    | inr other ↦
        rw (other, written (omega arith) m d, read_from_cluster-splice s out m d)
          (splice-same out 0 2048 _ _
            (λ i lt. cluster-apart s n m size arr i c d small (==→ne m n other) lt))
  ]

  -- A write of more than a cluster's size and at most twice that, to a cluster with another one
  -- behind it, has run on into the next cluster.
  pub write_to_cluster-overrun :
      2048 ≤ size
      → size ≤ 4096
      → IsCluster s (suc n)
      → (i : ℕ) → 2048 + i < size
      → read_from_cluster (write_to_cluster s arr n size) out (suc n) i ≡ arr (2048 + i)
  write_to_cluster-overrun big small d i lt = rw (written (omega arith) (suc n) d) (
      splice_head out 2048 (from (splice s.disk (cluster_at s n) size arr) (cluster_at s (suc n))) i
        (omega arith)
      ∙ splice_in s.disk (cluster_at s n) size arr (cluster_at s (suc n) + i)
          (omega (arith, c.lower)) (omega (arith, c.lower))
      ∙ ap arr (omega (arith, c.lower)))
