-- ===== src/Fat/Io/Read.antt =====
-- `fatRead` of a file of several clusters.
use pios_private.Base.{
  ℕ, zero, suc, ◌+◌, ◌-◌, ◌*◌, ◌≤◌, ◌<◌, ◌≡◌, refl, arith, true, false, some, List, [], ◌∷◌, length,
  ◌==◌, ltb, leb, if◌then◌else◌, ne→==, lt→ltb, le→ltb, fun_ext, ap, ◌∙◌, sym,
}
use native.Mathlib.Decide.{dec_lt, ℕ_discrete}
use native.Mathlib.Nat.{add-zero, zero-add}
use pios_private.Mem.{Bytes, from, write}
use pios_private.Mem.Copy.{splice, splice_head, splice-write}
use pios_private.Fat.State.{Fs, File, Locals, fat_entry}
use pios_private.Fat.Volume.Layout.{HasLayout, IsCluster}
use pios_private.Fat.Volume.Closed.{cluster_at, read_from_cluster-splice}
use pios_private.Fat.Volume.Load.{loaded, init_fat_structs-loaded}
use pios_private.Fat.Volume.{read_from_cluster}
use pios_private.Fat.Io.{take_bytes, read_chain, fat_read}
use pios_private.Fat.Io.Settled.{fat_read-one}

splice_none : (b : Bytes) (i : ℕ) (src : Bytes) → splice b i 0 src ≡ b
unfolding splice
splice_none b i src = fun_ext λ j. ground arith

-- The loop over the bytes of a cluster, if the buffer has room for them, and if it has not.
take_bytes-room :
    (len : ℕ) (arr : Bytes) (n i index : ℕ) (buffer : Bytes)
    → index + n ≤ len
    → take_bytes len arr n i index buffer ≡ (false, index + n, splice buffer index n (from arr i))
unfolding take_bytes
take_bytes-room len arr zero i index buffer le =
    rw (add-zero index) (ap (λ b. (false, index, b)) (sym (splice_none buffer index (from arr i))))
take_bytes-room len arr (suc n) i index buffer le =
    let e : suc index + n ≡ index + suc n = omega arith in
    rw (ne→== index len (omega arith)) (
      take_bytes-room len arr n (suc i) (suc index) (write buffer index (arr i)) (omega arith)
      ∙ rw (e, splice-write buffer arr index i n) refl)

take_bytes-full :
    (len : ℕ) (arr : Bytes) (n i index : ℕ) (buffer : Bytes)
    → index ≤ len
    → len < index + n
    → take_bytes len arr n i index buffer
      ≡ (true, len, splice buffer index (len - index) (from arr i))
unfolding take_bytes
take_bytes-full len arr zero i index buffer le lt = absurd (omega arith)
take_bytes-full len arr (suc n) i index buffer le lt = elim (ℕ_discrete index len) [
  | yes e ↦
      let same : (index == len) ≡ true = ground arith in
      let none_left : len - index ≡ 0 = omega arith in
      rw (same, none_left, splice_none buffer index (from arr i)) (ap (λ p. (true, p, buffer)) e)
  | no ne ↦
      let step : len - index ≡ suc (len - suc index) = omega arith in
      rw (ne→== index len ne) (
        take_bytes-full len arr n (suc i) (suc index) (write buffer index (arr i)) (omega arith)
          (omega arith)
        ∙ rw (step, splice-write buffer arr index i (len - suc index)) refl)
]

from_zero : (arr : Bytes) → from arr 0 ≡ arr
from_zero arr = fun_ext λ j. ap arr (zero-add j)

cluster-room :
    (len : ℕ) (arr : Bytes) (index : ℕ) (buffer : Bytes)
    → index + 2048 ≤ len
    → take_bytes len arr 2048 0 index buffer ≡ (false, index + 2048, splice buffer index 2048 arr)
cluster-room len arr index buffer le =
    take_bytes-room len arr 2048 0 index buffer le
    ∙ ap (λ b. (false, index + 2048, splice buffer index 2048 b)) (from_zero arr)

cluster-full :
    (len : ℕ) (arr : Bytes) (index : ℕ) (buffer : Bytes)
    → index ≤ len
    → len < index + 2048
    → take_bytes len arr 2048 0 index buffer ≡ (true, len, splice buffer index (len - index) arr)
cluster-full len arr index buffer le lt =
    take_bytes-full len arr 2048 0 index buffer le lt
    ∙ ap (λ b. (true, len, splice buffer index (len - index) b)) (from_zero arr)

-- The clusters `c ∷ ds` of the volume are a chain.
abbrev pub IsChain : Fs → ℕ → List ℕ → Type 0
IsChain s c [] = IsCluster s c × (0xfff8 ≤ fat_entry s c)
IsChain s c (d ∷ ds) = IsCluster s c × (fat_entry s c ≡ d) × (d < 0xfff8) × IsChain s d ds

-- Their bytes, one cluster after the other.
unfoldable pub chain_bytes : Fs → ℕ → List ℕ → Bytes
chain_bytes s c [] j = s.disk (cluster_at s c + j)
chain_bytes s c (d ∷ ds) j =
    let later = chain_bytes s d ds (j - 2048) in
    if ltb j 2048 then s.disk (cluster_at s c + j) else later

splice-same :
    (b : Bytes) (i m : ℕ) (src src' : Bytes)
    → ((j : ℕ) → j < m → src j ≡ src' j)
    → splice b i m src ≡ splice b i m src'
unfolding splice
splice-same b i m src src' same = fun_ext λ j. elim (dec_lt (j - i) m) [
  | yes inside ↦ let e = same (j - i) inside in ground arith
  | no behind ↦ ground arith
]

-- What is read of the first cluster.
first_bytes :
    (l : Locals) (s : Fs) (c : ℕ) (ds : List ℕ) (j : ℕ)
    → IsCluster s c
    → j < 2048
    → read_from_cluster s l.cluster_data c j ≡ chain_bytes s c ds j
unfolding chain_bytes
first_bytes l s c [] j k lt =
    rw (read_from_cluster-splice s l.cluster_data c k)
      (splice_head l.cluster_data 2048 (from s.disk (cluster_at s c)) j lt)
first_bytes l s c (d ∷ ds) j k lt =
    rw (read_from_cluster-splice s l.cluster_data c k, lt→ltb j 2048 lt)
      (splice_head l.cluster_data 2048 (from s.disk (cluster_at s c)) j lt)

-- A copy of the bytes of a cluster and then of those of the others.
next_bytes :
    (l : Locals) (s : Fs) (c d : ℕ) (ds : List ℕ) (b : Bytes) (index n : ℕ)
    → IsCluster s c
    → splice
        (splice b index 2048 (read_from_cluster s l.cluster_data c))
        (index + 2048)
        n
        (chain_bytes s d ds)
      ≡ splice b index (2048 + n) (chain_bytes s c (d ∷ ds))
unfolding splice chain_bytes
next_bytes l s c d ds b index n k = fun_ext λ j. elim (dec_lt (j - index) 2048) [
  | yes inside ↦
      let e : read_from_cluster s l.cluster_data c (j - index)
          ≡ s.disk (cluster_at s c + (j - index)) =
        rw (read_from_cluster-splice s l.cluster_data c k)
          (splice_head l.cluster_data 2048 (from s.disk (cluster_at s c)) (j - index) inside) in
      ground (arith, e)
  | no behind ↦ let e : j - (index + 2048) ≡ j - index - 2048 = omega arith in ground (arith, e)
]

read_chain-chain_bytes :
    (l : Locals) (s : Fs) (len steps c : ℕ) (ds : List ℕ) (index : ℕ) (buffer : Bytes)
    → IsChain s c ds
    → length ds < steps
    → index ≤ len
    → len ≤ index + 2048 * suc (length ds)
    → read_chain l s len steps c index buffer
      ≡ some (splice buffer index (len - index) (chain_bytes s c ds))
unfolding read_chain
read_chain-chain_bytes l s len zero c ds index buffer chain lt le fits = absurd (omega arith)
read_chain-chain_bytes l s len (suc steps) c [] index buffer chain lt le fits =
    let arr = read_from_cluster s l.cluster_data c in
    let same =
      splice-same buffer index (len - index) arr (chain_bytes s c [])
        (λ j within. first_bytes l s c [] j chain.0 (omega arith)) in
    elim (dec_lt len (index + 2048)) [
      | yes inside ↦
          rw (le→ltb (fat_entry s c) 0xfff8 chain.1, cluster-full len arr index buffer le inside)
            (ap some same)
      | no whole ↦
          let all : len - index ≡ 2048 = omega arith in
          rw
            (le→ltb (fat_entry s c) 0xfff8 chain.1, cluster-room len arr index buffer (omega arith))
            (ap (λ n. some (splice buffer index n arr)) (sym all) ∙ ap some same)
    ]
read_chain-chain_bytes l s len (suc steps) c (d ∷ ds) index buffer chain lt le fits =
    let arr = read_from_cluster s l.cluster_data c in
    let goes_on : ltb (fat_entry s c) 0xfff8 ≡ true = rw chain.1 (lt→ltb d 0xfff8 chain.2) in
    elim (dec_lt len (index + 2048)) [
      | yes inside ↦
          rw (goes_on, cluster-full len arr index buffer le inside)
            (ap some (
              splice-same buffer index (len - index) arr (chain_bytes s c (d ∷ ds))
                (λ j within. first_bytes l s c (d ∷ ds) j chain.0 (omega arith))))
      | no behind ↦
          let size : 2048 + (len - (index + 2048)) ≡ len - index = omega arith in
          rw (goes_on, cluster-room len arr index buffer (omega arith), chain.1)
            (read_chain-chain_bytes l s len steps d ds (index + 2048) (splice buffer index 2048 arr)
                chain.3 (omega arith) (omega arith) (omega arith)
              ∙ ap some (
                  next_bytes l s c d ds buffer index (len - (index + 2048)) chain.0
                  ∙ ap (λ n. splice buffer index n (chain_bytes s c (d ∷ ds))) size))
    ]

-- On a volume with a layout, for a file whose clusters, all of the volume, are linked in the table
-- to a chain that ends: with steps for them, fatRead of at most as many bytes as they hold
-- returns, and the buffer has that many bytes of the clusters, one cluster after the other, and
-- behind them what it had.
pub fat_read-chain_bytes :
    (steps : ℕ) (l : Locals) (s : Fs) (fp : File) (ds : List ℕ) (n : ℕ) (out : Bytes)
    → HasLayout s
    → IsChain (loaded s) fp.start_cluster ds
    → length ds < steps
    → n ≤ 2048 * suc (length ds)
    → fat_read steps l out fp n s
      ≡ some (splice out 0 n (chain_bytes (loaded s) fp.start_cluster ds), loaded s)
unfolding fat_read
fat_read-chain_bytes steps l s fp [] n out layout chain lt fits =
    let c = fp.start_cluster in
    fat_read-one steps l s fp n out layout chain.1
    ∙ ap (λ b. some (b, loaded s))
        (splice-same out 0 n (read_from_cluster (loaded s) l.cluster_data c)
          (chain_bytes (loaded s) c [])
          (λ j within. first_bytes l (loaded s) c [] j chain.0 (omega arith)))
fat_read-chain_bytes steps l s fp (d ∷ ds) n out layout chain lt fits =
    let goes_on : leb 0xfff8 (fat_entry (loaded s) fp.start_cluster) ≡ false =
      let below = chain.2 in rw chain.1 (ground (arith, below)) in
    let whole : n - 0 ≡ n = omega arith in
    rw
      (
        init_fat_structs-loaded s layout,
        goes_on,
        read_chain-chain_bytes l (loaded s) n steps fp.start_cluster (d ∷ ds) 0 out chain lt
            (omega arith) (omega arith),
        whole,
      )
      refl
