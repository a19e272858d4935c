-- ===== src/Fat/Io/Settled.antt =====
-- The state that `fatWrite` leaves behind, as the next `initFatStructs` and `fatRead` find it.
use pios_private.Base.{ℕ, ◌+◌, ◌*◌, ◌≤◌, ◌<◌, ◌≡◌, ◌≢◌, refl, arith, true, some, ap, ◌∙◌, leb}
use pios_private.Mem.{Bytes, from, get16}
use pios_private.Mem.Copy.{splice, splice_head, splice_above, for_to-write}
use pios_private.Str.{null_char_array}
use native.Mathlib.Decide.{ℕ_discrete}
use pios_private.Fat.State.{Fs, File, Locals, fat_entry}
use pios_private.Fat.Volume.{
  init_fat_structs, read_from_cluster, write_to_cluster, write_fat_table, write_root_directory,
}
use pios_private.Fat.Volume.Keeps.{Keeps, HasLayout-Keeps}
use pios_private.Fat.Volume.Layout.{table_start, HasLayout, IsLoaded, IsCluster}
use pios_private.Fat.Volume.Closed.{
  cluster_at, directory_at, read_from_cluster-splice, write_to_cluster-splice,
  write_fat_table-splice, write_root_directory-splice,
}
use pios_private.Fat.Volume.Load.{loaded, init_fat_structs-loaded}
use pios_private.Fat.Flush.{HasLayout-disk}
use pios_private.Fat.Cluster.{with_disk, IsCluster-disk}
use pios_private.Fat.Table.{fat_entry-set_entry}
use pios_private.Fat.Io.{clear_cluster, set_entry, fat_read}

table_start-Keeps : (s t : Fs) → Keeps s t → table_start t ≡ table_start s
unfolding table_start
table_start-Keeps s t k = rw k.bs refl

-- What `fatWrite` does after the last change of the tables and clusters.
unfoldable pub settled : Locals → Fs → Fs
settled l t = write_root_directory l (init_fat_structs (write_fat_table l t)).1

-- The disk image with the table, and the state that has been loaded from it.
abbrev with_table : Fs → Fs
with_table t =
    with_disk t (splice t.disk (512 * t.fat_table_start) (512 * t.fat_table_size) t.fat_table_chars)

-- The disk image at the end.
abbrev settled_disk : Fs → Bytes
settled_disk t =
    splice (with_table t).disk (512 * t.root_sector) 16384
      (loaded (with_table t)).root_directory_chars

module _ (t : Fs) (h : IsLoaded t) where
  with_table-HasLayout : HasLayout (with_table t)
  with_table-HasLayout = HasLayout-disk t _ h.layout

  pub settled-splice :
      (l : Locals) → settled l t ≡ with_disk (loaded (with_table t)) (settled_disk t)
  unfolding settled loaded splice
  settled-splice l =
      let keeps : Keeps (with_table t) (loaded (with_table t)) =
        unfold loaded in
        record { bs = refl; root_sector = refl; data_sector = refl; root_entries_size = refl } in
      rw (write_fat_table-splice l t h, init_fat_structs-loaded (with_table t) with_table-HasLayout)
        (write_root_directory-splice l (loaded (with_table t))
          (HasLayout-Keeps (with_table t) (loaded (with_table t)) keeps with_table-HasLayout))

  pub settled-Keeps : (l : Locals) → Keeps t (settled l t)
  unfolding loaded
  settled-Keeps l =
      rw (settled-splice l)
        (record { bs = refl; root_sector = refl; data_sector = refl; root_entries_size = refl })

  -- The table is on the disk image, and is what the next load reads.
  settled-table :
      (l : Locals) (j : ℕ)
      → j < 512 * t.fat_table_size
      → (loaded (settled l t)).fat_table_chars j ≡ t.fat_table_chars j
  unfolding loaded splice table_start
  settled-table l j lt = rw (settled-splice l) (ground (arith, h.start, h.size, h.layout.table))

  -- So is the root directory.
  pub settled-root :
      (l : Locals) (j : ℕ)
      → j < 16384
      → (loaded (settled l t)).root_directory_chars j ≡ t.disk (512 * t.root_sector + j)
  unfolding loaded splice
  settled-root l j lt = rw (settled-splice l) (ground (arith, h.start, h.size, h.layout.table))

  -- No cluster is touched.
  pub settled-cluster :
      (l : Locals) (n i : ℕ)
      → IsCluster t n
      → i < 2048
      → (settled l t).disk (cluster_at t n + i) ≡ t.disk (cluster_at t n + i)
  settled-cluster l n i c lt = rw (settled-splice l) (
      splice_above (with_table t).disk (512 * t.root_sector) 16384
        (loaded (with_table t)).root_directory_chars (cluster_at t n + i)
        (omega (arith, h.layout.clusters))
      ∙ splice_above t.disk (512 * t.fat_table_start) (512 * t.fat_table_size) t.fat_table_chars
          (cluster_at t n + i) (omega (arith, h.start, h.size, h.layout.table, h.layout.clusters)))

-- The state after both writes to the cluster, and after the directory has been written.
abbrev pub filled : Fs → ℕ → ℕ → Bytes → Bytes → Bytes
filled s c n zero_bytes buffer =
    splice (splice s.disk (cluster_at s c) 2048 zero_bytes) (cluster_at s c) n buffer

pub fill_lem :
    (l : Locals) (s : Fs) (c n : ℕ) (buffer : Bytes)
    → IsCluster s c
    → n < 1073741824
    → write_to_cluster (clear_cluster l s c) buffer c n
      ≡ with_disk s (filled s c n (null_char_array l.cluster_data 2048) buffer)
unfolding clear_cluster
fill_lem l s c n buffer k small =
    rw (write_to_cluster-splice s (null_char_array l.cluster_data 2048) c 2048 k (omega arith))
      (write_to_cluster-splice _ buffer c n (IsCluster-disk s c _ k) small)

module _ (s : Fs) (h : HasLayout s) where
  loaded-Keeps : Keeps s (loaded s)
  unfolding loaded
  loaded-Keeps = record {
    bs = refl;
    root_sector = refl;
    data_sector = refl;
    root_entries_size = refl;
  }

  pub loaded-IsLoaded : IsLoaded (loaded s)
  unfolding loaded table_start
  loaded-IsLoaded = record {
    layout = HasLayout-Keeps s (loaded s) loaded-Keeps h;
    start = refl;
    size = refl;
  }

-- The table entry and the directory are written to a loaded state.
abbrev pub marked : Fs → Bytes → ℕ → Fs
marked s d c = set_entry (with_disk s d) c 0xfff8

pub marked-IsLoaded : (s : Fs) (d : Bytes) (c : ℕ) → IsLoaded s → IsLoaded (marked s d c)
unfolding set_entry table_start
marked-IsLoaded s d c h = record {
  layout =
      HasLayout-Keeps s (marked s d c)
        (record { bs = refl; root_sector = refl; data_sector = refl; root_entries_size = refl })
        h.layout;
  start = h.start;
  size = h.size;
}

pub marked-IsCluster : (s : Fs) (d : Bytes) (c n : ℕ) → IsCluster s n → IsCluster (marked s d c) n
unfolding set_entry
marked-IsCluster s d c n k = record { lower = k.lower; upper = k.upper }

pub marked-entry : (s : Fs) (d : Bytes) (c : ℕ) → fat_entry (marked s d c) c ≡ 0xfff8
marked-entry s d c = ground (arith, fat_entry-set_entry (with_disk s d) c 0xfff8 c)

-- The directory of the file is not its cluster.
pub directory-apart :
    (s : Fs) (c p i : ℕ) (d rows : Bytes)
    → HasLayout s
    → IsCluster s c
    → (p ≢ 0 → IsCluster s p)
    → p ≢ c
    → i < 2048
    → splice d (directory_at s p) 2048 rows (cluster_at s c + i) ≡ d (cluster_at s c + i)
unfolding splice directory_at
directory-apart s c p i d rows h k parent ne lt = elim (ℕ_discrete p 0) [
  | yes e ↦ rw e (ground (arith, h.clusters))
  | no below ↦ let q = parent below in ground (arith, k.lower, q.lower)
]

module _ (l : Locals) (t : Fs) (h : IsLoaded t) (c : ℕ) (k : IsCluster t c)
    (in_table : c < 256 * t.fat_table_size) where
  -- The entry and the bytes of a cluster, as `fatRead` finds them after the end of `fatWrite`.
  pub settled-entry : fat_entry (loaded (settled l t)) c ≡ fat_entry t c
  unfolding get16
  settled-entry = ground (
    arith,
    settled-table t h l (2 * c) (omega arith),
    settled-table t h l (2 * c + 1) (omega arith),
  )

  pub settled-read :
      (arr : Bytes) (i : ℕ)
      → i < 2048
      → read_from_cluster (loaded (settled l t)) arr c i ≡ t.disk (cluster_at t c + i)
  unfolding loaded
  settled-read arr i lt =
      let keeps = settled-Keeps t h l in
      let u = loaded (settled l t) in
      let k' : IsCluster u c = record { lower = k.lower; upper = rw keeps.data_sector k.upper } in
      rw (read_from_cluster-splice u arr c k') (
        splice_head arr 2048 (from u.disk (cluster_at u c)) i lt
        ∙ rw keeps.data_sector (settled-cluster t h l c i k lt))

-- `fatRead` of a file of one cluster.
pub fat_read-one :
    (steps : ℕ) (l : Locals) (s : Fs) (fp : File) (n : ℕ) (out : Bytes)
    → HasLayout s
    → 0xfff8 ≤ fat_entry (loaded s) fp.start_cluster
    → fat_read steps l out fp n s
      ≡ some
          (splice out 0 n (read_from_cluster (loaded s) l.cluster_data fp.start_cluster), loaded s)
unfolding fat_read
fat_read-one steps l s fp n out layout last =
    let arr = read_from_cluster (loaded s) l.cluster_data fp.start_cluster in
    let ends : leb 0xfff8 (fat_entry (loaded s) fp.start_cluster) ≡ true = ground arith in
    rw (init_fat_structs-loaded s layout, ends)
      (ap (λ r. some (r, loaded s)) (for_to-write n out arr))

-- `fatRead` of a settled state.
pub read_settled :
    (steps : ℕ) (l : Locals) (t : Fs) (fp : File) (n : ℕ) (out : Bytes)
    → IsLoaded t
    → IsCluster t fp.start_cluster
    → fp.start_cluster < 256 * t.fat_table_size
    → 0xfff8 ≤ fat_entry t fp.start_cluster
    → n ≤ 2048
    → (r : Bytes) × (fat_read steps l out fp n (settled l t) ≡ some (r, loaded (settled l t)))
      × ((i : ℕ) → i < n → r i ≡ t.disk (cluster_at t fp.start_cluster + i))
read_settled steps l t fp n out h k in_table last small =
    let c = fp.start_cluster in
    let u = loaded (settled l t) in
    let arr = read_from_cluster u l.cluster_data c in
    let layout = HasLayout-Keeps t (settled l t) (settled-Keeps t h l) h.layout in
    (
      splice out 0 n arr,
      fat_read-one steps l (settled l t) fp n out layout
          (rw (settled-entry l t h c k in_table) last),
      λ i lt.
          splice_head out n arr i lt
          ∙ settled-read l t h c k in_table l.cluster_data i (omega arith),
    )
