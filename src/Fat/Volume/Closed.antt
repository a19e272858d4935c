-- ===== src/Fat/Volume/Closed.antt =====
-- The closed forms of the operations of the volume: each copies one region.
use pios_private.Base.{
  ℕ, ◌+◌, ◌-◌, ◌*◌, ◌≤◌, ◌<◌, ◌≡◌, ◌≢◌, arith, ap, ◌∙◌, if◌then◌else◌, ◌==◌, Bool-cases, inl, inr,
  ==→ne, ne→==,
}
use pios_private.Mem.{Bytes, from}
use pios_private.Mem.Copy.{splice, splice-splice_src}
use pios_private.Str.Copies.{char_arr_cpy_index-splice, char_arr_cpy_index_opp-splice}
use pios_private.Fat.State.{u32, Fs, Locals, cluster}
use pios_private.Fat.Rows.{pack_rows, flatten_rows}
use pios_private.Fat.Rows.Flat.{pack_rows-splice, flatten_rows-splice}
use pios_private.Fat.Volume.{
  store, cluster_offset, root_offset, read_from_cluster, write_to_cluster, write_root_directory,
  write_fat_table, write_data_entries,
}
use pios_private.Fat.Volume.Layout.{HasLayout, IsLoaded, IsCluster}

-- The offset of a cluster's first byte.
abbrev pub cluster_at : Fs → ℕ → ℕ
cluster_at s n = 512 * (s.data_sector + 4 * (n - 2))

store-splice :
    (s : Fs) (offset n : ℕ) (src : Bytes)
    → offset + n < 4294967296
    → store s offset n src ≡ record s { disk = splice s.disk offset n src }
unfolding store
store-splice s offset n src h =
    let stop : u32 (offset + n) ≡ offset + n = omega arith in
    let rest : offset + n - offset ≡ n = omega arith in
    rw (stop, char_arr_cpy_index_opp-splice s.disk src offset (offset + n) (omega arith), rest)

-- What the loops that write a table back hand to the copy.
packed :
    (d : Bytes) (at k m n w : ℕ) (ret buffer row entries : Bytes)
    → k ≤ w * m
    → k ≤ w * n
    → splice d at k (flatten_rows n w ret (pack_rows m w buffer row entries))
      ≡ splice d at k entries
packed d at k m n w ret buffer row entries a b =
    rw
      (
        flatten_rows-splice n w ret (pack_rows m w buffer row entries),
        splice-splice_src d at k (w * n) ret (pack_rows m w buffer row entries) b,
        pack_rows-splice m w buffer row entries,
      )
      (splice-splice_src d at k (w * m) buffer entries a)

-- The end of each function that writes a table back.
store_packed :
    (l : Locals) (s : Fs) (offset size m n w : ℕ) (entries : Bytes)
    → size ≤ w * m
    → offset + size < 4294967296
    → size ≤ w * n
    → store s offset size (flatten_rows n w l.ret_buff (pack_rows m w l.buffer l.row entries))
      ≡ record s { disk = splice s.disk offset size entries }
store_packed l s offset size m n w entries a small b =
    store-splice s offset size (flatten_rows n w l.ret_buff (pack_rows m w l.buffer l.row entries))
      small
    ∙ ap (λ d. record s { disk = d })
        (packed s.disk offset size m n w l.ret_buff l.buffer l.row entries a b)

pub cluster_offset_lem : (s : Fs) (n : ℕ) → IsCluster s n → cluster_offset s n ≡ cluster_at s n
unfolding cluster_offset
cluster_offset_lem s n c = omega arith

root_offset_lem : (s : Fs) → HasLayout s → root_offset s ≡ 512 * s.root_sector
unfolding root_offset
root_offset_lem s h = omega arith

pub write_root_directory-splice :
    (l : Locals) (s : Fs)
    → HasLayout s
    → write_root_directory l s
      ≡ record s { disk = splice s.disk (512 * s.root_sector) 16384 s.root_directory_chars }
unfolding write_root_directory
write_root_directory-splice l s h = rw (root_offset_lem s h) (
    store_packed l s (512 * s.root_sector) 16384 _ _ 32 s.root_directory_chars
      (omega (arith, h.entries)) (omega (arith, h.clusters, h.on_disk)) (omega (arith, h.entries)))

pub write_fat_table-splice :
    (l : Locals) (s : Fs)
    → IsLoaded s
    → write_fat_table l s ≡ record s {
      disk = splice s.disk (512 * s.fat_table_start) (512 * s.fat_table_size) s.fat_table_chars;
    }
unfolding write_fat_table
write_fat_table-splice l s h =
    let at : u32 (s.fat_table_start * 512) ≡ 512 * s.fat_table_start = omega arith in
    let size : s.fat_table_size * 512 ≡ 512 * s.fat_table_size = omega arith in
    rw (at, size)
      (store_packed l s (512 * s.fat_table_start) (512 * s.fat_table_size) _ _ 2 s.fat_table_chars
        (omega arith) (omega arith) (omega arith))

-- Where the entries of a directory with that cluster stand.
unfoldable pub directory_at : Fs → ℕ → ℕ
directory_at s n = if n == 0 then 512 * s.root_sector else cluster_at s n

-- On a volume with a layout, writing a directory back puts its 64 entries, 2048 bytes, where the
-- directory stands: over the first entries of the root directory if the parent's cluster is 0,
-- and over the parent's cluster otherwise, which must lie on the volume. Nothing else changes.
pub write_data_entries-splice :
    (l : Locals) (s : Fs) (parent entries : Bytes)
    → HasLayout s
    → (cluster parent ≢ 0 → IsCluster s (cluster parent))
    → write_data_entries l s parent entries
      ≡ record s { disk = splice s.disk (directory_at s (cluster parent)) 2048 entries }
unfolding write_data_entries directory_at
write_data_entries-splice l s parent entries h c = elim (Bool-cases (cluster parent == 0)) [
  | inl root ↦
      rw (root, root_offset_lem s h)
        (store_packed l s (512 * s.root_sector) 2048 64 64 32 entries (omega arith)
          (omega (arith, h.clusters, h.on_disk)) (omega arith))
  | inr below ↦
      let k = c (==→ne _ 0 below) in
      rw (below, cluster_offset_lem s (cluster parent) k)
        (store_packed l s (cluster_at s (cluster parent)) 2048 64 64 32 entries (omega arith)
          (omega (arith, k.upper)) (omega arith))
]

pub write_to_cluster-splice :
    (s : Fs) (arr : Bytes) (n size : ℕ)
    → IsCluster s n
    → size < 1073741824
    → write_to_cluster s arr n size ≡ record s { disk = splice s.disk (cluster_at s n) size arr }
unfolding write_to_cluster
write_to_cluster-splice s arr n size c small =
    rw (cluster_offset_lem s n c) (store-splice s (cluster_at s n) size arr (omega arith))

pub read_from_cluster-splice :
    (s : Fs) (arr : Bytes) (n : ℕ)
    → IsCluster s n
    → read_from_cluster s arr n ≡ splice arr 0 2048 (from s.disk (cluster_at s n))
unfolding read_from_cluster
read_from_cluster-splice s arr n c =
    let e : u32 (cluster_at s n + 2048) ≡ cluster_at s n + 2048 = omega arith in
    let d : cluster_at s n + 2048 - cluster_at s n ≡ 2048 = omega arith in
    rw (
      ne→== n 0 (omega (arith, c.lower)),
      cluster_offset_lem s n c,
      e,
      char_arr_cpy_index-splice arr s.disk (cluster_at s n) (cluster_at s n + 2048) (omega arith),
      d,
    )

-- On a volume with a layout, reading cluster 0 copies the first 1024 bytes of the root directory,
-- which are 32 entries, and leaves what the array holds behind them.
pub read_from_cluster-root :
    (s : Fs) (arr : Bytes)
    → HasLayout s
    → read_from_cluster s arr 0 ≡ splice arr 0 1024 (from s.disk (512 * s.root_sector))
unfolding read_from_cluster
read_from_cluster-root s arr h =
    let at = 512 * s.root_sector in
    let e : u32 (at + s.root_entries_size * 32) ≡ at + 1024 = omega arith in
    let d : at + 1024 - at ≡ 1024 = omega arith in
    rw
      (root_offset_lem s h, e, char_arr_cpy_index-splice arr s.disk at (at + 1024) (omega arith), d)
