-- ===== src/Fat/Io/Root.antt =====
-- `fatWrite` of a file in the root directory: what the directory holds afterwards.
use pios_private.Base.{ℕ, ◌*◌, ◌<◌, ◌≡◌, refl, arith, some, ap, find_from}
use pios_private.Mem.{Bytes, from}
use pios_private.Mem.Copy.{splice}
use pios_private.Fat.State.{Fs, Locals, cluster}
use pios_private.Fat.Rows.Flat.{cut_rows-splice}
use pios_private.Fat.Volume.Layout.{HasLayout}
use pios_private.Fat.Volume.Closed.{directory_at, read_from_cluster-root, write_data_entries-splice}
use pios_private.Fat.Cluster.{with_disk}
use pios_private.Fat.Io.{write_file_length}
use pios_private.Fat.Io.Length.{IsCleanIo}
use pios_private.Fat.Io.Size.{short_rest, named, sized, filename-short_rest, set_length-sized}

-- What `writeFileLength` reads of the root directory: 32 of its entries, and behind them what its
-- array holds.
abbrev pub root_rows : Locals → Fs → Bytes
root_rows l s =
    splice l.entries 0 2048 (splice l.cluster_data 0 1024 (from s.disk (512 * s.root_sector)))

abbrev pub sized_rows : Locals → Fs → (rde : Bytes) → ℕ → Bytes
sized_rows l s rde size =
    let rows = root_rows l s in
    sized size rows (find_from 64 0 (λ k. named (short_rest rde) (from rows (32 * k))))

module _ (fuel : ℕ) (l : Locals) (enough : 12 < fuel) (clean : IsCleanIo l)
    (clear : l.path 1 ≡ 0) where
  pub write_file_length-root :
      (parent rde : Bytes) (size : ℕ) (s : Fs)
      → HasLayout s
      → cluster parent ≡ 0
      → write_file_length fuel l parent rde size s
        ≡ some (with_disk s (splice s.disk (512 * s.root_sector) 2048 (sized_rows l s rde size)))
  unfolding write_file_length directory_at
  write_file_length-root parent rde size s h root =
      let (rde_name, made, t) =
        filename-short_rest fuel l enough clean clear rde l.name clean.name in
      let rows = sized_rows l s rde size in
      let stored : splice s.disk (directory_at s (cluster parent)) 2048 rows
          ≡ splice s.disk (512 * s.root_sector) 2048 rows =
        rw root refl in
      rw
        (
          made,
          root,
          read_from_cluster-root s l.cluster_data h,
          cut_rows-splice 2048 32 l.entries
              (splice l.cluster_data 0 1024 (from s.disk (512 * s.root_sector))) (omega arith),
          set_length-sized fuel l enough clean clear rde_name (short_rest rde) size 64 0
              (root_rows l s) t,
          write_data_entries-splice l s parent rows h (λ ne. absurd (ne root)),
        )
        (ap (λ d. some (with_disk s d)) stored)
