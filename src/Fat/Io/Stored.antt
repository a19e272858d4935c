-- ===== src/Fat/Io/Stored.antt =====
-- A text that is stored in a file of the root directory, as `fatOpen` and `fatRead` find it.
use pios_private.Base.{
  ℕ, suc, ◌+◌, ◌*◌, ◌≤◌, ◌<◌, ◌≡◌, ◌≢◌, refl, arith, some, List, [], ◌∷◌, map, length, ap, ◌∙◌,
  IsFirst, find_from-first,
}
use pios_private.Mem.{Bytes, from, get16}
use pios_private.Mem.Copy.{splice, splice_head}
use pios_private.Mem.Text.{IsText, TextAt-same}
use pios_private.Clib.{toupper}
use pios_private.Fat.State.{
  Fs, File, Locals, root_rde, attribute, file_size, cluster, fat_entry, num_sectors_per_fat,
}
use pios_private.Fat.Volume.Layout.{HasLayout, IsCluster}
use pios_private.Fat.Volume.Closed.{cluster_at, read_from_cluster-splice}
use pios_private.Fat.Volume.Load.{loaded}
use pios_private.Fat.Flush.{HasLayout-disk, flushed, flush-splice, flushed-cluster, loaded-table}
use pios_private.Fat.Cluster.{with_disk}
use pios_private.Fat.Names.Path.{NoSlash}
use pios_private.Fat.Open.{opened, fat_open}
use pios_private.Fat.Open.Find.{agrees, stands, IsFirst-stands}
use pios_private.Fat.Names.Entry.{entry_name}
use pios_private.Fat.Open.Root.{IsClean, open_first, fat_open-root}
use pios_private.Fat.Volume.{read_from_cluster}
use pios_private.Fat.Io.{fat_read}
use pios_private.Fat.Io.Settled.{loaded-IsLoaded, fat_read-one}

-- Entry `i` of the root directory is the first one that agrees with `ys`. It has a name, and is the
-- entry of a file, of one cluster, which holds the string `xs`.
pub record IsStored (s : Fs) (ys : List ℕ) (i : ℕ) (xs : List ℕ) : Type 0 where
  pub layout : HasLayout s
  pub first : IsFirst 512 0 (λ k. agrees ys (root_rde (loaded s) k)) i
  pub has_name : entry_name (root_rde (loaded s) i) ≢ []
  pub kind : attribute (root_rde (loaded s) i) ≡ 0x20
  pub size : file_size (root_rde (loaded s) i) ≡ suc (length xs)
  pub fits : length xs < 2048
  pub on_volume : IsCluster s (cluster (root_rde (loaded s) i))
  pub in_table : cluster (root_rde (loaded s) i) < 256 * num_sectors_per_fat s.bs
  pub last : 0xfff8 ≤ fat_entry (loaded s) (cluster (root_rde (loaded s) i))
  pub text : IsText (from s.disk (cluster_at s (cluster (root_rde (loaded s) i)))) xs

-- The state behind `fatOpen`.
abbrev pub reopened : Fs → Fs
reopened s = with_disk (loaded s) (flushed (loaded s))

module _ (s : Fs) (layout : HasLayout s) where
  pub reopened-HasLayout : HasLayout (reopened s)
  reopened-HasLayout =
      HasLayout-disk (loaded s) (flushed (loaded s)) (loaded-IsLoaded s layout).layout

  pub reopened-entry :
      (c : ℕ)
      → c < 256 * num_sectors_per_fat s.bs
      → fat_entry (loaded (reopened s)) c ≡ fat_entry (loaded s) c
  unfolding get16
  reopened-entry c lt =
      let h = loaded-IsLoaded s layout in
      let size : 512 * num_sectors_per_fat s.bs ≡ 512 * (loaded s).fat_table_size =
        unfold loaded in refl in
      ground (arith, loaded-table (loaded s) h (2 * c), loaded-table (loaded s) h (2 * c + 1), size)

  pub reopened-cluster :
      (c q : ℕ)
      → IsCluster s c
      → q < 2048
      → (reopened s).disk (cluster_at s c + q) ≡ s.disk (cluster_at s c + q)
  unfolding loaded
  reopened-cluster c q k lt =
      flushed-cluster (loaded s) (loaded-IsLoaded s layout) c q
        (record { lower = k.lower; upper = k.upper }) lt

  pub reopened-read :
      (arr : Bytes) (c q : ℕ)
      → IsCluster s c
      → q < 2048
      → read_from_cluster (loaded (reopened s)) arr c q ≡ s.disk (cluster_at s c + q)
  unfolding loaded
  reopened-read arr c q k lt =
      let u = loaded (reopened s) in
      rw (read_from_cluster-splice u arr c (record { lower = k.lower; upper = k.upper }))
        (splice_head arr 2048 (from u.disk (cluster_at u c)) q lt ∙ reopened-cluster c q k lt)

module _ (fuel : ℕ) (l : Locals) (fle : File) (filename : Bytes) (c : ℕ) (cs : List ℕ)
    (enough : 12 < fuel) (clean : IsClean l) (short : length cs < 10) (no_slash : NoSlash (c ∷ cs))
    (path : IsText filename (c ∷ cs)) where
  -- `fatOpen` of an entry that is the first one.
  pub fat_open-first :
      (s : Fs) (i : ℕ)
      → HasLayout s
      → IsFirst 512 0 (λ k. agrees (map toupper cs) (root_rde (loaded s) k)) i
      → entry_name (root_rde (loaded s) i) ≢ []
      → fat_open fuel l fle filename s
        ≡ some (0, opened s.root_entry (root_rde (loaded s) i), reopened s)
  unfolding open_first loaded
  fat_open-first s i layout first ne =
      fat_open-root fuel l fle filename c cs s enough clean short no_slash path layout
      ∙ ap (λ n. some (open_first l fle (loaded s) n))
          (find_from-first 512 0 (stands (map toupper cs) (root_rde (loaded s))) i
            (IsFirst-stands (map toupper cs) (root_rde (loaded s)) 512 i ne first))
      ∙ ap (λ t. some (0, opened s.root_entry (root_rde (loaded s) i), t))
          (flush-splice l (loaded s) (loaded-IsLoaded s layout))

  -- With fuel for a name and with the NULs in the scratch arrays: if the first entry of the root
  -- directory that agrees with a path of one part of at most 10 characters, from the second
  -- character on, has a name and is that of a file of one cluster that holds a string of fewer than 2048 characters
  -- and has the size of the string and its terminator, then fatOpen of the path returns 0 and a file
  -- with that attribute and size, and fatRead of that size returns a buffer that holds the string.
  pub fat_read-IsStored :
      (steps : ℕ) (l' : Locals) (s : Fs) (i : ℕ) (xs : List ℕ) (out : Bytes)
      → IsStored s (map toupper cs) i xs
      → (f : File) × (t : Fs) × (r : Bytes) × (u : Fs) × (fat_open fuel l fle filename s
          ≡ some (0, f, t))
        × (attribute f.rde ≡ 0x20)
        × (file_size f.rde ≡ suc (length xs))
        × (fat_read steps l' out f (suc (length xs)) t ≡ some (r, u))
        × IsText r xs
  fat_read-IsStored steps l' s i xs out h =
      let rde = root_rde (loaded s) i in
      let f = opened s.root_entry rde in
      let t = reopened s in
      let n = suc (length xs) in
      let arr = read_from_cluster (loaded t) l'.cluster_data (cluster rde) in
      (
        f,
        t,
        splice out 0 n arr,
        loaded t,
        fat_open-first s i h.layout h.first h.has_name,
        h.kind,
        h.size,
        fat_read-one steps l' t f n out (reopened-HasLayout s h.layout)
            (rw (reopened-entry s h.layout (cluster rde) h.in_table) h.last),
        TextAt-same (from s.disk (cluster_at s (cluster rde))) (splice out 0 n arr) xs 0 0
            (λ j lt.
              splice_head out n arr (0 + j) (omega arith)
              ∙ reopened-read s h.layout l'.cluster_data (cluster rde) (0 + j) h.on_volume
                  (omega (arith, h.fits)))
            h.text,
      )
