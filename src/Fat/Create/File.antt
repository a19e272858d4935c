-- ===== src/Fat/Create/File.antt =====
-- What `fatCreate` has made in the root directory is a file that can be written.
use pios_private.Base.{
  ℕ, suc, ◌+◌, ◌*◌, ◌<◌, ◌≡◌, ◌≢◌, refl, arith, Bool, true, false, some, List, ◌∷◌, map, length,
  ◌==◌, if◌then◌else◌, find_from, IsFirst, find_from-first, lt→ltb, ap, ◌∙◌, sym,
}
use pios_private.Mem.{Bytes, get16, put16, write}
use pios_private.Mem.Text.{IsText}
use pios_private.Clib.{toupper}
use pios_private.Fat.State.{
  Fs, Locals, root_rde, attribute, cluster, fat_entry, num_sectors_per_fat,
}
use pios_private.Fat.Volume.Layout.{HasLayout, IsLoaded, IsCluster}
use pios_private.Fat.Volume.Load.{loaded}
use pios_private.Fat.Io.Settled.{loaded-IsLoaded}
use pios_private.Fat.Io.RootFile.{IsRootFile}
use pios_private.Fat.Flush.{HasLayout-disk, flushed, flush-splice, flushed-cluster, loaded-table}
use pios_private.Fat.Volume.Closed.{cluster_at}
use pios_private.Fat.Names.Path.{NoSlash}
use pios_private.Fat.Names.Entry.{entry_name}
use pios_private.Fat.Open.{opened}
use pios_private.Fat.Open.Find.{agrees}
use pios_private.Fat.Volume.Keeps.{Keeps}
use pios_private.Clib.Letters.{toupper_zero}
use pios_private.Fat.Open.Root.{IsClean}
use pios_private.Fat.Create.{free, taken, split_name, allocate, make_root_entry, fat_create}
use pios_private.Fat.Create.Entry.{IsPlain, split_name-plain, fill_entry-name}
use pios_private.Fat.Create.Root.{is_blank, stops, slot_at, create_at, fat_create-root}
use pios_private.Fat.Create.RoundTrip.{
  made, made-IsLoaded, now, again, again-root, again-others, again-name, again-entry, after,
  after-IsFirst,
}

-- The search for a free entry of the root directory, for a name that has `ys` behind its first
-- character, ends at entry `i`, one of the first 32, which is free, and the first free cluster is `n`,
-- a cluster of the volume.
pub record HasRoom (s : Fs) (ys : List ℕ) (i n : ℕ) : Type 0 where
  pub first : IsFirst 512 0 (λ k. stops ys (root_rde (loaded s) k)) i
  pub low : i < 32
  pub blank : is_blank (root_rde (loaded s) i) ≡ true
  pub unallocated : find_from 8192 0 (λ k. fat_entry (loaded s) k == 0) ≡ some n
  pub on_volume : IsCluster s n
  pub in_table : n < 256 * num_sectors_per_fat s.bs

module _ (fuel : ℕ) (l : Locals) (filename : Bytes) (is_directory : Bool) (c : ℕ) (cs : List ℕ)
    (s : Fs) (i n : ℕ) (enough : 12 < fuel) (clean : IsClean l) (fits : length cs < 8)
    (no_slash : NoSlash (c ∷ cs)) (plain : IsPlain (c ∷ cs)) (text : IsText filename (c ∷ cs))
    (layout : HasLayout s) (room : HasRoom s (map toupper cs) i n) where
  loads : IsLoaded (loaded s)
  loads = loaded-IsLoaded s layout

  before : Fs
  before =
      now l filename (c ∷ cs) is_directory (loaded s) i loads text plain (omega arith)
        room.first.upper

  -- The state behind.
  pub created : Fs
  created = record before { disk = flushed before }

  pub fat_create-created : fat_create fuel l filename is_directory s ≡ some (0, created)
  unfolding created before now made make_root_entry create_at slot_at
  fat_create-created =
      let keeps = made-IsLoaded l filename (suc (length cs)) is_directory (loaded s) i loads in
      let stop =
        find_from-first 512 0 (λ k. stops (map toupper cs) (root_rde (loaded s) k)) i room.first in
      fat_create-root fuel l filename is_directory c cs s enough clean (omega arith) no_slash text
        layout
      ∙ ap
          (λ n.
            create_at l filename (suc (length cs)) is_directory (loaded s)
              (slot_at (root_rde (loaded s)) n))
          stop
      ∙ ap
          (λ b.
            create_at l filename (suc (length cs)) is_directory (loaded s)
              (if b then free i else taken i))
          room.blank
      ∙ ap (λ t. some (0, t)) (flush-splice l before keeps)

  pub created-root_entry : created.root_entry ≡ s.root_entry
  unfolding created before now made loaded
  created-root_entry = refl

  -- The fields of the entry, as the next load finds it.
  pub made_fields :
      (attribute (root_rde (loaded created) i) ≡ (if is_directory then 0x10 else 0x20))
      × (cluster (root_rde (loaded created) i) ≡ n)
  unfolding created before again
  made_fields =
      let (kind, size, start) =
        again-entry l filename (c ∷ cs) is_directory (loaded s) i loads text plain (omega arith)
          room.first.upper in
      (kind, start n room.unallocated)

  pub made-IsFirst : IsFirst 512 0 (λ k. agrees (map toupper cs) (root_rde (loaded created) k)) i
  unfolding created before again after loads
  made-IsFirst =
      after-IsFirst fuel l (opened s.root_entry s.root_entry) filename is_directory c cs s i enough
        clean fits no_slash plain text layout room.first

  made_used : root_rde (loaded created) i 0 ≢ 0
  unfolding created before again now made
  made_used e =
      let (name, ext) = split_name l filename (suc (length cs)) in
      let (base, no_ext) = split_name-plain l (c ∷ cs) filename text plain (omega arith) in
      let stored =
        again-root l filename (c ∷ cs) is_directory (loaded s) i loads text plain (omega arith)
          room.first.upper i 0 room.first.upper (omega arith)
        ∙ fill_entry-name (loaded s).root_directory_chars (32 * i) name ext is_directory
            (allocate (loaded s)).0 0 (omega arith)
        ∙ base 0 (omega arith)
        ∙ rw (lt→ltb 0 (suc (length cs)) (omega arith), text.0) refl in
      toupper_zero c text.1 (sym stored ∙ e)

  -- The table, in which the cluster ends its chain.
  allocated : (allocate (loaded s)).1 ≡ put16 (loaded s).fat_table_chars (2 * n) 0xfff8
  unfolding allocate
  allocated = rw (allocate, room.unallocated) refl

  made_last : fat_entry (loaded created) n ≡ 0xfff8
  unfolding created before now made get16 put16 write
  made_last =
      let keeps = made-IsLoaded l filename (suc (length cs)) is_directory (loaded s) i loads in
      let table = loaded-table before keeps in
      let size : 512 * num_sectors_per_fat s.bs ≡ 512 * (loaded s).fat_table_size =
        unfold loaded in refl in
      rw
        (
          table (2 * n) (omega (arith, room.in_table, size)),
          table (2 * n + 1) (omega (arith, room.in_table, size)),
          allocated,
        )
        (ground arith)

  pub created-HasLayout : HasLayout created
  unfolding created before now
  created-HasLayout =
      HasLayout-disk before (flushed before)
        (made-IsLoaded l filename (suc (length cs)) is_directory (loaded s) i loads).layout

  pub created-Keeps : Keeps s created
  unfolding created before now made loaded
  created-Keeps = record {
    bs = refl;
    root_sector = refl;
    data_sector = refl;
    root_entries_size = refl;
  }

  pub created-name : entry_name (root_rde (loaded created) i) ≡ map toupper (c ∷ cs)
  unfolding created before again
  created-name =
      again-name l filename (c ∷ cs) is_directory (loaded s) i loads text plain (omega arith)
        room.first.upper

  pub created-IsRootFile : is_directory ≡ false → IsRootFile created (map toupper cs) i
  created-IsRootFile file =
      let same = made_fields.1 in
      record {
        layout = created-HasLayout;
        first = made-IsFirst;
        has_name = λ e. absurd (ground (arith, e, created-name));
        low = room.low;
        used = made_used;
        kind = made_fields.0 ∙ rw file refl;
        on_volume = rw same (record {
          lower = room.on_volume.lower;
          upper = rw created-Keeps.data_sector room.on_volume.upper;
        });
        in_table = rw (same, created-Keeps.bs) room.in_table;
        last = rw (same, made_last) (omega arith);
      }

  -- No cluster is touched.
  pub created-cluster :
      (m q : ℕ)
      → IsCluster s m
      → q < 2048
      → created.disk (cluster_at s m + q) ≡ s.disk (cluster_at s m + q)
  unfolding created before now made loaded
  created-cluster m q k lt =
      flushed-cluster before
        (made-IsLoaded l filename (suc (length cs)) is_directory (loaded s) i loads) m q
        (record { lower = k.lower; upper = k.upper }) lt

  -- The other entries, the name of the new one, and the other entries of the table.
  pub created-others :
      (k j : ℕ) → k < 512 → k ≢ i → j < 32 → root_rde (loaded created) k j ≡ root_rde (loaded s) k j
  unfolding created before again
  created-others k j =
      again-others l filename (c ∷ cs) is_directory (loaded s) i loads text plain (omega arith)
        room.first.upper k j

  pub created-entry :
      (m : ℕ)
      → m < 256 * num_sectors_per_fat s.bs
      → m ≢ n
      → fat_entry (loaded created) m ≡ fat_entry (loaded s) m
  unfolding created before now made get16 put16 write
  created-entry m lt ne =
      let keeps = made-IsLoaded l filename (suc (length cs)) is_directory (loaded s) i loads in
      let table = loaded-table before keeps in
      let size : 512 * num_sectors_per_fat s.bs ≡ 512 * (loaded s).fat_table_size =
        unfold loaded in refl in
      rw
        (
          table (2 * m) (omega (arith, lt, size)),
          table (2 * m + 1) (omega (arith, lt, size)),
          allocated,
        )
        (ground arith)
