-- ===== src/Fat/Create/Others.antt =====
-- What `fatCreate` leaves of the other files in the root directory.
use pios_private.Base.{
  ℕ, suc, ◌+◌, ◌≤◌, ◌<◌, ◌≡◌, ◌≢◌, refl, arith, Bool, false, some, List, ◌∷◌, map, length, ◌==◌,
  IsFirst, find_from-IsFirst, Bool-cases, inl, inr, ap, ◌∙◌, sym,
}
use native.Mathlib.Decide.{ℕ_discrete}
use pios_private.Mem.{Bytes, from}
use pios_private.Mem.Text.{IsText, TextAt-same}
use pios_private.Clib.{toupper}
use pios_private.Fat.State.{Fs, File, Locals, root_rde, cluster, file_size, fat_entry}
use pios_private.Fat.Volume.Layout.{HasLayout}
use pios_private.Fat.Volume.Closed.{cluster_at}
use pios_private.Fat.Volume.Load.{loaded}
use pios_private.Fat.Names.Entry.{rest}
use pios_private.Fat.Names.Path.{NoSlash}
use pios_private.Fat.Open.{fat_open}
use pios_private.Fat.Open.Find.{agrees, agrees_iff}
use pios_private.Fat.Open.Root.{IsClean}
use pios_private.Fat.Open.Same.{entry_name-same, agrees-same, fields-same}
use pios_private.Fat.Io.{fat_read}
use pios_private.Fat.Io.Stored.{IsStored, fat_read-IsStored}
use pios_private.Fat.Create.{fat_create}
use pios_private.Fat.Create.Entry.{IsPlain}
use pios_private.Fat.Create.File.{
  HasRoom, created, fat_create-created, created-HasLayout, created-Keeps, created-cluster,
  created-others, created-name, created-entry,
}

module _ (fuel : ℕ) (l : Locals) (filename : Bytes) (is_directory : Bool) (c : ℕ) (cs : List ℕ)
    (s : Fs) (i n : ℕ) (enough : 12 < fuel) (clean : IsClean l) (fits : length cs < 8)
    (no_slash : NoSlash (c ∷ cs)) (plain : IsPlain (c ∷ cs)) (text : IsText filename (c ∷ cs))
    (layout : HasLayout s) (room : HasRoom s (map toupper cs) i n) where
  abbrev new : Fs
  new =
      created fuel l filename is_directory c cs s i n enough clean fits no_slash plain text layout
        room

  new-others :
      (k j : ℕ) → k < 512 → k ≢ i → j < 32 → root_rde (loaded new) k j ≡ root_rde (loaded s) k j
  new-others =
      created-others fuel l filename is_directory c cs s i n enough clean fits no_slash plain text
        layout room

  -- The new entry has another name.
  new_name : (ys : List ℕ) → ys ≢ map toupper cs → agrees ys (root_rde (loaded new) i) ≡ false
  new_name ys ne =
      let e = ap rest (
        created-name fuel l filename is_directory c cs s i n enough clean fits no_slash plain text
          layout room) in
      elim (Bool-cases (agrees ys (root_rde (loaded new) i))) [
        | inl hit ↦ absurd (ne ((agrees_iff ys (root_rde (loaded new) i)).0 hit ∙ e))
        | inr miss ↦ miss
      ]

  IsFirst-kept :
      (ys : List ℕ) (j : ℕ)
      → ys ≢ map toupper cs
      → j ≢ i
      → IsFirst 512 0 (λ k. agrees ys (root_rde (loaded s) k)) j
      → IsFirst 512 0 (λ k. agrees ys (root_rde (loaded new) k)) j
  IsFirst-kept ys j ne other first =
      let same = λ (k : ℕ) (low : k < 512) (out : k ≢ i).
        agrees-same ys (root_rde (loaded new) k) (root_rde (loaded s) k)
          (λ q lt. new-others k q low out (omega arith)) in
      record {
        lower = omega arith;
        upper = first.upper;
        holds = same j first.upper other ∙ first.holds;
        before = λ k lo lt. elim (ℕ_discrete k i) [
          | yes e ↦ rw e (new_name ys ne)
          | no out ↦ same k (omega (arith, first.upper)) out ∙ first.before k lo lt
        ];
      }

  -- The cluster of a file is not free.
  not_free : (m : ℕ) → 0xfff8 ≤ fat_entry (loaded s) m → m ≢ n
  not_free m last e =
      let found =
        (find_from-IsFirst 8192 0 (λ k. fat_entry (loaded s) k == 0) n room.unallocated).holds in
      absurd (ground (arith, found, e, last))

  new-IsStored :
      (ys : List ℕ) (j : ℕ) (zs : List ℕ)
      → ys ≢ map toupper cs
      → j ≢ i
      → IsStored s ys j zs
      → IsStored new ys j zs
  new-IsStored ys j zs ne other h =
      let m = cluster (root_rde (loaded s) j) in
      let keeps =
        created-Keeps fuel l filename is_directory c cs s i n enough clean fits no_slash plain text
          layout room in
      let entry = λ (q : ℕ) (lt : q < 32). new-others j q h.first.upper other lt in
      let (size, same) = fields-same (root_rde (loaded new) j) (root_rde (loaded s) j) entry in
      let at : cluster_at new m ≡ cluster_at s m = rw keeps.data_sector refl in
      record {
        layout =
            created-HasLayout fuel l filename is_directory c cs s i n enough clean fits no_slash
              plain text layout room;
        first = IsFirst-kept ys j ne other h.first;
        has_name = λ e. h.has_name (
            sym (
              entry_name-same (root_rde (loaded new) j) (root_rde (loaded s) j)
                (λ q lt. entry q (omega arith)))
            ∙ e);
        kind = entry 11 (omega arith) ∙ h.kind;
        size = size ∙ h.size;
        fits = h.fits;
        on_volume =
            rw same (record {
              lower = h.on_volume.lower;
              upper = rw keeps.data_sector h.on_volume.upper;
            });
        in_table = rw (same, keeps.bs) h.in_table;
        last =
            rw
              (
                same,
                created-entry fuel l filename is_directory c cs s i n enough clean fits no_slash
                    plain text layout room m h.in_table (not_free m h.last),
              )
              h.last;
        text =
            rw (same, at)
              (TextAt-same (from s.disk (cluster_at s m)) (from new.disk (cluster_at s m)) zs 0 0
                (λ q lt.
                  created-cluster fuel l filename is_directory c cs s i n enough clean fits no_slash
                    plain text layout room m (0 + q) h.on_volume (omega (arith, h.fits)))
                h.text);
      }

  -- On a volume with a layout, with fuel for the names and the NULs in the scratch arrays, for a
  -- name of at most 8 characters without slashes, dots and blanks: if the search for the name in the
  -- root directory ends at a free entry among the first 32 and the first free cluster is one of the
  -- volume, with its entry in the table, then fatCreate returns 0. Another entry of the root
  -- directory that is the first to agree with a path of one part of at most 10 characters, has a
  -- name, and is that of a file of one cluster that holds a string, is then still opened by its path, if the
  -- capitals of the path and of the name differ behind the first character: it has the size of the
  -- string and its terminator, and fatRead of that size returns the string.
  pub fat_create-others :
      (j b : ℕ) (bs zs : List ℕ) (other out : Bytes) (l' : Locals) (fle : File) (steps : ℕ)
      → IsStored s (map toupper bs) j zs
      → map toupper bs ≢ map toupper cs
      → j ≢ i
      → IsText other (b ∷ bs)
      → NoSlash (b ∷ bs)
      → length bs < 10
      → IsClean l'
      → (u : Fs) × (g : File) × (v : Fs) × (r : Bytes) × (v' : Fs) × (fat_create fuel l filename
            is_directory s
          ≡ some (0, u))
        × (fat_open fuel l' fle other u ≡ some (0, g, v))
        × (file_size g.rde ≡ suc (length zs))
        × (fat_read steps l' out g (suc (length zs)) v ≡ some (r, v'))
        × IsText r zs
  fat_create-others j b bs zs other out l' fle steps stored ne apart named_other no_slash' brief
        clean' =
      let (g, v, r, v', opens, kind, size, reads, found) =
        fat_read-IsStored fuel l' fle other b bs enough clean' brief no_slash' named_other steps l'
          new j zs out (new-IsStored (map toupper bs) j zs ne apart stored) in
      (
        new,
        g,
        v,
        r,
        v',
        fat_create-created fuel l filename is_directory c cs s i n enough clean fits no_slash plain
            text layout room,
        opens,
        size,
        reads,
        found,
      )
