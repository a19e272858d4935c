-- ===== src/Fat/Io/ByName.antt =====
-- `fatOpen` of a file in the root directory, followed by `fatWrite`.
use pios_private.Base.{ℕ, suc, ◌<◌, ◌≡◌, ◌≢◌, some, List, ◌∷◌, map, length, length-map, sym}
use pios_private.Mem.{Bytes}
use pios_private.Mem.Text.{IsText}
use pios_private.Clib.{toupper}
use pios_private.Fat.State.{Fs, File, Locals, root_rde, attribute, cluster, file_size}
use pios_private.Fat.Volume.Load.{loaded}
use pios_private.Fat.Names.Path.{NoSlash}
use pios_private.Fat.Open.{opened, fat_open}
use pios_private.Fat.Open.Root.{IsClean}
use pios_private.Fat.Io.{started, fat_write, fat_read}
use pios_private.Fat.Io.Length.{IsCleanIo}
use pios_private.Fat.Io.Stored.{IsStored, reopened, fat_open-first, fat_read-IsStored}
use pios_private.Fat.Io.RootFile.{IsRootFile, RootWrite}
use pios_private.Fat.Io.Written.{after_write, fat_write-root}
use pios_private.Fat.Io.After.{after-IsStored, after-others}
use pios_private.Fat.Io.Reopened.{
  reopened-root, reopened-fields, reopened-IsRootFile, reopened-IsStored,
}

module _ (fuel steps : ℕ) (l : Locals) (fle : File) (filename buffer : Bytes) (c : ℕ)
    (cs xs : List ℕ) (enough : 12 < fuel) (long : length xs < fuel) (clean : IsClean l)
    (clean_io : IsCleanIo l) (short : length cs < 10) (no_slash : NoSlash (c ∷ cs))
    (path : IsText filename (c ∷ cs)) (text : IsText buffer xs) (small : length xs < 2047) where
  -- The write behind `fatOpen`.
  write_by :
      (s : Fs) (i : ℕ) → IsRootFile s (map toupper cs) i → cluster s.root_entry ≡ 0 → RootWrite
  write_by s i h root = record {
    l = l;
    s = reopened s;
    ys = map toupper cs;
    i = i;
    h = reopened-IsRootFile s h.layout (map toupper cs) i h;
    short = rw (length-map toupper cs) short;
    parent = s.root_entry;
    rde = root_rde (loaded s) i;
    root = root;
    same = λ j lt. sym (reopened-root s h.layout i j h.first.upper lt);
    buffer = buffer;
    xs = xs;
    small = small;
  }

  -- `fatOpen`, and then `fatWrite`.
  open_write :
      (s : Fs) (i : ℕ) (h : IsRootFile s (map toupper cs) i) (root : cluster s.root_entry ≡ 0)
      → let f = opened s.root_entry (root_rde (loaded s) i) in
        (fat_open fuel l fle filename s ≡ some (0, f, reopened s))
        × (attribute f.rde ≡ 0x20)
        × (fat_write fuel (suc steps) l f buffer (reopened s)
            ≡ some (0, started f f.start_cluster, after_write (write_by s i h root)))
  unfolding write_by
  open_write s i h root = (
    fat_open-first fuel l fle filename c cs enough clean short no_slash path s i h.layout h.first
        h.has_name,
    h.kind,
    fat_write-root (write_by s i h root) fuel steps enough long clean_io clean.path text,
  )

  -- The text is then stored in the file.
  pub fat_write-IsStored :
      (s : Fs) (i : ℕ)
      → IsRootFile s (map toupper cs) i
      → cluster s.root_entry ≡ 0
      → (f : File) × (t : Fs) × (f' : File) × (u : Fs) × (fat_open fuel l fle filename s
          ≡ some (0, f, t))
        × (attribute f.rde ≡ 0x20)
        × (fat_write fuel (suc steps) l f buffer t ≡ some (0, f', u))
        × IsStored u (map toupper cs) i xs
  unfolding write_by
  fat_write-IsStored s i h root =
      let f = opened s.root_entry (root_rde (loaded s) i) in
      let w = write_by s i h root in
      let (opens, kind, writes) = open_write s i h root in
      (
        f,
        reopened s,
        started f f.start_cluster,
        after_write w,
        opens,
        kind,
        writes,
        after-IsStored w text,
      )

  -- On a volume with a layout, with fuel for a name and for the text, and with the NULs in the
  -- scratch arrays: a file of one cluster, whose entry is one of the first 32 of the root directory,
  -- in use with a name, and the first that agrees with a path of one part of at most 10 characters from its
  -- second character on, is opened by fatOpen, and fatWrite of a text of fewer than 2047 characters
  -- to it returns 0; the structure that stands for the root directory has cluster 0. Another such
  -- file that holds a string, with another entry and another cluster, is then still opened by its
  -- own path, has the size of the string and its terminator, and fatRead of that size returns the
  -- string.
  pub fat_write-others :
      (s : Fs) (i j b : ℕ) (bs zs : List ℕ) (other out : Bytes) (l' : Locals)
      → IsRootFile s (map toupper cs) i
      → cluster s.root_entry ≡ 0
      → IsStored s (map toupper bs) j zs
      → j < 32
      → j ≢ i
      → cluster (root_rde (loaded s) j) ≢ cluster (root_rde (loaded s) i)
      → IsText other (b ∷ bs)
      → NoSlash (b ∷ bs)
      → length bs < 10
      → IsClean l'
      → (f : File) × (t : Fs) × (f' : File) × (u : Fs) × (g : File) × (v : Fs) × (r : Bytes)
        × (v' : Fs) × (fat_open fuel l fle filename s ≡ some (0, f, t))
        × (fat_write fuel (suc steps) l f buffer t ≡ some (0, f', u))
        × (fat_open fuel l' fle other u ≡ some (0, g, v))
        × (file_size g.rde ≡ suc (length zs))
        × (fat_read steps l' out g (suc (length zs)) v ≡ some (r, v'))
        × IsText r zs
  unfolding write_by
  fat_write-others s i j b bs zs other out l' h root stored low apart disjoint named_other plain
        brief clean' =
      let f = opened s.root_entry (root_rde (loaded s) i) in
      let w = write_by s i h root in
      let (opens, kind, writes) = open_write s i h root in
      let same = (reopened-fields s h.layout j stored.first.upper).1 in
      let kept : IsStored (after_write w) (map toupper bs) j zs =
        after-others w (map toupper bs) j zs low apart (rw same disjoint)
          (reopened-IsStored s h.layout (map toupper bs) j zs stored) in
      let (g, v, r, v', again, is_file, size, reads, found) =
        fat_read-IsStored fuel l' fle other b bs enough clean' brief plain named_other steps l'
          (after_write w) j zs out kept in
      (
        f,
        reopened s,
        started f f.start_cluster,
        after_write w,
        g,
        v,
        r,
        v',
        opens,
        writes,
        again,
        size,
        reads,
        found,
      )
