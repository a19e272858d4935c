-- ===== src/Fat/Create/RoundTrip.antt =====
-- What `fatCreate` has made in the root directory, `fatOpen` opens.
use pios_private.Base.{
  ℕ, suc, ◌+◌, ◌*◌, ◌≤◌, ◌<◌, ◌≡◌, ◌≢◌, ◌⊎◌, inl, inr, refl, arith, Bool, true, false, ◌||◌, some,
  List, ◌∷◌, map, length, ◌==◌, if◌then◌else◌, find_from, IsFirst, find_from-IsFirst,
  find_from-first, ap, ◌∙◌, sym,
}
use native.Mathlib.Decide.{dec_lt}
use pios_private.Mem.{Bytes, from}
use pios_private.Mem.Text.{IsText}
use pios_private.Clib.{toupper}
use pios_private.Fat.State.{Fs, File, Locals, root_rde, attribute, file_size, cluster, fat_entry}
use pios_private.Fat.Volume.Layout.{table_start, HasLayout, IsLoaded}
use pios_private.Fat.Volume.Load.{loaded}
use pios_private.Fat.Volume.Keeps.{HasLayout-Keeps}
use pios_private.Fat.Io.Settled.{loaded-IsLoaded}
use pios_private.Fat.Flush.{HasLayout-disk, flushed, flush-splice, loaded-root}
use pios_private.Fat.Names.Entry.{entry_name, rest}
use pios_private.Fat.Names.Path.{NoSlash}
use pios_private.Fat.Open.{flush, opened, fat_open}
use pios_private.Fat.Open.Find.{agrees, agrees_iff, stands, IsFirst-stands}
use pios_private.Fat.Open.Root.{IsClean, open_first, fat_open-root}
use pios_private.Fat.Create.{
  free, taken, split_name, fill_entry, allocate, make_root_entry, fat_create,
}
use pios_private.Fat.Create.Entry.{
  IsPlain, fill_entry-outside, fill_entry-attribute, fill_entry-file_size, fill_entry-cluster,
}
use pios_private.Fat.Create.Root.{is_blank, stops, slot_at, create_at, fat_create-root}
use pios_private.Fat.Open.Same.{entry_name-same, agrees-same, fields-same}
use pios_private.Fat.Create.Named.{made_entry, made_entry-name}

-- The state that `fatCreate` writes back.
unfoldable pub made : Locals → (filename : Bytes) → (len : ℕ) → Bool → Fs → ℕ → Fs
made l filename len is_directory s i = record s {
  root_directory_chars =
      fill_entry s.root_directory_chars (32 * i) (split_name l filename len) is_directory
        (allocate s).0;
  fat_table_chars = (allocate s).1;
}

pub made-IsLoaded :
    (l : Locals) (filename : Bytes) (len : ℕ) (is_directory : Bool) (s : Fs) (i : ℕ)
    → IsLoaded s
    → IsLoaded (made l filename len is_directory s i)
unfolding made table_start
made-IsLoaded l filename len is_directory s i h = record {
  layout =
      HasLayout-Keeps s (made l filename len is_directory s i)
        (record { bs = refl; root_sector = refl; data_sector = refl; root_entries_size = refl })
        h.layout;
  start = h.start;
  size = h.size;
}

module _ (l : Locals) (filename : Bytes) (xs : List ℕ) (is_directory : Bool) (s : Fs) (i : ℕ)
    (loads : IsLoaded s) (text : IsText filename xs) (plain : IsPlain xs) (fits : length xs ≤ 8)
    (inside : i < 512) where
  -- The state before and behind the flush, and loaded again.
  unfoldable pub now : Fs
  now = made l filename (length xs) is_directory s i

  unfoldable pub again : Fs
  again = loaded (record now { disk = flushed now })

  -- The entry that is found again, and the others.
  pub again-root : (k j : ℕ) → k < 512 → j < 32 → root_rde again k j ≡ root_rde now k j
  unfolding again now made
  again-root k j inside within =
      loaded-root now (made-IsLoaded l filename (length xs) is_directory s i loads) (32 * k + j)
        (omega arith)

  elsewhere : (k j : ℕ) → k ≢ i → j < 32 → (32 * k + j < 32 * i) ⊎ (32 * i + 32 ≤ 32 * k + j)
  elsewhere k j ne lt = elim (dec_lt i k) [
    | yes above ↦ inr (omega (arith, above))
    | no below ↦ inl (omega (arith, below, ne))
  ]

  pub again-others : (k j : ℕ) → k < 512 → k ≢ i → j < 32 → root_rde again k j ≡ root_rde s k j
  unfolding now made
  again-others k j low other within =
      again-root k j low within
      ∙ fill_entry-outside s.root_directory_chars (32 * i) (split_name l filename (length xs)).0
          (split_name l filename (length xs)).1 is_directory (allocate s).0 (32 * k + j)
          (elsewhere k j other within)

  pub again-name : entry_name (root_rde again i) ≡ map toupper xs
  unfolding now made made_entry
  again-name =
      entry_name-same (root_rde again i) (root_rde now i)
        (λ j lt. again-root i j inside (omega arith))
      ∙ made_entry-name l filename xs s.root_directory_chars (32 * i) is_directory (allocate s).0
          text plain fits

  pub again-entry :
      (attribute (root_rde again i) ≡ (if is_directory then 0x10 else 0x20))
      × (file_size (root_rde again i) ≡ 0)
      × ((k : ℕ)
          → find_from 8192 0 (λ k. fat_entry s k == 0) ≡ some k
          → cluster (root_rde again i) ≡ k)
  unfolding now made allocate
  again-entry =
      let (name, ext) = split_name l filename (length xs) in
      let same =
        fields-same (root_rde again i) (root_rde now i) (λ j lt. again-root i j inside lt) in
      let rows = s.root_directory_chars in
      (
        again-root i 11 inside (omega arith)
            ∙ fill_entry-attribute rows (32 * i) name ext is_directory (allocate s).0,
        same.0 ∙ fill_entry-file_size rows (32 * i) name ext is_directory (allocate s).0,
        λ k e.
            same.1
            ∙ ap
                (λ n. cluster (from (fill_entry rows (32 * i) (name, ext) is_directory n) (32 * i)))
                e
            ∙ fill_entry-cluster rows (32 * i) name ext is_directory k
                (omega (arith, (find_from-IsFirst 8192 0 (λ k. fat_entry s k == 0) k e).upper)),
      )

or_right : (a b : Bool) → (a || b) ≡ false → b ≡ false
or_right a b h = ground arith

-- An entry that agrees is found if those in front of it are as they were.
module _ (fuel : ℕ) (l : Locals) (fle : File) (filename : Bytes) (is_directory : Bool) (c : ℕ)
    (cs : List ℕ) (s : Fs) (i : ℕ) (enough : 12 < fuel) (clean : IsClean l) (fits : length cs < 8)
    (no_slash : NoSlash (c ∷ cs)) (plain : IsPlain (c ∷ cs)) (text : IsText filename (c ∷ cs))
    (layout : HasLayout s)
    (first : IsFirst 512 0 (λ k. stops (map toupper cs) (root_rde (loaded s) k)) i) where
  unfoldable pub after : Fs
  after =
      again l filename (c ∷ cs) is_directory (loaded s) i (loaded-IsLoaded s layout) text plain
        (omega arith) first.upper

  pub after-IsFirst : IsFirst 512 0 (λ k. agrees (map toupper cs) (root_rde after k)) i
  unfolding after
  after-IsFirst =
      let loads = loaded-IsLoaded s layout in
      let name =
        again-name l filename (c ∷ cs) is_directory (loaded s) i loads text plain (omega arith)
          first.upper in
      let other =
        again-others l filename (c ∷ cs) is_directory (loaded s) i loads text plain (omega arith)
          first.upper in
      record {
        lower = omega arith;
        upper = first.upper;
        holds = (agrees_iff (map toupper cs) (root_rde after i)).1 (ap rest (sym name));
        before = λ j lo lt.
            agrees-same (map toupper cs) (root_rde after j) (root_rde (loaded s) j)
              (λ k le. other j k (omega (arith, first.upper)) (omega arith) (omega arith))
            ∙ or_right (is_blank (root_rde (loaded s) j))
                (agrees (map toupper cs) (root_rde (loaded s) j)) (first.before j lo lt);
      }

  found : find_from 512 0 (stands (map toupper cs) (root_rde after)) ≡ some i
  unfolding after
  found =
      let name =
        again-name l filename (c ∷ cs) is_directory (loaded s) i (loaded-IsLoaded s layout) text
          plain (omega arith) first.upper in
      find_from-first 512 0 (stands (map toupper cs) (root_rde after)) i (
        IsFirst-stands (map toupper cs) (root_rde after) 512 i
          (λ e. absurd (ground (arith, e, name))) after-IsFirst)

  -- On a volume with a layout, with the NULs in the scratch arrays and fuel for the names, for a name
  -- of at most 8 characters without slashes, dots and blanks: if the first entry of the root directory
  -- that is free or agrees with the name is free, then `fatCreate` returns 0, and `fatOpen` of the
  -- name afterwards returns 0 and opens that entry. Its name is the capitals of the name, its
  -- attribute says whether it is a directory, its size is 0, and its cluster is the first free one of
  -- the table, if there is one.
  pub fat_open-fat_create :
      is_blank (root_rde (loaded s) i) ≡ true
      → (s' : Fs) × (fat_create fuel l filename is_directory s ≡ some (0, s'))
        × (f : File) × (t : Fs) × (fat_open fuel l fle filename s' ≡ some (0, f, t))
        × (f.rde ≡ root_rde (loaded s') i)
        × (entry_name f.rde ≡ map toupper (c ∷ cs))
        × (attribute f.rde ≡ (if is_directory then 0x10 else 0x20))
        × (file_size f.rde ≡ 0)
        × ((k : ℕ)
            → find_from 8192 0 (λ k. fat_entry (loaded s) k == 0) ≡ some k
            → f.start_cluster ≡ k)
  unfolding after again now made make_root_entry create_at slot_at open_first
  fat_open-fat_create blank =
      let loads = loaded-IsLoaded s layout in
      let before =
        now l filename (c ∷ cs) is_directory (loaded s) i loads text plain (omega arith)
          first.upper in
      let s' = record before { disk = flushed before } in
      let keeps = made-IsLoaded l filename (suc (length cs)) is_directory (loaded s) i loads in
      let stop =
        find_from-first 512 0 (λ k. stops (map toupper cs) (root_rde (loaded s) k)) i first in
      let create =
        fat_create-root fuel l filename is_directory c cs s enough clean (omega arith) no_slash text
          layout
        ∙ ap
            (λ n.
              create_at l filename (suc (length cs)) is_directory (loaded s)
                (slot_at (root_rde (loaded s)) n))
            stop
        ∙ ap
            (λ b.
              create_at l filename (suc (length cs)) is_directory (loaded s)
                (if b then free i else taken i))
            blank
        ∙ ap (λ t. some (0, t)) (flush-splice l before keeps) in
      let opens =
        fat_open-root fuel l fle filename c cs s' enough clean (omega arith) no_slash text
          (HasLayout-disk before (flushed before) keeps.layout)
        ∙ ap (λ n. some (open_first l fle after n)) found in
      let name =
        again-name l filename (c ∷ cs) is_directory (loaded s) i loads text plain (omega arith)
          first.upper in
      let (kind, size, start) =
        again-entry l filename (c ∷ cs) is_directory (loaded s) i loads text plain (omega arith)
          first.upper in
      (
        s',
        create,
        opened after.root_entry (root_rde after i),
        flush l after,
        opens,
        refl,
        name,
        kind,
        size,
        start,
      )
