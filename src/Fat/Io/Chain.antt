-- ===== src/Fat/Io/Chain.antt =====
-- The chain that the loop of `fatWrite` makes for a file of several clusters.
use pios_private.Base.{
  ℕ, suc, ◌<◌, ◌≡◌, ◌≢◌, refl, arith, ◌==◌, if◌then◌else◌, inl, inr, ap, ◌∙◌, pos,
}
use pios_private.Mem.{Bytes}
use pios_private.Fat.State.{Fs, Locals, fat_entry}
use pios_private.Fat.Volume.{unallocated_fat_table_index, write_to_cluster}
use pios_private.Fat.Table.{fat_entry-set_entry, unallocated_fat_table_index-first}
use pios_private.Fat.Io.{set_entry, put_sector, to_u16, write_sectors}

-- Writing clusters leaves the table alone.
fat_entry-put_sector :
    (l : Locals) (s : Fs) (sectors : Bytes) (i n size k : ℕ)
    → fat_entry (put_sector l s sectors i n size) k ≡ fat_entry s k
unfolding put_sector write_to_cluster
fat_entry-put_sector l s sectors i n size k = refl

-- `f` is the first free entry of the table.
pub record IsFirstFree (s : Fs) (f : ℕ) : Type 0 where
  pub inside : f < 8192
  pub free : fat_entry s f ≡ 0
  pub before : (k : ℕ) → k < f → fat_entry s k ≢ 0

first_free_lem : (s : Fs) (f : ℕ) → IsFirstFree s f → unallocated_fat_table_index s ≡ pos f
first_free_lem s f h = elim (unallocated_fat_table_index-first s) [
  | inl (i, e, lt, zero, first) ↦ e ∙ ap pos (grind (arith, h.before i, first f, h.free))
  | inr (e, none_free) ↦ absurd (none_free f h.inside h.free)
]

-- What a round does to the table.
entry_after :
    (l : Locals) (s : Fs) (sectors : Bytes) (i c size v k : ℕ)
    → v < 65536
    → fat_entry (put_sector l (set_entry s c v) sectors i c size) k
      ≡ (if k == c then v else fat_entry s k)
entry_after l s sectors i c size v k small =
    fat_entry-put_sector l (set_entry s c v) sectors i c size k ∙ fat_entry-set_entry s c v k small

IsFirstFree-step :
    (l : Locals) (s : Fs) (sectors : Bytes) (i c size f v : ℕ)
    → IsFirstFree s f
    → c ≢ f
    → 0 < v
    → v < 65536
    → IsFirstFree (put_sector l (set_entry s c v) sectors i c size) f
IsFirstFree-step l s sectors i c size f v h ne pos_v small = record {
  inside = h.inside;
  free = ground (arith, entry_after l s sectors i c size v f small, h.free);
  before = λ k lt. ground (arith, entry_after l s sectors i c size v k small, h.before k lt);
}

next_lem : (s : Fs) (f : ℕ) → IsFirstFree s f → to_u16 (unallocated_fat_table_index s) ≡ f
unfolding to_u16
next_lem s f h = rw (first_free_lem s f h) (omega (arith, h.inside))

-- A round that is not the last takes the first free cluster for the next round.
write_sectors-step :
    (l : Locals) (s : Fs) (sectors : Bytes) (size rounds i c f : ℕ)
    → IsFirstFree s f
    → write_sectors l sectors size (suc (suc rounds)) i c s
      ≡ write_sectors l sectors size
          (suc rounds)
          (suc i)
          f
          (put_sector l (set_entry s c f) sectors i c size)
unfolding write_sectors
write_sectors-step l s sectors size rounds i c f h = rw (next_lem s f h) refl

module _ (l : Locals) (s : Fs) (sectors : Bytes) (size c f : ℕ) (first : IsFirstFree s f)
    (used : 0 < f) (ne : c ≢ f) where
  linked : Fs
  linked = put_sector l (set_entry s c f) sectors 0 c size

  linked-IsFirstFree : IsFirstFree linked f
  unfolding linked
  linked-IsFirstFree =
      IsFirstFree-step l s sectors 0 c size f f first ne used (omega (arith, first.inside))

  -- The entries when the chain ends at `f` after a last round there.
  ended :
      (t : Fs) (i k : ℕ)
      → ((j : ℕ) → j ≢ f → fat_entry t j ≡ fat_entry linked j)
      → fat_entry (write_sectors l sectors size 1 i f t) k
        ≡ (if k == f then 0xfff8 else if k == c then f else fat_entry s k)
  unfolding write_sectors linked
  ended t i k same = ground (
    arith,
    entry_after l t sectors i f size 0xfff8 k (omega arith),
    same k,
    entry_after l s sectors 0 c size f k (omega (arith, first.inside)),
  )

  -- Let the first free entry of the table be above 0, and not the one at which the old chain ended.
  -- A file of two clusters gets a chain of two, from the last cluster of its old chain to the
  -- first free one. A file of three clusters gets the same chain: the second round finds the
  -- cluster that it writes still marked as free, and takes it for the third round too.
  pub write_sectors-three :
      (k : ℕ)
      → (fat_entry (write_sectors l sectors size 2 0 c s) k
          ≡ (if k == f then 0xfff8 else if k == c then f else fat_entry s k))
        × (fat_entry (write_sectors l sectors size 3 0 c s) k
            ≡ (if k == f then 0xfff8 else if k == c then f else fat_entry s k))
  unfolding linked
  write_sectors-three k = (
    rw (write_sectors-step l s sectors size 0 0 c f first) (ended linked 1 k (λ j _. refl)),
    rw
        (
          write_sectors-step l s sectors size 1 0 c f first,
          write_sectors-step l linked sectors size 0 1 f f linked-IsFirstFree,
        )
        (ended _ 2 k (λ j out.
          ground (arith, entry_after l linked sectors 1 f size f j (omega (arith, first.inside))))),
  )
