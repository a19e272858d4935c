-- ===== src/Fat/Table.antt =====
-- Entries of the file allocation table: reading and writing one, and taking the first free one.
use pios_private.Base.{
  ℕ, ◌<◌, ◌≡◌, ◌≢◌, refl, arith, ◌==◌, if◌then◌else◌, find_from, find_from-IsFirst, find_from-none,
  Option-cases, inl, inr, ◌⊎◌, pos, negsuc, ==→eq, ==→ne,
}
use pios_private.Mem.{get16, put16, write}
use pios_private.Fat.State.{Fs, fat_entry}
use pios_private.Fat.Volume.{unallocated_fat_table_index}
use pios_private.Fat.Io.{set_entry}

-- An entry of the table that is written with a 16-bit value reads back, and the others read as
-- before.
pub fat_entry-set_entry :
    (s : Fs) (i v k : ℕ)
    → v < 65536
    → fat_entry (set_entry s i v) k ≡ (if k == i then v else fat_entry s k)
unfolding set_entry get16 put16 write
fat_entry-set_entry s i v k small = ground arith

-- The index that is returned is that of the first of the 8192 entries with value 0, and -1 says
-- that there is none.
pub unallocated_fat_table_index-first :
    (s : Fs)
    → ((i : ℕ) × (unallocated_fat_table_index s ≡ pos i)
        × (i < 8192)
        × (fat_entry s i ≡ 0)
        × ((k : ℕ) → k < i → fat_entry s k ≢ 0))
      ⊎ ((unallocated_fat_table_index s ≡ negsuc 0) × ((k : ℕ) → k < 8192 → fat_entry s k ≢ 0))
unfolding unallocated_fat_table_index
unallocated_fat_table_index-first s =
    elim (Option-cases (find_from 8192 0 (λ i. fat_entry s i == 0))) [
      | inl e ↦ inr (
        rw (e, unallocated_fat_table_index) refl,
        λ k lt. ==→ne _ 0 (find_from-none 8192 0 (λ i. fat_entry s i == 0) e k (omega arith) lt),
      )
      | inr (i, e) ↦
          let f = find_from-IsFirst 8192 0 (λ i. fat_entry s i == 0) i e in
          inl (
            i,
            rw (e, unallocated_fat_table_index) refl,
            f.upper,
            ==→eq _ 0 f.holds,
            λ k lt. ==→ne _ 0 (f.before k (omega arith) lt),
          )
    ]
