-- ===== src/Fat/Open/Path.antt =====
-- `fatOpen` of a path of several parts.
use pios_private.Base.{
  ℕ, zero, suc, ◌+◌, ◌-◌, ◌*◌, ◌≤◌, ◌<◌, ◌≡◌, ◌≢◌, refl, arith, Bool, true, false, Option, none,
  some, List, [], ◌∷◌, map, length, length-map, ◌==◌, if◌then◌else◌, find_from, find_from-first, ap,
  sym, ◌∙◌, ne→==, eq→==, lt→ltb, Option-cases, inl, inr,
}
use pios_private.Mem.{Bytes}
use pios_private.Mem.Text.{TextAt, IsText, TextAt-same}
use pios_private.Clib.{toupper}
use pios_private.Clib.Strings.{strlen-length}
use pios_private.Fat.State.{Fs, File, Locals, root_rde, data_rde}
use pios_private.Fat.Volume.Layout.{HasLayout}
use pios_private.Fat.Volume.Load.{loaded, init_fat_structs-loaded}
use pios_private.Fat.Volume.{init_fat_structs}
use pios_private.Fat.Names.{placement}
use pios_private.Fat.Names.Entry.{rest}
use pios_private.Fat.Names.Path.{AreParts, Rows, HasParts, joined, placement-HasParts}
use pios_private.Fat.Open.{
  clear_path, part, flush, opened, Opened, load_directory, sub_direct_end, find_entry, open_walk,
  open_below_root, fat_open,
}
use pios_private.Fat.Open.Find.{agrees, stands, find_entry-find_from, find_entry-cleared}
use pios_private.Fat.Open.Root.{IsClean}

-- The entry of the root directory that a part stands for, and that of another directory.
abbrev pub root_lookup : (ℕ → Bytes) → List ℕ → Option ℕ
root_lookup rde xs = find_from 512 0 (stands (map toupper (rest xs)) rde)

abbrev pub lookup : (ℕ → Bytes) → List ℕ → Option ℕ
lookup rde xs = find_from 64 0 (λ k. agrees (map toupper (rest xs)) (rde k))

abbrev is_last : List (List ℕ) → Bool
is_last [] = true
is_last (xs ∷ xss) = false

-- The parts looked up one after the other, each in the directory that the one before it stands for.
unfoldable pub open_parts : Locals → File → (parent : Bytes) → List (List ℕ) → Fs → Opened
open_parts l fle parent [] s = (2, fle, s)
open_parts l fle parent (xs ∷ xss) s =
    let s' = load_directory s parent in
    let deeper = λ (i : ℕ). open_parts l fle (data_rde s' i) xss s' in
    elim (lookup (data_rde s') xs) [
      | none ↦ (2, fle, s')
      | some i ↦
          let more = deeper i in
          if is_last xss then (0, opened parent (data_rde s' i), flush l s') else more
    ]

unfoldable pub open_path : Locals → File → List ℕ → List (List ℕ) → Fs → Opened
open_path l fle xs xss s = elim (root_lookup (root_rde s) xs) [
  | none ↦ (1, fle, s)
  | some i ↦ open_parts l fle (root_rde s i) xss s
]

-- No part is empty.
abbrev pub AreFilled : List (List ℕ) → Type 0
AreFilled [] = Unit {0}
AreFilled (xs ∷ xss) = (0 < length xs) × AreFilled xss

length-rest : (xs : List ℕ) → length (rest xs) ≤ length xs
length-rest [] = omega arith
length-rest (x ∷ xs) = omega arith

-- A row of `placementFile` from its second character on.
row_rest :
    (fn : Bytes) (k : ℕ) (xs : List ℕ)
    → 0 < length xs
    → TextAt fn (11 * k) (map toupper xs)
    → TextAt (part fn k) 1 (map toupper (rest xs))
row_rest fn k [] lt h = absurd (omega arith)
row_rest fn k (x ∷ xs) lt h =
    TextAt-same fn (part fn k) (map toupper xs) (suc (11 * k)) 1 (λ i lt. ap fn (omega arith)) h.2

row_first :
    (fn : Bytes) (xss : List (List ℕ)) (k j : ℕ)
    → Rows fn k xss
    → AreFilled xss
    → j < length xss
    → fn (11 * (k + j)) ≢ 0
row_first fn [] k j rows filled lt = absurd (omega arith)
row_first fn ([] ∷ xss) k j rows filled lt = absurd (omega (arith, filled.0))
row_first fn ((x ∷ xs) ∷ xss) k zero rows filled lt =
    let e : k + 0 ≡ k = omega arith in
    λ z. rows.0.1 (sym rows.0.0 ∙ ap (λ (m : ℕ). fn (11 * m)) (sym e) ∙ z)
row_first fn ((x ∷ xs) ∷ xss) k (suc j) rows filled lt =
    let e : k + suc j ≡ suc k + j = omega arith in
    rw e (row_first fn xss (suc k) j rows.1 filled.1 (omega arith))

sub_direct_end-length :
    (fn : Bytes) (n : ℕ) (xss : List (List ℕ))
    → HasParts xss n fn
    → AreFilled xss
    → length xss < 20
    → sub_direct_end fn ≡ some (length xss)
unfolding sub_direct_end
sub_direct_end-length fn n xss h filled few =
    find_from-first 20 0 (λ i. fn (11 * i) == 0) (length xss)
      (record {
        lower = omega arith;
        upper = omega arith;
        holds = eq→== (fn (11 * length xss)) 0 (h.behind (length xss) (omega arith) few);
        before = λ j lo lt.
            let e : 0 + j ≡ j = omega arith in
            ne→== (fn (11 * j)) 0 (rw e at (row_first fn xss 0 j h.rows filled lt));
      })

module _ (fuel : ℕ) (l : Locals) (fle : File) (fn : Bytes) (enough : 12 < fuel)
    (clean : IsClean l) where
  -- The search for a part in the directory `s` has loaded.
  part_found :
      (xs : List ℕ) (index : ℕ) (s : Fs)
      → 0 < length xs
      → length xs < 11
      → TextAt fn (11 * index) (map toupper xs)
      → find_entry fuel l clear_path l.path (part fn index) (data_rde s) 64 0
        ≡ some (lookup (data_rde s) xs)
  part_found xs index s some_char short row =
      find_entry-cleared fuel l (part fn index) (map toupper (rest xs)) enough
        (omega (arith, length-map toupper (rest xs), length-rest xs)) clean.ext
        (row_rest fn index xs some_char row) (data_rde s) 64 0 l.path

  open_walk-open_parts :
      (xss : List (List ℕ)) (index : ℕ) (parent : Bytes) (s : Fs)
      → Rows fn index xss
      → AreFilled xss
      → AreParts xss
      → open_walk fuel l fn (length xss) index parent fle s ≡ some (open_parts l fle parent xss s)
  unfolding open_walk open_parts
  open_walk-open_parts [] index parent s rows filled parts = refl
  open_walk-open_parts (xs ∷ []) index parent s rows filled parts =
      let s' = load_directory s parent in
      rw (part_found xs index s' filled.0 parts.0 rows.0)
        (elim (Option-cases (lookup (data_rde s') xs)) [
          | inl missing ↦ rw (open_parts, missing) refl
          | inr (i, hit) ↦ rw (open_parts, hit) refl
        ])
  open_walk-open_parts (xs ∷ ys ∷ yss) index parent s rows filled parts =
      let s' = load_directory s parent in
      let deeper = λ (i : ℕ).
        open_walk-open_parts (ys ∷ yss) (suc index) (data_rde s' i) s' rows.1 filled.1 parts.2 in
      rw (part_found xs index s' filled.0 parts.0 rows.0)
        (elim (Option-cases (lookup (data_rde s') xs)) [
          | inl missing ↦ rw (open_parts, missing) refl
          | inr (i, hit) ↦ rw (open_parts, hit, ne→== (suc (length yss)) 0 (omega arith)) (deeper i)
        ])

  below_root-open_path :
      (n : ℕ) (xs : List ℕ) (xss : List (List ℕ)) (s : Fs)
      → HasParts (xs ∷ xss) n fn
      → AreFilled (xs ∷ xss)
      → AreParts (xs ∷ xss)
      → length xss < 19
      → open_below_root fuel l fn fle s ≡ some (open_path l fle xs xss s)
  unfolding open_below_root open_path
  below_root-open_path n xs xss s split filled parts few =
      let root =
        find_entry-find_from fuel l (part fn 0) (map toupper (rest xs)) enough
          (omega (arith, length-map toupper (rest xs), length-rest xs, parts.0)) clean.ext
          (row_rest fn 0 xs filled.0 split.rows.0) l.path clean.path (root_rde s) 512 in
      let end = sub_direct_end-length fn n (xs ∷ xss) split filled (omega arith) in
      let one : suc (length xss) - 1 ≡ length xss = omega arith in
      rw root (elim (Option-cases (root_lookup (root_rde s) xs)) [
        | inl missing ↦ rw (open_path, missing) refl
        | inr (i, hit) ↦
            rw (open_path, hit, end, one)
              (open_walk-open_parts xss 1 (root_rde s i) s split.rows.1 filled.1 parts.2)
      ])

module _ (fuel : ℕ) (l : Locals) (fle : File) (filename : Bytes) (line xs : List ℕ)
    (xss : List (List ℕ)) (s : Fs) (enough : 12 < fuel) (long : length line < fuel)
    (clean : IsClean l) (text : IsText filename line) (layout : HasLayout s)
    (parts : AreParts (xs ∷ xss)) (filled : AreFilled (xs ∷ xss)) (some_part : 0 < length xss)
    (few : length xss < 19) where
  open_split :
      let (count, fn) = placement l filename (length line) in
      HasParts (xs ∷ xss) count fn
      → fat_open fuel l fle filename s ≡ some (open_path l fle xs xss (loaded s))
  unfolding fat_open
  open_split split =
      let (count, fn) = placement l filename (length line) in
      let walk = λ (t : Fs).
        below_root-open_path fuel l fle fn enough clean count xs xss t split filled parts few in
      rw
        (
          strlen-length fuel line filename text long,
          split.count,
          ne→== (suc (length xss)) 1 (omega arith),
          lt→ltb 1 (suc (length xss)) (omega arith),
        )
        (walk (init_fat_structs s).1
          ∙ ap (λ (r : ℕ × Fs). some (open_path l fle xs xss r.1))
              (init_fat_structs-loaded s layout))

-- On a volume with a layout, with the NULs in the scratch arrays and fuel for the names, `fatOpen` of
-- a path that is a slash and 2 to 19 parts with slashes between them, none empty and each of at
-- most 10 characters, returns: the parts are looked up one after the other, the first one in the root
-- directory and each other one in the cluster of the entry before it. In such a cluster the search
-- stops at the first entry that agrees with the capitals from the second character on; in the root
-- directory, at the first one at which the capitals agree with the name of the last entry up to there
-- that has one. The result is 1 if the search of the root directory finds none, 2 if that of another
-- directory finds none, and otherwise 0, with the entry of the last part opened and the tables
-- written back.
pub fat_open-open_path :
    (fuel : ℕ) (l : Locals) (fle : File) (filename : Bytes) (xs : List ℕ) (xss : List (List ℕ))
    (s : Fs)
    → 12 < fuel
    → suc (length (joined xs xss)) < fuel
    → IsClean l
    → IsText filename (b'/' ∷ joined xs xss)
    → HasLayout s
    → AreParts (xs ∷ xss)
    → AreFilled (xs ∷ xss)
    → 0 < length xss
    → length xss < 19
    → fat_open fuel l fle filename s ≡ some (open_path l fle xs xss (loaded s))
fat_open-open_path fuel l fle filename xs xss s enough long clean text layout parts filled some_part
      few =
    open_split fuel l fle filename (b'/' ∷ joined xs xss) xs xss s enough long clean text layout
      parts filled some_part few (placement-HasParts l filename xs xss parts (omega arith) text)
