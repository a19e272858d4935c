-- ===== src/Fat/Create/Root.antt =====
-- `fatCreate` in the root directory: which entry it stops at, and what it returns.
use pios_private.Base.{
  ℕ, zero, suc, ◌<◌, ◌≡◌, refl, arith, Bool, true, ◌||◌, Option, none, some, List, [], ◌∷◌, map,
  length, length-map, ◌==◌, if◌then◌else◌, find_from, Bool-cases, inl, inr, ap,
}
use pios_private.Mem.{Bytes}
use pios_private.Mem.Text.{TextAt, IsText, TextAt-same}
use pios_private.Clib.{toupper}
use pios_private.Clib.Strings.{strlen-length}
use pios_private.Fat.State.{Fs, Locals, root_rde}
use pios_private.Fat.Volume.Layout.{HasLayout}
use pios_private.Fat.Volume.Load.{loaded, init_fat_structs-loaded}
use pios_private.Fat.Names.{placement}
use pios_private.Fat.Names.Entry.{
  unblank, extension-first, entry_name, rest, left_by, left_by-named, entry_name-used,
}
use pios_private.Clib.Compare.{lex}
use pios_private.Fat.Names.Path.{NoSlash}
use pios_private.Fat.Open.{keep_path, is_zero, part}
use pios_private.Fat.Open.Find.{agrees, same_name-left_by}
use pios_private.Fat.Open.Root.{IsClean, one_part}
use pios_private.Fat.Create.{
  Slot, free, taken, full, is_free, find_slot, split_name, make_root_entry, create_in_root,
  fat_create,
}

-- The first character of the name is a blank or NUL.
abbrev pub is_blank : Bytes → Bool
is_blank rde = unblank rde 0 == 0

-- What stops the search for a free entry.
abbrev pub stops : List ℕ → Bytes → Bool
stops xs rde = is_blank rde || agrees xs rde

unfoldable pub slot_at : (ℕ → Bytes) → Option ℕ → Slot
slot_at rde none = full
slot_at rde (some k) = if is_blank (rde k) then free k else taken k

is_free-is_blank : (l : Locals) (rde : Bytes) → is_free l rde ≡ is_blank rde
unfolding is_free
is_free-is_blank l rde = ap (λ c. c == 0) (extension-first l.filen rde)

-- A free entry ends the loop before the names are compared, so that the bytes that it would leave in
-- `path` do not count.
module _ (fuel : ℕ) (l : Locals) (name : Bytes) (xs : List ℕ) (enough : 12 < fuel)
    (long : length xs < fuel) (nul : l.ext 3 ≡ 0) (named : TextAt name 1 xs) where
  pub find_slot-slot_at :
      (rde : ℕ → Bytes) (n i : ℕ) (path : Bytes) (before : List ℕ)
      → TextAt path 1 before
      → find_slot fuel l keep_path path name true rde n i
        ≡ some (slot_at rde (find_from n i (λ k. stops xs (rde k))))
  unfolding find_slot find_from slot_at agrees
  find_slot-slot_at rde zero i path before stood = refl
  find_slot-slot_at rde (suc n) i path before stood =
      let (p, same, t) =
        same_name-left_by fuel l name xs enough long nul named path (rde i) before stood in
      let later = find_slot-slot_at rde n (suc i) p (left_by before (entry_name (rde i))) t in
      elim (Bool-cases (is_blank (rde i))) [
        | inl blank ↦ rw (is_free-is_blank l (rde i), blank) (rw blank refl)
        | inr used ↦
            let e = left_by-named before (entry_name (rde i)) (entry_name-used (rde i) used) in
            elim (Bool-cases (is_zero (lex xs (rest (entry_name (rde i)))))) [
              | inl hit ↦ rw (is_free-is_blank l (rde i), used, same, e, hit) (rw used refl)
              | inr miss ↦ rw (is_free-is_blank l (rde i), used, same, e, miss) later
            ]
      ]

-- What `fatCreate` does in the root directory once the search has ended.
unfoldable pub create_at :
    Locals → (filename : Bytes) → (len : ℕ) → Bool → Fs → Slot → Option (ℕ × Fs)
create_at l filename len is_directory s (taken i) = some (1, s)
create_at l filename len is_directory s full = none
create_at l filename len is_directory s (free i) =
    some (0, make_root_entry l s i (split_name l filename len) is_directory)

-- On a volume with a layout, with the NULs in the scratch arrays and fuel for the names, `fatCreate`
-- of one part of at most 10 characters, without a slash, stops at the first entry of the root
-- directory that is free or agrees with the capitals of the part from the second character on. It
-- returns 1 and changes nothing but the tables it has read if that entry is in use, and otherwise it
-- returns 0 and makes its entry there. It has no result if there is no such entry, for the source
-- then uses a pointer that it has not set.
pub fat_create-root :
    (fuel : ℕ) (l : Locals) (filename : Bytes) (is_directory : Bool) (c : ℕ) (cs : List ℕ) (s : Fs)
    → 12 < fuel
    → IsClean l
    → length cs < 10
    → NoSlash (c ∷ cs)
    → IsText filename (c ∷ cs)
    → HasLayout s
    → fat_create fuel l filename is_directory s
      ≡ create_at l filename (suc (length cs)) is_directory (loaded s) (
          slot_at
            (root_rde (loaded s))
            (find_from 512 0 (λ k. stops (map toupper cs) (root_rde (loaded s) k))))
unfolding fat_create create_in_root create_at
fat_create-root fuel l filename is_directory c cs s enough clean fits no_slash text layout =
    let fn = (placement l filename (suc (length cs))).1 in
    let parts =
      one_part fuel l (record { parent_rde = fn; rde = fn; start_cluster = 0 }) filename c cs s
        enough clean fits no_slash text layout in
    let found =
      find_slot-slot_at fuel l (part fn 0) (map toupper cs) enough
        (omega (arith, length-map toupper cs)) clean.ext
        (TextAt-same fn (part fn 0) (map toupper cs) 1 1 (λ i lt. ap fn (omega arith))
          parts.rows.0.2)
        (root_rde (loaded s)) 512 0 l.path [] clean.path in
    let len = strlen-length fuel (c ∷ cs) filename text (omega arith) in
    rw (init_fat_structs-loaded s layout, len, parts.count, found)
      (ap
        (λ (r : ℕ × Fs). create_at l filename (suc (length cs)) is_directory r.1 (
          slot_at (root_rde (loaded s))
            (find_from 512 0 (λ k. stops (map toupper cs) (root_rde (loaded s) k)))))
        (init_fat_structs-loaded s layout))
