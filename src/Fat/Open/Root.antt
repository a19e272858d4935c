-- ===== src/Fat/Open/Root.antt =====
-- `fatOpen` of a path of one part.
use pios_private.Base.{
  ℕ, suc, ◌<◌, ◌≡◌, arith, Option, none, some, List, [], ◌∷◌, map, length, length-map, ap,
  find_from,
}
use pios_private.Mem.{Bytes}
use pios_private.Mem.Text.{IsText, TextAt-same}
use pios_private.Clib.{toupper}
use pios_private.Clib.Strings.{strlen-length}
use pios_private.Fat.State.{Fs, File, Locals, root_rde}
use pios_private.Fat.Volume.Layout.{HasLayout}
use pios_private.Fat.Volume.Load.{loaded, init_fat_structs-loaded}
use pios_private.Fat.Names.{placement}
use pios_private.Fat.Names.Path.{NoSlash, HasParts, joined, placement-relative}
use pios_private.Fat.Open.{part, flush, opened, Opened, open_in_root, fat_open}
use pios_private.Fat.Open.Find.{stands, find_entry-find_from}

-- The NULs that the source takes for granted in its uninitialised arrays: one behind `ext`, and
-- one in the second byte of `path` before the first entry.
pub record IsClean (l : Locals) : Type 0 where
  pub ext : l.ext 3 ≡ 0
  pub path : l.path 1 ≡ 0

-- What `fatOpen` does with the entry that the search of the root directory stops at.
unfoldable pub open_first : Locals → File → Fs → Option ℕ → Opened
open_first l fle s none = (1, fle, s)
open_first l fle s (some i) = (0, opened s.root_entry (root_rde s i), flush l s)

module _ (fuel : ℕ) (l : Locals) (fle : File) (filename : Bytes) (c : ℕ) (cs : List ℕ) (s : Fs)
    (enough : 12 < fuel) (clean : IsClean l) (fits : length cs < 10) (no_slash : NoSlash (c ∷ cs))
    (text : IsText filename (c ∷ cs)) (layout : HasLayout s) where
  pub one_part :
      let (count, fn) = placement l filename (suc (length cs)) in HasParts ((c ∷ cs) ∷ []) count fn
  unfolding joined
  one_part =
      placement-relative l filename (c ∷ cs) [] (omega arith, no_slash, tt) (omega arith)
        (omega arith) text

  -- On a volume with a layout, with the NULs in the scratch arrays and fuel for the names, a path
  -- that is one part of at most 10 characters, without a slash, is looked for in the root
  -- directory. The search stops at the first entry at which the capitals of the part agree, from
  -- the second character on, with the name of the last entry up to there that has one. `fatOpen`
  -- returns 1, with the file as it was, if there is no such entry, and otherwise it returns 0, opens
  -- that entry, and writes the tables back.
  pub fat_open-root :
      fat_open fuel l fle filename s
      ≡ some (
          open_first l fle
            (loaded s)
            (find_from 512 0 (stands (map toupper cs) (root_rde (loaded s)))))
  unfolding fat_open open_in_root open_first
  fat_open-root =
      let fn = (placement l filename (suc (length cs))).1 in
      let found =
        find_entry-find_from fuel l (part fn 0) (map toupper cs) enough
          (omega (arith, length-map toupper cs)) clean.ext
          (TextAt-same fn (part fn 0) (map toupper cs) 1 1 (λ i lt. ap fn (omega arith))
            one_part.rows.0.2)
          l.path clean.path in
      rw
        (
          init_fat_structs-loaded s layout,
          strlen-length fuel (c ∷ cs) filename text (omega arith),
          one_part.count,
          found (root_rde (loaded s)) 512,
        )
        (ap
          (λ (r : ℕ × Fs). some (
            open_first l fle r.1 (find_from 512 0 (stands (map toupper cs) (root_rde (loaded s))))))
          (init_fat_structs-loaded s layout))
