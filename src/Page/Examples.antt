-- ===== src/Page/Examples.antt =====
-- The lists of pages at concrete pages.
use pios_private.Base.{
  ℕ, List, ◌≡◌, ◌≤◌, ◌*◌, refl, arith, some, none, ◌==◌, if◌then◌else◌, [], ◌∷◌,
}
use pios_private.Links.{Links}
use pios_private.Links.Linked.{IsLinked}
use pios_private.Mem.{zeros}
use pios_private.Page.Distinct.{rev}
use pios_private.Page.Init.{seq, init_pfa_list-IsLinked}
use pios_private.Page.Alloc.{allocate_physical_pages-IsLinked}
use pios_private.Page.{Pages, init_pfa_list, allocate_physical_pages, last_element, ppage_remove}
use pios_private.Page.{free_physical_pages}
use mathlib.Core.List.{Perm}
use pios_private.Page.Free.{free_physical_pages-allocate_physical_pages}
use pios_private.Page.Lists.{IsRemoved, ppage_remove-IsRemoved}

-- The pages 1, 2 and 3 in one list, and 4 and 5 in another one.
abbrev five : Links
five = record {
  next = λ j. if j == 1 then 2 else if j == 2 then 3 else if j == 4 then 5 else 0;
  prev = λ j. if j == 2 then 1 else if j == 3 then 2 else if j == 5 then 4 else 0;
}

ppage_remove-IsRemoved_example :
    (h' : Links) × (ppage_remove 9 five 1 ≡ some (3, h')) × IsRemoved five h' 1 3 (2 ∷ [])
ppage_remove-IsRemoved_example =
    ppage_remove-IsRemoved 9 five 1 3 (2 ∷ []) (ground arith) (ground arith) (omega arith)
      (omega arith)

-- The last page of a list of one cannot be removed: the source reads a link of NULL.
ppage_remove_single : ppage_remove 9 five 6 ≡ none
unfolding ppage_remove last_element
ppage_remove_single = refl

-- A free list of the pages 1 to 3.
abbrev three : Pages
three = record { links = five; physical_addr = zeros; free_pages_list = 1 }

allocate_physical_pages-IsLinked_example :
    (h : Links) × (allocate_physical_pages 9 three 2 ≡ some (3, record three { links = h }))
    × IsLinked h 1 []
    × IsLinked h 3 (2 ∷ [])
unfolding rev
allocate_physical_pages-IsLinked_example =
    allocate_physical_pages-IsLinked 9 three [] 3 (2 ∷ []) (ground arith) (ground arith)
      (omega arith) (omega arith)

init_pfa_list-IsLinked_example :
    (s' : Pages) × (init_pfa_list 200 (record {
      links = record { next = zeros; prev = zeros };
      physical_addr = zeros;
      free_pages_list = 0;
    })
      ≡ some s')
    × (s'.free_pages_list ≡ 1)
    × IsLinked s'.links 1 (seq 2 127)
    × ((j : ℕ) → 1 ≤ j → j ≤ 128 → s'.physical_addr j ≡ 0x200000 * j)
init_pfa_list-IsLinked_example =
    init_pfa_list-IsLinked 200
      (record {
        links = record { next = zeros; prev = zeros };
        physical_addr = zeros;
        free_pages_list = 0;
      })
      (omega arith) (λ j. refl)

free_physical_pages-allocate_physical_pages_example :
    (p : ℕ) × (t : Pages) × (u : Pages) × (allocate_physical_pages 9 three 2 ≡ some (p, t))
    × (free_physical_pages 9 t p ≡ some u)
    × (u.free_pages_list ≡ 1)
    × (ys : List ℕ) × IsLinked u.links u.free_pages_list ys
    × Perm ys (2 ∷ 3 ∷ [])
unfolding rev
free_physical_pages-allocate_physical_pages_example =
    free_physical_pages-allocate_physical_pages 9 three [] 3 (2 ∷ []) (ground arith) (ground arith)
      (omega arith) (omega arith)
