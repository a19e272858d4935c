-- ===== src/ListElement/Examples.antt =====
-- The lists of src/list.c at concrete elements.
use pios_private.Base.{◌≡◌, arith, some, ◌==◌, if◌then◌else◌, [], ◌∷◌}
use pios_private.Links.{Links}
use pios_private.Links.Linked.{IsLinked}
use pios_private.ListElement.{list_add, list_remove}
use pios_private.ListElement.Laws.{list_add-IsLinked, list_remove-IsLinked}

-- The elements 7 and 8 behind the head 5.
abbrev two : Links
two = record {
  next = λ j. if j == 5 then 7 else if j == 7 then 8 else 0;
  prev = λ j. if j == 7 then 5 else if j == 8 then 7 else 0;
}

list_add-IsLinked_example : IsLinked (list_add two 5 9) 5 (9 ∷ 7 ∷ 8 ∷ [])
list_add-IsLinked_example =
    list_add-IsLinked two 5 9 (7 ∷ 8 ∷ []) (ground arith) (ground arith) (ground arith)
      (omega arith)

list_remove-IsLinked_example :
    (h' : Links) × (list_remove two 7 ≡ some h')
    × IsLinked h' 5 (8 ∷ [])
    × (h'.next 7 ≡ 0)
    × (h'.prev 7 ≡ 0)
list_remove-IsLinked_example =
    list_remove-IsLinked two 5 7 [] (8 ∷ []) (ground arith) (ground arith) (omega arith)
