-- ===== src/Page.antt =====
-- The page allocator of src/page.c: a list of free pages, whose head is the first element of
-- `physical_page_array`. The page with index `i` of the array has the address `i + 1` here.
-- A walk to the end of a list takes fuel, the number of elements that it may visit. `none` also
-- stands for reading a link of NULL, and for the use of an array element that has not been set.
pub mod Lists
pub mod Distinct
pub mod Frame
pub mod Init
pub mod Alloc
pub mod Free
mod Examples
use pios_private.Base.{
  ℕ, zero, suc, ◌+◌, ◌-◌, Option, none, some, List, [], ◌∷◌, ◌==◌, if◌then◌else◌, ◌>>=◌,
}
use pios_private.Mem.{write}
use pios_private.Links.{Links, set_next, set_prev}

-- `while (iterator->next != NULL) iterator = iterator->next;`
unfoldable pub last_element : ℕ → Links → ℕ → Option ℕ
last_element zero h iterator = none
last_element (suc f) h iterator =
    let rest = last_element f h (h.next iterator) in
    if iterator == 0 then none else if h.next iterator == 0 then some iterator else rest

unfoldable pub ppage_add : ℕ → Links → (head new_element : ℕ) → Option Links
ppage_add fuel h head new_element = do
  iterator ← last_element fuel h head
  if new_element == 0
      then none
      else some (set_prev (set_next h iterator new_element) new_element iterator)

-- The last element, taken off the list; `none` if it has no predecessor.
unfoldable pub ppage_remove : ℕ → Links → ℕ → Option (ℕ × Links)
ppage_remove fuel h b = do
  last ← last_element fuel h b
  let iterator = h.prev last
  let temp = h.next iterator
  let h₁ = set_prev h temp 0
  if iterator == 0
      then none
      else if temp == 0
      then none
      else some (h₁.next iterator, set_next h₁ iterator 0)

abbrev pub number_pages : ℕ
number_pages = 128

-- `physical_page_array` and `free_pages_list`
pub record Pages : Type 0 where
  pub links : Links
  pub physical_addr : ℕ → ℕ
  pub free_pages_list : ℕ

-- The loop of `init_pfa_list` from page `i` on, for `n` pages.
unfoldable pub init_loop : ℕ → (n i pages_address : ℕ) → Pages → Option Pages
init_loop fuel zero i pages_address s = some s
init_loop fuel (suc n) i pages_address s = do
  links ← ppage_add fuel s.links s.free_pages_list (suc i)
  init_loop fuel n (suc i) (pages_address + 0x200000)
      (record s { links = links; physical_addr = write s.physical_addr (suc i) pages_address })

unfoldable pub init_pfa_list : ℕ → Pages → Option Pages
init_pfa_list fuel s =
    init_loop fuel (number_pages - 1) 1 0x400000
      (record s { free_pages_list = 1; physical_addr = write s.physical_addr 1 0x200000 })

unfoldable pub free_physical_pages : ℕ → Pages → (ppage_list : ℕ) → Option Pages
free_physical_pages fuel s ppage_list = do
  links ← ppage_add fuel s.links s.free_pages_list ppage_list
  some (record s { links = links })

-- The while loop of `allocate_physical_pages`: the pages `pgs`, and the links that remain.
unfoldable pub take_pages : ℕ → ℕ → Links → (npages : ℕ) → Option (List ℕ × Links)
take_pages fuel head h zero = some ([], h)
take_pages fuel head h (suc n) = do
  (page, h₁) ← ppage_remove fuel h head
  (pages, h₂) ← take_pages fuel head h₁ n
  some (page ∷ pages, h₂)

-- The for loop that follows.
unfoldable pub add_pages : ℕ → ℕ → Links → List ℕ → Option Links
add_pages fuel allocd_list h [] = some h
add_pages fuel allocd_list h (page ∷ pages) = do
  h₁ ← ppage_add fuel h allocd_list page
  add_pages fuel allocd_list h₁ pages

unfoldable pub add_to_first : ℕ → Links → List ℕ → Option (ℕ × Links)
add_to_first fuel h [] = none
add_to_first fuel h (page ∷ pages) = do h₁ ← add_pages fuel page h pages; some (page, h₁)

unfoldable pub allocate_physical_pages : ℕ → Pages → (npages : ℕ) → Option (ℕ × Pages)
allocate_physical_pages fuel s npages = do
  (pgs, h) ← take_pages fuel s.free_pages_list s.links npages
  (allocd_list, h₁) ← add_to_first fuel h pgs
  some (allocd_list, record s { links = h₁ })
