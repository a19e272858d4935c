-- ===== src/Page/Lists.antt =====
-- Adding to a list of pages, and taking its last page.
use pios_private.Base.{
  ℕ, zero, suc, ◌<◌, ◌≡◌, ◌≢◌, refl, arith, some, List, [], ◌∷◌, ◌++◌, length, length-append, ◌∙◌,
  ne→==,
}
use pios_private.Mem.{write}
use pios_private.Links.{Links, set_next, set_prev}
use pios_private.Links.Linked.{
  Apart, AreDistinct, IsLinked, last_of, IsLinked-set_next, IsLinked-set_prev, Apart-append,
  last_of-ne, prev_last, last_of-nonzero, IsLinked-ne, next_last,
}
use pios_private.Page.{last_element, ppage_add, ppage_remove}

pub last_element-last_of :
    (xs : List ℕ) (fuel p : ℕ) (h : Links)
    → IsLinked h p xs
    → p ≢ 0
    → length xs < fuel
    → last_element fuel h p ≡ some (last_of p xs)
unfolding last_element
last_element-last_of xs zero p h k nn enough = absurd (omega arith)
last_element-last_of [] (suc f) p h k nn enough = rw (k, ne→== p 0 nn)
last_element-last_of (x ∷ xs) (suc f) p h k nn enough =
    rw (k.0, ne→== p 0 nn, ne→== x 0 k.1) (last_element-last_of xs f x h k.3 k.1 (omega arith))

-- The links after `ppageAdd`.
unfoldable pub attached : Links → (last a : ℕ) → Links
attached h last a = set_prev (set_next h last a) a last

attached-IsLinked :
    (h : Links) (p a : ℕ) (xs ys : List ℕ)
    → IsLinked h p xs
    → IsLinked h a ys
    → AreDistinct (p ∷ xs ++ a ∷ ys)
    → a ≢ 0
    → IsLinked (attached h (last_of p xs) a) p (xs ++ a ∷ ys)
unfolding attached set_next set_prev write
attached-IsLinked h p a [] ys k m distinct nn = (
  ground arith,
  nn,
  ground arith,
  IsLinked-set_prev (set_next h p a) a p a ys distinct.1.0
      (IsLinked-set_next h p a a ys distinct.0 m),
)
attached-IsLinked h p a (x ∷ xs) ys k m distinct nn = (
  ground (arith, last_of-ne p x xs (Apart-append p (x ∷ xs) (a ∷ ys) distinct.0).0, k.0),
  k.1,
  ground (arith, k.2, (Apart-append x xs (a ∷ ys) distinct.1.0).1.0),
  attached-IsLinked h x a xs ys k.3 m distinct.1 nn,
)

-- Both links of every page outside `ws` are as they were.
pub record Keeps (h h' : Links) (ws : List ℕ) : Type 0 where
  pub next : (j : ℕ) → Apart j ws → h'.next j ≡ h.next j
  pub prev : (j : ℕ) → Apart j ws → h'.prev j ≡ h.prev j

attached-Keeps :
    (h : Links) (p a : ℕ) (xs : List ℕ) → Keeps h (attached h (last_of p xs) a) (p ∷ xs ++ a ∷ [])
unfolding attached set_next set_prev write
attached-Keeps h p a xs = record {
  next = λ j out. ground (arith, last_of-ne j p xs (Apart-append j (p ∷ xs) (a ∷ []) out).0);
  prev = λ j out. ground (arith, (Apart-append j (p ∷ xs) (a ∷ []) out).1.0);
}

-- `ppageAdd` of a list of pages to another one, without common pages and with fuel for the pages
-- of the latter: both are one list then, the new pages at its end, and no other page's
-- links change.
pub ppage_add-IsLinked :
    (fuel : ℕ) (h : Links) (head a : ℕ) (xs ys : List ℕ)
    → IsLinked h head xs
    → IsLinked h a ys
    → AreDistinct (head ∷ xs ++ a ∷ ys)
    → head ≢ 0
    → a ≢ 0
    → length xs < fuel
    → (h' : Links) × (ppage_add fuel h head a ≡ some h')
      × IsLinked h' head (xs ++ a ∷ ys)
      × Keeps h h' (head ∷ xs ++ a ∷ [])
unfolding ppage_add attached
ppage_add-IsLinked fuel h head a xs ys k m distinct nn na enough = (
  attached h (last_of head xs) a,
  rw (last_element-last_of xs fuel head h k nn enough, ne→== a 0 na) refl,
  attached-IsLinked h head a xs ys k m distinct na,
  attached-Keeps h head a xs,
)

last_of-append : (p : ℕ) (xs : List ℕ) (a : ℕ) → last_of p (xs ++ a ∷ []) ≡ a
last_of-append p [] a = refl
last_of-append p (x ∷ xs) a = last_of-append x xs a

last_next :
    (h : Links) (p a : ℕ) (xs : List ℕ) → IsLinked h p (xs ++ a ∷ []) → h.next (last_of p xs) ≡ a
last_next h p a [] k = k.0
last_next h p a (x ∷ xs) k = last_next h x a xs k.3

-- The links after `ppageRemove`.
unfoldable pub detached : Links → (last a : ℕ) → Links
detached h last a = set_next (set_prev h a 0) last 0

detached-IsLinked :
    (h : Links) (p a : ℕ) (xs : List ℕ)
    → IsLinked h p (xs ++ a ∷ [])
    → AreDistinct (p ∷ xs ++ a ∷ [])
    → IsLinked (detached h (last_of p xs) a) p xs
unfolding detached set_next set_prev write
detached-IsLinked h p a [] k distinct = ground arith
detached-IsLinked h p a (x ∷ xs) k distinct = (
  ground (arith, last_of-ne p x xs (Apart-append p (x ∷ xs) (a ∷ []) distinct.0).0, k.0),
  k.1,
  ground (arith, k.2, (Apart-append x xs (a ∷ []) distinct.1.0).1.0),
  detached-IsLinked h x a xs k.3 distinct.1,
)

-- The links that `ppageRemove` reads and leaves.
detached_links :
    (h : Links) (q a : ℕ)
    → h.next q ≡ a
    → h.next a ≡ 0
    → ((set_prev h a 0).next q ≡ a) × ((detached h q a).next a ≡ 0) × ((detached h q a).prev a ≡ 0)
unfolding detached set_next set_prev write
detached_links h q a e end = (e, ground arith, ground arith)

detached_kept : (h : Links) (q a j : ℕ) → q ≢ j → (detached h q a).next j ≡ h.next j
unfolding detached set_next set_prev write
detached_kept h q a j ne = ground arith

-- What a removal leaves: the other pages are linked, the page is linked to nothing, and no
-- other page's next link changes.
pub record IsRemoved (h h' : Links) (head a : ℕ) (xs : List ℕ) : Type 0 where
  pub left : IsLinked h' head xs
  pub single : h'.next a ≡ 0
  pub first : h'.prev a ≡ 0
  pub kept : (j : ℕ) → Apart j (head ∷ xs) → h'.next j ≡ h.next j

-- `ppageRemove` of a list of at least two distinct pages, with fuel for its pages, returns its last
-- page, leaves the others linked as they were, and sets both links of the page to NULL.
pub ppage_remove-IsRemoved :
    (fuel : ℕ) (h : Links) (head a : ℕ) (xs : List ℕ)
    → IsLinked h head (xs ++ a ∷ [])
    → AreDistinct (head ∷ xs ++ a ∷ [])
    → head ≢ 0
    → suc (length xs) < fuel
    → (h' : Links) × (ppage_remove fuel h head ≡ some (a, h')) × IsRemoved h h' head a xs
unfolding ppage_remove detached
ppage_remove-IsRemoved fuel h head a xs k distinct nn enough =
    let last : last_of head (xs ++ a ∷ []) ≡ a = last_of-append head xs a in
    let size : length (xs ++ a ∷ []) ≡ suc (length xs) = length-append xs (a ∷ []) ∙ omega arith in
    let q = last_of head xs in
    let follows = last_next h head a xs k in
    let end : h.next a ≡ 0 = rw last at (next_last h head (xs ++ a ∷ []) k) in
    let (page, single, first) = detached_links h q a follows end in
    (
      detached h q a,
      rw
          (
            last_element-last_of (xs ++ a ∷ []) fuel head h k nn (rw size enough),
            last,
            prev_last h head a xs [] k,
            ne→== q 0 (last_of-nonzero h head xs (a ∷ []) k nn),
            follows,
            ne→== a 0 (IsLinked-ne h head a xs [] k),
            page,
          )
          refl,
      record {
        left = detached-IsLinked h head a xs k distinct;
        single = single;
        first = first;
        kept = λ j out. detached_kept h q a j (last_of-ne j head xs out);
      },
    )
