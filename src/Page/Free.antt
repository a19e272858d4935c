-- ===== src/Page/Free.antt =====
-- `free_physical_pages` behind `allocate_physical_pages`: the pages are free again.
use pios_private.Base.{
  ℕ, suc, ◌<◌, ◌≡◌, ◌≢◌, refl, arith, some, List, [], ◌∷◌, ◌++◌, length, length-append,
}
use mathlib.Core.List.{Perm, perm_append_singleton}
use mathlib.Core.List.Perm
use pios_private.Links.Linked.{Apart, AreDistinct, AreDistinct-drop, IsLinked, Apart-append}
use pios_private.Page.{allocate_physical_pages, free_physical_pages, Pages}
use pios_private.Page.Distinct.{
  rev, AreApart, AreApart-rev, AreDistinct-rev, AreDistinct-front, Apart-rev, IsLinked-nonzero,
}
use pios_private.Page.Lists.{ppage_add-IsLinked}
use pios_private.Page.Alloc.{allocate_physical_pages-IsLinked}

Apart-join : (a : ℕ) (xs ys : List ℕ) → Apart a xs → Apart a ys → Apart a (xs ++ ys)
Apart-join a [] ys h k = k
Apart-join a (x ∷ xs) ys h k = (h.0, Apart-join a xs ys h.1 k)

AreDistinct-join :
    (xs ys : List ℕ) → AreDistinct xs → AreDistinct ys → AreApart ys xs → AreDistinct (xs ++ ys)
AreDistinct-join [] ys h k apart = k
AreDistinct-join (x ∷ xs) ys h k apart =
    (Apart-join x xs ys h.0 apart.0, AreDistinct-join xs ys h.1 k apart.1)

rev-Perm : (xs : List ℕ) → Perm (rev xs) xs
unfolding rev
rev-Perm [] = Perm.nil
rev-Perm (x ∷ xs) = Perm.trans (perm_append_singleton x (rev xs)) (Perm.cons x (rev-Perm xs))

-- `allocate_physical_pages` of at least one page and fewer than are free, with distinct pages and
-- fuel for the free ones, returns a list, and `free_physical_pages` of that list returns: the free
-- list begins with the same page and is linked, and the pages behind the first one are a
-- permutation of those that were there before.
pub free_physical_pages-allocate_physical_pages :
    (fuel : ℕ) (s : Pages) (xs : List ℕ) (a : ℕ) (bs : List ℕ)
    → IsLinked s.links s.free_pages_list (xs ++ rev (a ∷ bs))
    → AreDistinct (s.free_pages_list ∷ xs ++ rev (a ∷ bs))
    → s.free_pages_list ≢ 0
    → length (xs ++ rev (a ∷ bs)) < fuel
    → (p : ℕ) × (t : Pages) × (u : Pages) × (allocate_physical_pages fuel s (suc (length bs))
        ≡ some (p, t))
      × (free_physical_pages fuel t p ≡ some u)
      × (u.free_pages_list ≡ s.free_pages_list)
      × (ys : List ℕ) × IsLinked u.links u.free_pages_list ys
      × Perm ys (xs ++ rev (a ∷ bs))
unfolding free_physical_pages
free_physical_pages-allocate_physical_pages fuel s xs a bs k d nn enough =
    let f = s.free_pages_list in
    let (h, e, free, taken) = allocate_physical_pages-IsLinked fuel s xs a bs k d nn enough in
    let distinct =
      AreDistinct-join (f ∷ xs) (a ∷ bs) (AreDistinct-front (f ∷ xs) (rev (a ∷ bs)) d)
        (AreDistinct-rev (a ∷ bs) (AreDistinct-drop (f ∷ xs) (rev (a ∷ bs)) d))
        (AreApart-rev (a ∷ bs) (f ∷ xs) d) in
    let nonzero =
      (Apart-rev 0 (a ∷ bs)
        (Apart-append 0 xs (rev (a ∷ bs)) (IsLinked-nonzero s.links f _ k)).1).0 in
    let (h', e', joined, keeps) =
      ppage_add-IsLinked fuel h f a xs bs free taken distinct nn nonzero
        (omega (arith, enough, length-append xs (rev (a ∷ bs)))) in
    (
      a,
      record s { links = h },
      record s { links = h' },
      e,
      rw e' refl,
      refl,
      xs ++ a ∷ bs,
      joined,
      Perm.append_left xs (Perm.symm (rev-Perm (a ∷ bs))),
    )
