-- ===== src/Page/Alloc.antt =====
-- `allocate_physical_pages`: pages that leave the free list make up the list that is returned.
use pios_private.Base.{
  ℕ, suc, ◌≤◌, ◌<◌, ◌≡◌, ◌≢◌, refl, arith, some, List, [], ◌∷◌, ◌++◌, length, length-append, ◌∙◌,
  sym, ap,
}
use mathlib.Core.List.{append_assoc, append-nil}
use std.Path.{subst}
use pios_private.Links.{Links}
use pios_private.Links.Linked.{Apart, AreDistinct, AreDistinct-drop, IsLinked, Apart-append}
use pios_private.Page.{take_pages, add_pages, add_to_first, allocate_physical_pages, Pages}
use pios_private.Page.Frame.{IsLinked-Keeps, AreLinkedNowhere, AreLinkedNowhere-Keeps}
use pios_private.Page.Distinct.{
  rev, AreDistinct-front, AreDistinct-Apart, AreApart-behind, Apart-rev, AreDistinct-rev,
  AreApart-rev, IsLinked-nonzero, length-rev,
}
use pios_private.Page.Lists.{Keeps, ppage_remove-IsRemoved, ppage_add-IsLinked}

-- `npages` rounds take the last pages of the free list, the last one first.
take_pages_lem :
    (fuel : ℕ) (pgs : List ℕ) (h : Links) (head : ℕ) (xs : List ℕ)
    → IsLinked h head (xs ++ rev pgs)
    → AreDistinct (head ∷ xs ++ rev pgs)
    → head ≢ 0
    → suc (length (xs ++ rev pgs)) ≤ fuel
    → (h' : Links) × (take_pages fuel head h (length pgs) ≡ some (pgs, h'))
      × IsLinked h' head xs
      × ((j : ℕ) → Apart j (head ∷ xs ++ rev pgs) → h'.next j ≡ h.next j)
      × AreLinkedNowhere h' pgs
unfolding take_pages rev AreLinkedNowhere
take_pages_lem fuel [] h head xs k d nn enough =
    (h, refl, rw (append-nil xs) at k, λ j out. refl, tt)
take_pages_lem fuel (a ∷ pgs) h head xs k d nn enough =
    let ys = xs ++ rev pgs in
    let e = sym (append_assoc xs (rev pgs) (a ∷ [])) in
    let k' : IsLinked h head (ys ++ a ∷ []) = subst (IsLinked h head) e k in
    let d' : AreDistinct (head ∷ ys ++ a ∷ []) = subst (λ zs. AreDistinct (head ∷ zs)) e d in
    let size : length (xs ++ (rev pgs ++ a ∷ [])) ≡ suc (length ys) =
      ap length e ∙ length-append ys (a ∷ []) ∙ omega arith in
    let (h₁, e₁, removed) =
      ppage_remove-IsRemoved fuel h head a ys k' d' nn (omega (arith, size, enough)) in
    let (h₂, e₂, k₂, kept, loose) =
      take_pages_lem fuel pgs h₁ head xs removed.left (AreDistinct-front (head ∷ ys) (a ∷ []) d') nn
        (omega (arith, size, enough)) in
    let front : (j : ℕ) → Apart j (head ∷ xs ++ (rev pgs ++ a ∷ [])) → Apart j (head ∷ ys) =
      λ j out. (Apart-append j (head ∷ ys) (a ∷ []) (subst (λ zs. Apart j (head ∷ zs)) e out)).0 in
    (
      h₂,
      rw (e₁, e₂) refl,
      k₂,
      λ j out. kept j (front j out) ∙ removed.kept j (front j out),
      (kept a (AreDistinct-Apart (head ∷ ys) [] a d') ∙ removed.single, loose),
    )

-- The pages are added one by one to the end of a list.
add_pages_lem :
    (fuel : ℕ) (bs : List ℕ) (h : Links) (p : ℕ) (ys : List ℕ)
    → IsLinked h p ys
    → AreLinkedNowhere h bs
    → AreDistinct (p ∷ ys ++ bs)
    → p ≢ 0
    → Apart 0 bs
    → length (ys ++ bs) < fuel
    → (h' : Links) × (add_pages fuel p h bs ≡ some h')
      × IsLinked h' p (ys ++ bs)
      × Keeps h h' (p ∷ ys ++ bs)
unfolding add_pages AreLinkedNowhere
add_pages_lem fuel [] h p ys k loose d nn na enough = (
  h,
  refl,
  subst (IsLinked h p) (sym (append-nil ys)) k,
  record { next = λ j out. refl; prev = λ j out. refl },
)
add_pages_lem fuel (a ∷ bs) h p ys k loose d nn na enough =
    let e = append_assoc ys (a ∷ []) bs in
    let d' : AreDistinct (p ∷ (ys ++ a ∷ []) ++ bs) =
      subst (λ zs. AreDistinct (p ∷ zs)) (sym e) d in
    let size = ap length e in
    let (h₁, e₁, k₁, keeps₁) =
      ppage_add-IsLinked fuel h p a ys [] k loose.0 (AreDistinct-front (p ∷ ys ++ a ∷ []) bs d') nn
        na.0 (omega (arith, enough, length-append ys (a ∷ bs))) in
    let out = AreApart-behind (p ∷ ys ++ a ∷ []) bs d' in
    let (h₂, e₂, k₂, keeps₂) =
      add_pages_lem fuel bs h₁ p (ys ++ a ∷ []) k₁
        (AreLinkedNowhere-Keeps h h₁ _ bs keeps₁ out loose.1) d' nn na.1
        (omega (arith, size, enough)) in
    let whole : (j : ℕ) → Apart j (p ∷ ys ++ a ∷ bs) → Apart j (p ∷ (ys ++ a ∷ []) ++ bs) =
      λ j out. subst (λ zs. Apart j (p ∷ zs)) (sym e) out in
    let front : (j : ℕ) → Apart j (p ∷ ys ++ a ∷ bs) → Apart j (p ∷ ys ++ a ∷ []) =
      λ j out. (Apart-append j (p ∷ ys ++ a ∷ []) bs (whole j out)).0 in
    (
      h₂,
      rw (e₁, e₂) refl,
      subst (IsLinked h₂ p) e k₂,
      record {
        next = λ j out. keeps₂.next j (whole j out) ∙ keeps₁.next j (front j out);
        prev = λ j out. keeps₂.prev j (whole j out) ∙ keeps₁.prev j (front j out);
      },
    )

-- `allocate_physical_pages` of at least one page and fewer than are free, with distinct pages and
-- fuel for the free ones, returns: the pages at the end of the free list make up the list that is
-- returned, the last one first, and the other pages are the free list, in their order.
pub allocate_physical_pages-IsLinked :
    (fuel : ℕ) (s : Pages) (xs : List ℕ) (a : ℕ) (bs : List ℕ)
    → IsLinked s.links s.free_pages_list (xs ++ rev (a ∷ bs))
    → AreDistinct (s.free_pages_list ∷ xs ++ rev (a ∷ bs))
    → s.free_pages_list ≢ 0
    → length (xs ++ rev (a ∷ bs)) < fuel
    → (h : Links) × (allocate_physical_pages fuel s (suc (length bs))
        ≡ some (a, record s { links = h }))
      × IsLinked h s.free_pages_list xs
      × IsLinked h a bs
unfolding allocate_physical_pages add_to_first AreLinkedNowhere
allocate_physical_pages-IsLinked fuel s xs a bs k d nn enough =
    let f = s.free_pages_list in
    let (h₁, e₁, free, kept, loose) = take_pages_lem fuel (a ∷ bs) s.links f xs k d nn enough in
    let distinct = AreDistinct-rev (a ∷ bs) (AreDistinct-drop (f ∷ xs) (rev (a ∷ bs)) d) in
    let some_page =
      Apart-rev 0 (a ∷ bs) (Apart-append 0 xs (rev (a ∷ bs)) (IsLinked-nonzero s.links f _ k)).1 in
    let (h₂, e₂, taken, keeps) =
      add_pages_lem fuel bs h₁ a [] loose.0 loose.1 distinct some_page.0 some_page.1
        (omega (arith, enough, length-append xs (rev (a ∷ bs)), length-rev (a ∷ bs))) in
    (
      h₂,
      rw (e₁, e₂) refl,
      IsLinked-Keeps h₁ h₂ (a ∷ bs) f xs keeps (AreApart-rev (a ∷ bs) (f ∷ xs) d) free,
      taken,
    )
