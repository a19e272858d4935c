-- ===== src/Page/Distinct.antt =====
-- Lists of distinct pages.
use pios_private.Base.{ℕ, ◌≡◌, List, [], ◌∷◌, ◌++◌, sym, arith, refl, ◌∙◌, length, length-append}
use mathlib.Core.List.{append_assoc}
use std.Path.{subst}
use pios_private.Links.{Links}
use pios_private.Links.Linked.{Apart, AreDistinct, IsLinked, Apart-append}

-- The pages in the order in which they stand in the free list before they are taken.
unfoldable pub rev : List ℕ → List ℕ
rev [] = []
rev (x ∷ xs) = rev xs ++ x ∷ []

-- No page of `ws` is one of `zs`.
abbrev pub AreApart : List ℕ → List ℕ → Type 0
AreApart ws [] = Unit {0}
AreApart ws (z ∷ zs) = Apart z ws × AreApart ws zs

-- Splitting a list of distinct pages.
pub AreDistinct-front : (xs ys : List ℕ) → AreDistinct (xs ++ ys) → AreDistinct xs
AreDistinct-front [] ys d = tt
AreDistinct-front (x ∷ xs) ys d = ((Apart-append x xs ys d.0).0, AreDistinct-front xs ys d.1)

pub AreDistinct-Apart : (xs ys : List ℕ) (a : ℕ) → AreDistinct (xs ++ a ∷ ys) → Apart a xs
AreDistinct-Apart [] ys a d = tt
AreDistinct-Apart (x ∷ xs) ys a d =
    ((λ e. (Apart-append x xs (a ∷ ys) d.0).1.0 (sym e)), AreDistinct-Apart xs ys a d.1)

AreApart-front : (xs zs ws : List ℕ) → AreApart (xs ++ zs) ws → AreApart xs ws
AreApart-front xs zs [] h = tt
AreApart-front xs zs (w ∷ ws) h = ((Apart-append w xs zs h.0).0, AreApart-front xs zs ws h.1)

pub AreApart-behind : (xs ys : List ℕ) → AreDistinct (xs ++ ys) → AreApart xs ys
AreApart-behind xs [] d = tt
AreApart-behind xs (y ∷ ys) d =
    let d' = subst AreDistinct (sym (append_assoc xs (y ∷ []) ys)) d in
    (
      AreDistinct-Apart xs ys y d,
      AreApart-front xs (y ∷ []) ys (AreApart-behind (xs ++ y ∷ []) ys d'),
    )

pub Apart-rev : (a : ℕ) (xs : List ℕ) → Apart a (rev xs) → Apart a xs
unfolding rev
Apart-rev a [] h = tt
Apart-rev a (x ∷ xs) h =
    let (front, last) = Apart-append a (rev xs) (x ∷ []) h in (last.0, Apart-rev a xs front)

pub AreDistinct-rev : (xs : List ℕ) → AreDistinct (rev xs) → AreDistinct xs
unfolding rev
AreDistinct-rev [] d = tt
AreDistinct-rev (x ∷ xs) d = (
  Apart-rev x xs (AreDistinct-Apart (rev xs) [] x d),
  AreDistinct-rev xs (AreDistinct-front (rev xs) (x ∷ []) d),
)

pub AreApart-rev : (ws zs : List ℕ) → AreDistinct (zs ++ rev ws) → AreApart ws zs
AreApart-rev ws [] d = tt
AreApart-rev ws (z ∷ zs) d =
    (Apart-rev z ws (Apart-append z zs (rev ws) d.0).1, AreApart-rev ws zs d.1)

pub IsLinked-nonzero : (h : Links) (p : ℕ) (xs : List ℕ) → IsLinked h p xs → Apart 0 xs
IsLinked-nonzero h p [] k = tt
IsLinked-nonzero h p (x ∷ xs) k = (k.1, IsLinked-nonzero h x xs k.3)

pub length-rev : (xs : List ℕ) → length (rev xs) ≡ length xs
unfolding rev
length-rev [] = refl
length-rev (x ∷ xs) = length-append (rev xs) (x ∷ []) ∙ omega (arith, length-rev xs)
