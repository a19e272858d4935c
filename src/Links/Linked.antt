-- ===== src/Links/Linked.antt =====
-- Lists of linked elements.
use pios_private.Base.{ℕ, ◌≡◌, ◌≢◌, arith, List, [], ◌∷◌, ◌++◌}
use pios_private.Mem.{write}
use pios_private.Links.{Links, set_next, set_prev}

-- `a` is none of the addresses.
abbrev pub Apart : ℕ → List ℕ → Type 0
Apart a [] = Unit {0}
Apart a (x ∷ xs) = (x ≢ a) × Apart a xs

abbrev pub AreDistinct : List ℕ → Type 0
AreDistinct [] = Unit {0}
AreDistinct (x ∷ xs) = Apart x xs × AreDistinct xs

-- The elements `xs` follow the element `p`, linked in both directions, and end the list.
abbrev pub IsLinked : Links → ℕ → List ℕ → Type 0
IsLinked h p [] = h.next p ≡ 0
IsLinked h p (x ∷ xs) = (h.next p ≡ x) × (x ≢ 0) × (h.prev x ≡ p) × IsLinked h x xs

-- The last element, and the one that follows.
abbrev pub last_of : ℕ → List ℕ → ℕ
last_of p [] = p
last_of p (x ∷ xs) = last_of x xs

abbrev pub first_of : List ℕ → ℕ
first_of [] = 0
first_of (x ∷ xs) = x

-- Links elsewhere do not matter.
pub IsLinked-set_next :
    (h : Links) (a v p : ℕ) (xs : List ℕ)
    → Apart a (p ∷ xs)
    → IsLinked h p xs
    → IsLinked (set_next h a v) p xs
unfolding set_next write
IsLinked-set_next h a v p [] out k = ground arith
IsLinked-set_next h a v p (x ∷ xs) out k =
    (ground arith, k.1, k.2, IsLinked-set_next h a v x xs out.1 k.3)

pub IsLinked-set_prev :
    (h : Links) (a v p : ℕ) (xs : List ℕ)
    → Apart a xs
    → IsLinked h p xs
    → IsLinked (set_prev h a v) p xs
unfolding set_prev write
IsLinked-set_prev h a v p [] out k = k
IsLinked-set_prev h a v p (x ∷ xs) out k =
    (k.0, k.1, ground arith, IsLinked-set_prev h a v x xs out.1 k.3)

pub Apart-append : (a : ℕ) (xs ys : List ℕ) → Apart a (xs ++ ys) → Apart a xs × Apart a ys
Apart-append a [] ys h = (tt, h)
Apart-append a (x ∷ xs) ys h = let (l, r) = Apart-append a xs ys h.1 in ((h.0, l), r)

pub last_of-ne : (a p : ℕ) (xs : List ℕ) → Apart a (p ∷ xs) → last_of p xs ≢ a
last_of-ne a p [] h = h.0
last_of-ne a p (x ∷ xs) h = last_of-ne a x xs h.1

-- The links of an element in the middle.
pub prev_last :
    (h : Links) (p b : ℕ) (xs ys : List ℕ) → IsLinked h p (xs ++ b ∷ ys) → h.prev b ≡ last_of p xs
prev_last h p b [] ys k = k.2
prev_last h p b (x ∷ xs) ys k = prev_last h x b xs ys k.3

pub next_last : (h : Links) (p : ℕ) (xs : List ℕ) → IsLinked h p xs → h.next (last_of p xs) ≡ 0
next_last h p [] k = k
next_last h p (x ∷ xs) k = next_last h x xs k.3

pub next_first : (h : Links) (p : ℕ) (xs : List ℕ) → IsLinked h p xs → h.next p ≡ first_of xs
next_first h p [] k = k
next_first h p (x ∷ xs) k = k.0

pub IsLinked-drop :
    (h : Links) (p b : ℕ) (xs ys : List ℕ) → IsLinked h p (xs ++ b ∷ ys) → IsLinked h b ys
IsLinked-drop h p b [] ys k = k.3
IsLinked-drop h p b (x ∷ xs) ys k = IsLinked-drop h x b xs ys k.3

pub first_of-ne : (a : ℕ) (xs : List ℕ) → Apart a xs → a ≢ 0 → first_of xs ≢ a
first_of-ne a [] h nn = ground arith
first_of-ne a (x ∷ xs) h nn = h.0

-- Every element of a list is not NULL, and if the head is not either, neither is the last one.
pub last_of-nonzero :
    (h : Links) (p : ℕ) (xs : List ℕ) (rest : List ℕ)
    → IsLinked h p (xs ++ rest)
    → p ≢ 0
    → last_of p xs ≢ 0
last_of-nonzero h p [] rest k nn = nn
last_of-nonzero h p (x ∷ xs) rest k nn = last_of-nonzero h x xs rest k.3 k.1

pub IsLinked-ne : (h : Links) (p b : ℕ) (xs ys : List ℕ) → IsLinked h p (xs ++ b ∷ ys) → b ≢ 0
IsLinked-ne h p b [] ys k = k.1
IsLinked-ne h p b (x ∷ xs) ys k = IsLinked-ne h x b xs ys k.3

pub AreDistinct-drop : (xs ys : List ℕ) → AreDistinct (xs ++ ys) → AreDistinct ys
AreDistinct-drop [] ys h = h
AreDistinct-drop (x ∷ xs) ys h = AreDistinct-drop xs ys h.1
