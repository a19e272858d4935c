-- ===== src/Page/Frame.antt =====
-- What an operation on other pages leaves as it was.
use pios_private.Base.{ℕ, ◌≡◌, List, [], ◌∷◌, ◌∙◌}
use pios_private.Links.{Links}
use pios_private.Links.Linked.{IsLinked}
use pios_private.Page.Distinct.{AreApart}
use pios_private.Page.Lists.{Keeps}

pub IsLinked-Keeps :
    (h h' : Links) (ws : List ℕ) (p : ℕ) (xs : List ℕ)
    → Keeps h h' ws
    → AreApart ws (p ∷ xs)
    → IsLinked h p xs
    → IsLinked h' p xs
IsLinked-Keeps h h' ws p [] keeps out k = keeps.next p out.0 ∙ k
IsLinked-Keeps h h' ws p (x ∷ xs) keeps out k = (
  keeps.next p out.0 ∙ k.0,
  k.1,
  keeps.prev x out.1.0 ∙ k.2,
  IsLinked-Keeps h h' ws x xs keeps out.1 k.3,
)

-- Nothing follows any of these pages.
unfoldable pub AreLinkedNowhere : Links → List ℕ → Type 0
AreLinkedNowhere h [] = Unit {0}
AreLinkedNowhere h (x ∷ xs) = (h.next x ≡ 0) × AreLinkedNowhere h xs

pub AreLinkedNowhere-Keeps :
    (h h' : Links) (ws bs : List ℕ)
    → Keeps h h' ws
    → AreApart ws bs
    → AreLinkedNowhere h bs
    → AreLinkedNowhere h' bs
unfolding AreLinkedNowhere
AreLinkedNowhere-Keeps h h' ws [] keeps out k = tt
AreLinkedNowhere-Keeps h h' ws (a ∷ bs) keeps out k =
    (keeps.next a out.0 ∙ k.0, AreLinkedNowhere-Keeps h h' ws bs keeps out.1 k.1)
