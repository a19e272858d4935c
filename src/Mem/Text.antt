-- ===== src/Mem/Text.antt =====
-- NUL-terminated strings in memory.
use pios_private.Base.{ℕ, zero, suc, ◌+◌, ◌≡◌, ◌≢◌, arith, List, [], ◌∷◌, ◌++◌, length, ◌<◌, get_or}
use native.Mathlib.Nat.{add-zero}
use pios_private.Mem.Defs.{Bytes}

-- From offset `p` on, `b` holds the characters `xs` and then a NUL.
abbrev pub TextAt : Bytes → ℕ → List ℕ → Type 0
TextAt b p [] = b p ≡ 0
TextAt b p (x ∷ xs) = (b p ≡ x) × (x ≢ 0) × TextAt b (suc p) xs

abbrev pub IsText : Bytes → List ℕ → Type 0
IsText b xs = TextAt b 0 xs

module _ (b : Bytes) where
  -- The bytes that a text and its terminator take.
  pub TextAt-char :
      (xs : List ℕ) (p i : ℕ) → TextAt b p xs → i < suc (length xs) → b (p + i) ≡ get_or xs i 0
  TextAt-char [] p zero h lt = rw add-zero h
  TextAt-char [] p (suc i) h lt = absurd (omega arith)
  TextAt-char (x ∷ xs) p zero h lt = rw add-zero h.0
  TextAt-char (x ∷ xs) p (suc i) h lt =
      let e : p + suc i ≡ suc p + i = omega arith in
      rw e (TextAt-char xs (suc p) i h.2 (omega arith))

  -- The terminator is the first NUL.
  pub TextAt-ne : (xs : List ℕ) (p i : ℕ) → TextAt b p xs → i < length xs → b (p + i) ≢ 0
  TextAt-ne [] p i h lt = absurd (omega arith)
  TextAt-ne (x ∷ xs) p zero h lt = rw add-zero (rw h.0 h.1)
  TextAt-ne (x ∷ xs) p (suc i) h lt =
      let e : p + suc i ≡ suc p + i = omega arith in rw e (TextAt-ne xs (suc p) i h.2 (omega arith))

  -- A text survives in any memory that has the same bytes, there or elsewhere.
  pub TextAt-same :
      (c : Bytes) (xs : List ℕ) (p q : ℕ)
      → ((i : ℕ) → i < suc (length xs) → c (q + i) ≡ b (p + i))
      → TextAt b p xs
      → TextAt c q xs
  TextAt-same c [] p q same h = ground (arith, same 0, add-zero p, add-zero q)
  TextAt-same c (x ∷ xs) p q same h = (
    ground (arith, same 0, add-zero p, add-zero q),
    h.1,
    TextAt-same c xs (suc p) (suc q)
        (λ i lt.
          let e : suc q + i ≡ q + suc i = omega arith in
          let e' : suc p + i ≡ p + suc i = omega arith in rw (e, e') (same (suc i) (omega arith)))
        h.2,
  )

  -- What follows the first characters of a text is a text.
  pub TextAt-drop : (xs ys : List ℕ) (p : ℕ) → TextAt b p (xs ++ ys) → TextAt b (p + length xs) ys
  TextAt-drop [] ys p h = rw add-zero h
  TextAt-drop (x ∷ xs) ys p h =
      let e : p + suc (length xs) ≡ suc p + length xs = omega arith in
      rw e (TextAt-drop xs ys (suc p) h.2)
