-- ===== src/Clib/Strings.antt =====
-- What strlen, strcpy, strncpy and strcat do to NUL-terminated strings.
use pios_private.Base.{
  ℕ, zero, suc, ◌+◌, ◌≤◌, ◌<◌, ◌≡◌, refl, arith, some, List, [], ◌∷◌, ◌++◌, length, ◌==◌,
  if◌then◌else◌, Bool-cases, ==→ne, ==→eq, ◌∙◌, inl, inr, ap,
}
use native.Mathlib.Nat.{add-zero}
use pios_private.Mem.{Bytes, from, write, write_self}
use pios_private.Mem.Copy.{splice, splice-write, write-splice}
use pios_private.Mem.Text.{TextAt, IsText, TextAt-same}
use pios_private.Clib.{
  strlen_loop, strlen, strcpy_loop, strcpy, strcat_loop, strcat, strncpy_loop, strncpy,
}

strlen_loop-TextAt :
    (xs : List ℕ) (f k : ℕ) (s : Bytes)
    → TextAt s k xs
    → length xs < f
    → strlen_loop f s k ≡ some (k + length xs)
unfolding strlen_loop
strlen_loop-TextAt xs zero k s h fuel = absurd (omega arith)
strlen_loop-TextAt [] (suc f) k s h fuel = ground arith
strlen_loop-TextAt (x ∷ xs) (suc f) k s h fuel = ground (arith, strlen_loop-TextAt xs f (suc k) s)

-- strlen finds the length of a string whose terminator is within its fuel.
pub strlen-length :
    (fuel : ℕ) (xs : List ℕ) (s : Bytes)
    → IsText s xs
    → length xs < fuel
    → strlen fuel s ≡ some (length xs)
unfolding strlen
strlen-length fuel xs s h enough = ground (arith, strlen_loop-TextAt xs fuel 0 s)

strcpy_loop-splice :
    (xs : List ℕ) (f k : ℕ) (d s : Bytes)
    → TextAt s k xs
    → length xs < f
    → strcpy_loop f d s k ≡ some (splice d k (suc (length xs)) (from s k))
unfolding strcpy_loop
strcpy_loop-splice xs zero k d s h fuel = absurd (omega arith)
strcpy_loop-splice [] (suc f) k d s h fuel =
    rw (h, strcpy_loop) (ap some (write-splice d s k k 0 h))
strcpy_loop-splice (x ∷ xs) (suc f) k d s h fuel = ground (
  arith,
  splice-write d s k k (suc (length xs)),
  strcpy_loop-splice xs f (suc k) (write d k (s k)) s,
)

-- With fuel for the string, strcpy copies it with its terminator, and changes nothing behind it.
pub strcpy-splice :
    (fuel : ℕ) (xs : List ℕ) (d s : Bytes)
    → IsText s xs
    → length xs < fuel
    → strcpy fuel d s ≡ some (splice d 0 (suc (length xs)) (from s 0))
unfolding strcpy
strcpy-splice fuel xs d s h enough = strcpy_loop-splice xs fuel 0 d s h enough

strcat_loop-splice :
    (xs : List ℕ) (f p k : ℕ) (d s : Bytes)
    → TextAt s k xs
    → length xs < f
    → strcat_loop f d s p k ≡ some (splice d p (suc (length xs)) (from s k))
unfolding strcat_loop
strcat_loop-splice xs zero p k d s h fuel = absurd (omega arith)
strcat_loop-splice [] (suc f) p k d s h fuel =
    rw (h, strcat_loop) (ap some (write-splice d s p k 0 h))
strcat_loop-splice (x ∷ xs) (suc f) p k d s h fuel = ground (
  arith,
  splice-write d s p k (suc (length xs)),
  strcat_loop-splice xs f (suc p) (suc k) (write d p (s k)) s,
)

-- A string, and behind it the copy of another, make up one string.
pub TextAt-append :
    (xs ys : List ℕ) (p q e : ℕ) (d s : Bytes)
    → e ≡ p + length xs
    → TextAt d p xs
    → TextAt s q ys
    → TextAt (splice d e (suc (length ys)) (from s q)) p (xs ++ ys)
unfolding splice
TextAt-append [] ys p q e d s at h g =
    TextAt-same s (splice d e (suc (length ys)) (from s q)) ys q p (λ i lt. ground arith) g
TextAt-append (x ∷ xs) ys p q e d s at h g =
    (ground arith, h.1, TextAt-append xs ys (suc p) q e d s (omega arith) h.2 g)

-- With fuel for both strings, strcat returns the string in the destination with the source
-- appended.
pub strcat-append :
    (fuel : ℕ) (xs ys : List ℕ) (d s : Bytes)
    → IsText d xs
    → IsText s ys
    → length xs < fuel
    → length ys < fuel
    → (r : Bytes) × (strcat fuel d s ≡ some r) × IsText r (xs ++ ys)
unfolding strcat
strcat-append fuel xs ys d s h g a b = (
  splice d (length xs) (suc (length ys)) (from s 0),
  rw (strlen-length fuel xs d h a) (strcat_loop-splice ys fuel (length xs) 0 d s g b),
  TextAt-append xs ys 0 0 (length xs) d s (omega arith) h g,
)

-- The characters of `s` from `k` on, up to a NUL and at most `n` of them.
unfoldable pub chars : ℕ → Bytes → ℕ → List ℕ
chars zero s k = []
chars (suc n) s k = if s k == 0 then [] else s k ∷ chars n s (suc k)

strncpy_loop-below : (r k : ℕ) (d s : Bytes) (j : ℕ) → j < k → strncpy_loop r d s k j ≡ d j
unfolding strncpy_loop write
strncpy_loop-below zero k d s j h = ground arith
strncpy_loop-below (suc r) k d s j h =
    ground (arith, strncpy_loop-below r (suc k) (write d k (s k)) s j)

strncpy_loop-chars : (r k : ℕ) (d s : Bytes) → TextAt (strncpy_loop r d s k) k (chars r s k)
unfolding strncpy_loop chars
strncpy_loop-chars zero k d s = write_self d k 0
strncpy_loop-chars (suc r) k d s = elim (Bool-cases (s k == 0)) [
  | inl end ↦ rw end (write_self d k 0)
  | inr more ↦ rw more (
    strncpy_loop-below r (suc k) (write d k (s k)) s k (omega arith) ∙ write_self d k (s k),
    ==→ne (s k) 0 more,
    strncpy_loop-chars r (suc k) (write d k (s k)) s,
  )
]

-- Whatever the source holds, strncpy leaves a terminated string: the source's characters up to
-- its first NUL, and at most `n` of them.
pub strncpy-chars : (n : ℕ) (d s : Bytes) → IsText (strncpy d s n) (chars n s 0)
unfolding strncpy
strncpy-chars n d s = strncpy_loop-chars n 0 d s

-- A string that fits is taken whole.
pub chars-TextAt :
    (xs : List ℕ) (n k : ℕ) (s : Bytes) → TextAt s k xs → length xs ≤ n → chars n s k ≡ xs
unfolding chars
chars-TextAt [] zero k s h fits = refl
chars-TextAt [] (suc n) k s h fits = ground arith
chars-TextAt (x ∷ xs) zero k s h fits = absurd (omega arith)
chars-TextAt (x ∷ xs) (suc n) k s h fits = ground (arith, chars-TextAt xs n (suc k) s)

pub length-chars : (n k : ℕ) (s : Bytes) → length (chars n s k) ≤ n
unfolding chars
length-chars zero k s = omega arith
length-chars (suc n) k s = ground (arith, length-chars n (suc k) s)

-- Memory with a NUL within reach holds the string of its characters.
pub TextAt-chars : (n k : ℕ) (s : Bytes) → s (k + n) ≡ 0 → TextAt s k (chars n s k)
unfolding chars
TextAt-chars zero k s h = ground (arith, add-zero k)
TextAt-chars (suc n) k s h = elim (Bool-cases (s k == 0)) [
  | inl end ↦ rw end (==→eq (s k) 0 end)
  | inr more ↦
      let e : k + suc n ≡ suc k + n = omega arith in
      rw more (refl, ==→ne (s k) 0 more, TextAt-chars n (suc k) s (rw e at h))
]

-- The characters of two memories that agree as far as they reach.
pub chars-same :
    (n k : ℕ) (s t : Bytes) → ((i : ℕ) → k ≤ i → i < k + n → s i ≡ t i) → chars n s k ≡ chars n t k
unfolding chars
chars-same zero k s t same = refl
chars-same (suc n) k s t same = ground (
  arith,
  same k (omega arith) (omega arith),
  chars-same n (suc k) s t (λ i a b. same i (omega arith) (omega arith)),
)
