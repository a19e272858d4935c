-- ===== src/Clib/Compare.antt =====
-- What strcmp and strncmp of src/clibfuncs.c compare: their loops step before they first look.
use pios_private.Base.{
  ℕ, zero, suc, ◌+◌, ◌≤◌, ◌<◌, ◌≡◌, ◌↔◌, ◌&&◌, refl, arith, some, List, [], ◌∷◌, length, ltb, ◌==◌,
  if◌then◌else◌, ℤ, pos, negsuc, Bool-cases, inl, inr, ap,
}
use native.Mathlib.Decide.{dec_lt}
use pios_private.Mem.{Bytes}
use pios_private.Mem.Text.{TextAt, IsText}
use pios_private.Clib.{sign, go_on, strcmp_loop, strcmp, strncmp_loop, strncmp}

-- The order of strings that C promises of strcmp, by its sign.
unfoldable pub lex : List ℕ → List ℕ → ℤ
lex [] [] = pos 0
lex [] (y ∷ ys) = negsuc 0
lex (x ∷ xs) [] = pos 1
lex (x ∷ xs) (y ∷ ys) = if ltb x y then negsuc 0 else if ltb y x then pos 1 else lex xs ys

pub lex-zero : (xs ys : List ℕ) → (lex xs ys ≡ pos 0) ↔ (xs ≡ ys)
unfolding lex
lex-zero [] [] = (λ e. refl, λ e. refl)
lex-zero [] (y ∷ ys) = (λ e. cc, λ e. cc)
lex-zero (x ∷ xs) [] = (λ e. cc, λ e. cc)
lex-zero (x ∷ xs) (y ∷ ys) = ground (arith, lex-zero xs ys)

strcmp_loop-lex :
    (xs ys : List ℕ) (f k : ℕ) (s t : Bytes)
    → TextAt s (suc k) xs
    → TextAt t (suc k) ys
    → length xs < f
    → strcmp_loop f s t k ≡ some (lex xs ys)
unfolding strcmp_loop lex sign go_on
strcmp_loop-lex xs ys zero k s t h g fuel = absurd (omega arith)
strcmp_loop-lex [] [] (suc f) k s t h g fuel = ground arith
strcmp_loop-lex [] (y ∷ ys) (suc f) k s t h g fuel = ground arith
strcmp_loop-lex (x ∷ xs) [] (suc f) k s t h g fuel = ground arith
strcmp_loop-lex (x ∷ xs) (y ∷ ys) (suc f) k s t h g fuel =
    ground (arith, strcmp_loop-lex xs ys f (suc k) s t)

-- Given two non-empty strings and fuel for the first, strcmp returns the order of what follows
-- their first characters: it returns 0 exactly if the strings agree from the second character on.
pub strcmp-tails :
    (fuel x y : ℕ) (xs ys : List ℕ) (s t : Bytes)
    → IsText s (x ∷ xs)
    → IsText t (y ∷ ys)
    → length xs < fuel
    → (strcmp fuel s t ≡ some (lex xs ys)) × ((strcmp fuel s t ≡ some (pos 0)) ↔ (xs ≡ ys))
unfolding strcmp
strcmp-tails fuel x y xs ys s t h g enough =
    let e = strcmp_loop-lex xs ys fuel 0 s t h.2 g.2 enough in
    (e, rw e (λ p. (lex-zero xs ys).0 (ground arith), λ p. ap some ((lex-zero xs ys).1 p)))

strncmp_loop-agree :
    (f n k : ℕ) (s t : Bytes)
    → 0 < f
    → n ≤ k + f
    → k < n
    → ((i : ℕ) → k < i → i < n → s i ≡ t i)
    → strncmp_loop f s t n k ≡ some (pos 0)
unfolding strncmp_loop go_on sign
strncmp_loop-agree zero n k s t pos_f fuel more agree = absurd (omega arith)
strncmp_loop-agree (suc f) n k s t pos_f fuel more agree = elim (dec_lt (suc k) n) [
  | yes lt ↦ ground (
    arith,
    agree (suc k) (omega arith) lt,
    strncmp_loop-agree f n (suc k) s t (omega arith) (omega arith) lt
        (λ i a b. agree i (omega arith) b),
  )
  | no ge ↦ ground arith
]

strncmp_loop-total :
    (f n k : ℕ) (s t : Bytes) → 0 < f → n ≤ k + f → (r : ℤ) × (strncmp_loop f s t n k ≡ some r)
unfolding strncmp_loop
strncmp_loop-total zero n k s t pos_f fuel = absurd (omega arith)
strncmp_loop-total (suc f) n k s t pos_f fuel =
    elim (Bool-cases (go_on s t (suc k) && ltb (suc k) n)) [
      | inl on ↦ rw on (strncmp_loop-total f n (suc k) s t (ground arith) (omega arith))
      | inr stop ↦ rw stop (elim (Bool-cases (suc k == n)) [
        | inl e ↦ (pos 0, rw e)
        | inr e ↦ (sign (s (suc k)) (t (suc k)), rw e)
      ])
    ]

-- strncmp returns on any two buffers, for every length.
pub strncmp_total : (n : ℕ) (s t : Bytes) → (r : ℤ) × (strncmp s t n ≡ some r)
unfolding strncmp
strncmp_total n s t = strncmp_loop-total (suc n) n 0 s t (omega arith) (omega arith)

-- For a length above zero, strncmp returns 0 on any two buffers that agree from the second
-- character up to that length, whatever their first characters are.
pub strncmp-agree :
    (n : ℕ) (s t : Bytes)
    → 0 < n
    → ((i : ℕ) → 0 < i → i < n → s i ≡ t i)
    → strncmp s t n ≡ some (pos 0)
unfolding strncmp
strncmp-agree n s t more agree =
    strncmp_loop-agree (suc n) n 0 s t (omega arith) (omega arith) more agree

-- The same of strings whose first bytes may be anything.
pub strcmp-lex :
    (fuel : ℕ) (xs ys : List ℕ) (s t : Bytes)
    → TextAt s 1 xs
    → TextAt t 1 ys
    → length xs < fuel
    → strcmp fuel s t ≡ some (lex xs ys)
unfolding strcmp
strcmp-lex fuel xs ys s t h g enough = strcmp_loop-lex xs ys fuel 0 s t h g enough
