-- ===== src/Parse/Line.antt =====
-- Reading a line, and counting its spaces.
use pios_private.Base.{
  ℕ, suc, ◌+◌, ◌-◌, ◌≤◌, ◌<◌, ◌≡◌, refl, arith, some, List, [], ◌∷◌, ◌++◌, length, get_or, ◌==◌,
  ltb, leb, ◌&&◌, if◌then◌else◌, for_to, ◌∙◌, ap, eq→==, ne→==,
}
use native.Mathlib.Nat.{zero-add}
use native.Mathlib.Decide.{ℕ_discrete, dec_lt}
use pios_private.Mem.{Bytes, write}
use pios_private.Mem.Text.{TextAt, IsText}
use pios_private.Clib.Strings.{strlen-length}
use pios_private.Links.Linked.{Apart}
use pios_private.Parse.{number_arguments, input_loop, input_to_buffer}
use pios_private.Str.{is_separator}

cell_lem :
    (x : ℕ) (xs : List ℕ) (j i : ℕ)
    → i ≤ j
    → get_or (x ∷ xs) (j - i) 0 ≡ (if j == i then x else get_or xs (j - suc i) 0)
cell_lem x xs j i le = elim (ℕ_discrete j i) [
  | yes e ↦ let z : j - i ≡ 0 = omega arith in rw (z, eq→== j i e) refl
  | no ne ↦ let z : j - i ≡ suc (j - suc i) = omega arith in rw (z, ne→== j i ne) refl
]

input_loop-line :
    (xs rest : List ℕ) (buffer : Bytes) (n i : ℕ)
    → Apart 10 xs
    → i + length xs < n
    → (r : Bytes) × (input_loop (xs ++ 10 ∷ rest) buffer n i ≡ some (r, rest))
      × ((j : ℕ)
          → r j ≡ (if leb i j && ltb j (i + length xs) then get_or xs (j - i) 0 else buffer j))
unfolding input_loop write
input_loop-line [] rest buffer n i h lt =
    (buffer, rw (ne→== i n (omega arith)) refl, λ j. ground arith)
input_loop-line (x ∷ xs) rest buffer n i h lt =
    let (r, e, at) = input_loop-line xs rest (write buffer i x) n (suc i) h.1 (omega arith) in
    (
      r,
      rw (ne→== i n (omega arith), ne→== x 10 h.0) e,
      λ j. elim (dec_lt j i) [
        | yes before ↦ ground (arith, at j)
        | no from ↦ ground (arith, at j, cell_lem x xs j i (omega arith))
      ],
    )

-- `inputToBuffer` of a line that ends before the buffer is full puts its characters into the
-- buffer, changes nothing behind them, and leaves the input behind the newline.
pub input_to_buffer-line :
    (xs rest : List ℕ) (buffer : Bytes) (n : ℕ)
    → Apart 10 xs
    → length xs < n
    → (r : Bytes) × (input_to_buffer (xs ++ 10 ∷ rest) buffer n ≡ some (r, rest))
      × ((j : ℕ) → r j ≡ (if ltb j (length xs) then get_or xs j 0 else buffer j))
unfolding input_to_buffer
input_to_buffer-line xs rest buffer n h lt =
    let (r, e, at) = input_loop-line xs rest buffer n 0 h (omega arith) in
    (r, e, λ j. ground (arith, at j, zero-add (length xs)))

-- The occurrences of a character.
unfoldable pub occurrences : ℕ → List ℕ → ℕ
occurrences c [] = 0
occurrences c (x ∷ xs) = if x == c then suc (occurrences c xs) else occurrences c xs

count_loop :
    (xs : List ℕ) (buffer : Bytes) (i count : ℕ)
    → TextAt buffer i xs
    → for_to
        (length xs)
        i
        (λ i count. if is_separator (buffer i) b' ' then suc count else count)
        count
      ≡ count + occurrences b' ' xs
unfolding occurrences for_to is_separator
count_loop [] buffer i count h = omega arith
count_loop (x ∷ xs) buffer i count h = ground (
  arith,
  h.0,
  count_loop xs buffer (suc i) (suc count) h.2,
  count_loop xs buffer (suc i) count h.2,
)

-- With fuel for the string, `numberArguments` returns the number of its spaces.
pub number_arguments-occurrences :
    (fuel : ℕ) (xs : List ℕ) (buffer : Bytes)
    → IsText buffer xs
    → length xs < fuel
    → number_arguments fuel buffer ≡ some (occurrences b' ' xs)
unfolding number_arguments
number_arguments-occurrences fuel xs buffer h enough =
    rw (strlen-length fuel xs buffer h enough) (ap some (count_loop xs buffer 0 0 h ∙ zero-add _))
