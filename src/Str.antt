-- ===== src/Str.antt =====
-- The buffer routines of src/string.c, and the small ones at the end of src/fat.c.
pub mod Copies
use pios_private.Base.{
  ℕ, zero, suc, ◌+◌, ◌-◌, ◌≡◌, arith, Bool, true, false, ◌&&◌, ◌||◌, Option, none, some, ◌==◌, ltb,
  if◌then◌else◌, ◌>>=◌, ℤ, pos, negsuc, for_to, find_from,
}
use pios_private.Mem.{Bytes, write}
use pios_private.Clib.{toupper}

-- `index` is how far `source` has moved from `start`.
substring_loop : ℕ → Bytes → Bytes → (start end index : ℕ) → Option Bytes
substring_loop zero dest source start end index = none
substring_loop (suc f) dest source start end index =
    let rest =
      substring_loop f (write dest index (source (start + index))) source start end (suc index) in
    if start + index == end || source (start + index) == 0 then some (write dest index 0) else rest

unfoldable pub substring : ℕ → Bytes → Bytes → (start end : ℕ) → Option Bytes
unfolding substring_loop
substring fuel dest source start end = substring_loop fuel dest source start end 0

-- The loop's final index is the result.
unfoldable pub char_arr_cpy : Bytes → Bytes → ℕ → ℕ × Bytes
char_arr_cpy a b length = (length, for_to length 0 (λ i a. write a i (b i)) a)

-- The index where the loops from `start_index` to `end_index` stop.
abbrev last_index : ℕ → ℕ → ℕ
last_index start_index end_index = start_index + (end_index - start_index)

unfoldable pub char_arr_cpy_index : Bytes → Bytes → (start_index end_index : ℕ) → ℕ × Bytes
char_arr_cpy_index a b start_index end_index = (
  last_index start_index end_index,
  for_to (end_index - start_index) start_index (λ i a. write a (i - start_index) (b i)) a,
)

unfoldable pub char_arr_cpy_index_opp : Bytes → Bytes → (start_index end_index : ℕ) → ℕ × Bytes
char_arr_cpy_index_opp a b start_index end_index = (
  last_index start_index end_index,
  for_to (end_index - start_index) start_index (λ i a. write a i (b (i - start_index))) a,
)

unfoldable pub char_arr_to_upper : Bytes → ℕ → Bytes
unfolding toupper
char_arr_to_upper a length = for_to length 0 (λ i a. write a i (toupper (a i))) a

strlen_space_loop : ℕ → Bytes → ℕ → Option ℕ
strlen_space_loop zero str len = none
strlen_space_loop (suc f) str len =
    let rest = strlen_space_loop f str (suc len) in if str len == b' ' then some len else rest

unfoldable pub strlen_space : ℕ → Bytes → Option ℕ
unfolding strlen_space_loop
strlen_space fuel str = strlen_space_loop fuel str 0

unfoldable pub null_char_array : Bytes → ℕ → Bytes
null_char_array arr length = for_to length 0 (λ i arr. write arr i 0) arr

unfoldable pub space_char_array : Bytes → ℕ → Bytes
space_char_array arr length = for_to length 0 (λ i arr. write arr i b' ') arr

unfoldable pub is_separator : ℕ → ℕ → Bool
is_separator c sep = c == sep

-- -1 if no character of the array is the separator.
unfoldable pub has_separator : Bytes → ℕ → ℕ → ℤ
has_separator arr sep length = elim (find_from length 0 (λ i. arr i == sep)) [
  | none ↦ negsuc 0
  | some i ↦ pos i
]

unfoldable pub extension : Bytes → Bytes → ℕ → Bytes
extension a b length = for_to length 0 (λ i a. write a i (if b i == b' ' then 0 else b i)) a
