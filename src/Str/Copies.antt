-- ===== src/Str/Copies.antt =====
-- The closed forms of the copying loops.
use pios_private.Base.{
  ℕ, zero, suc, ◌+◌, ◌-◌, ◌≤◌, ◌≡◌, arith, ltb, leb, ◌&&◌, ◌==◌, if◌then◌else◌, for_to, ap, fun_ext,
}
use pios_private.Mem.{Bytes, from, write, zeros}
use pios_private.Mem.Copy.{splice, for_to-write, for_to-write_up, for_to-write_down}
use pios_private.Clib.{toupper, memcpy}
use pios_private.Str.{
  char_arr_cpy, char_arr_cpy_index, char_arr_cpy_index_opp, char_arr_to_upper, null_char_array,
  space_char_array, extension,
}

-- Each of the copying loops replaces exactly the bytes of its range, by those of the other array,
-- and returns the index at which it stops.
pub char_arr_cpy-splice : (a b : Bytes) (n : ℕ) → char_arr_cpy a b n ≡ (n, splice a 0 n b)
unfolding char_arr_cpy
char_arr_cpy-splice a b n = ap (λ r. (n, r)) (for_to-write n a b)

pub char_arr_cpy_index-splice :
    (a b : Bytes) (start end : ℕ)
    → start ≤ end
    → char_arr_cpy_index a b start end ≡ (end, splice a 0 (end - start) (from b start))
unfolding char_arr_cpy_index
char_arr_cpy_index-splice a b start end h =
    ground (arith, for_to-write_down (end - start) start a b)

pub char_arr_cpy_index_opp-splice :
    (a b : Bytes) (start end : ℕ)
    → start ≤ end
    → char_arr_cpy_index_opp a b start end ≡ (end, splice a start (end - start) b)
unfolding char_arr_cpy_index_opp
char_arr_cpy_index_opp-splice a b start end h =
    ground (arith, for_to-write_up (end - start) start a b)

pub memcpy-splice : (a b : Bytes) (n : ℕ) → memcpy a b n ≡ splice a 0 n b
unfolding memcpy
memcpy-splice a b n = for_to-write n a b

pub null_char_array-splice : (a : Bytes) (n : ℕ) → null_char_array a n ≡ splice a 0 n zeros
unfolding null_char_array
null_char_array-splice a n = for_to-write n a zeros

pub space_char_array-splice : (a : Bytes) (n : ℕ) → space_char_array a n ≡ splice a 0 n (λ _. b' ')
unfolding space_char_array
space_char_array-splice a n = for_to-write n a (λ _. b' ')

-- extension turns the spaces that pad a name of a directory entry into NULs.
pub extension-splice :
    (a b : Bytes) (n : ℕ) → extension a b n ≡ splice a 0 n (λ i. if b i == b' ' then 0 else b i)
unfolding extension
extension-splice a b n = for_to-write n a (λ i. if b i == b' ' then 0 else b i)

to_upper_each :
    (n i : ℕ) (a : Bytes) (j : ℕ)
    → for_to n i (λ k d. write d k (toupper (d k))) a j
      ≡ (if leb i j && ltb j (i + n) then toupper (a j) else a j)
unfolding for_to write
to_upper_each zero i a j = ground arith
to_upper_each (suc n) i a j = ground (arith, to_upper_each n (suc i) (write a i (toupper (a i))) j)

pub char_arr_to_upper-splice :
    (a : Bytes) (n : ℕ) → char_arr_to_upper a n ≡ splice a 0 n (λ i. toupper (a i))
unfolding char_arr_to_upper splice
char_arr_to_upper-splice a n = fun_ext λ j. ground (arith, to_upper_each n 0 a j)

-- The same of a region, whose ends the source computes.
pub char_arr_cpy_index-region :
    (a b : Bytes) (start end at n : ℕ)
    → start ≡ at
    → end ≡ at + n
    → char_arr_cpy_index a b start end ≡ (at + n, splice a 0 n (from b at))
char_arr_cpy_index-region a b start end at n e f =
    let d : at + n - at ≡ n = omega arith in
    rw (e, f, char_arr_cpy_index-splice a b at (at + n) (omega arith), d)
