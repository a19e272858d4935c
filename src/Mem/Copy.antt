-- ===== src/Mem/Copy.antt =====
-- The closed form of a loop that writes consecutive bytes.
use pios_private.Base.{
  ℕ, zero, suc, ◌+◌, ◌-◌, ◌≤◌, ◌<◌, ◌≡◌, arith, ◌&&◌, ltb, leb, if◌then◌else◌, for_to, fun_ext, ap,
  ◌∙◌,
}
use pios_private.Mem.Defs.{Bytes, from, write}

-- `dst` with the `n` bytes from `at` on replaced by those of `src`
unfoldable pub splice : Bytes → ℕ → ℕ → Bytes → Bytes
splice dst at n src j = if leb at j && ltb j (at + n) then src (j - at) else dst j

pub splice_in :
    (dst : Bytes) (at n : ℕ) (src : Bytes) (j : ℕ)
    → at ≤ j
    → j < at + n
    → splice dst at n src j ≡ src (j - at)
unfolding splice
splice_in dst at n src j a b = ground arith

pub splice_at :
    (dst : Bytes) (at n : ℕ) (src : Bytes) (i : ℕ) → i < n → splice dst at n src (at + i) ≡ src i
splice_at dst at n src i lt =
    let e : at + i - at ≡ i = omega arith in
    splice_in dst at n src (at + i) (omega arith) (omega arith) ∙ ap src e

pub splice_below :
    (dst : Bytes) (at n : ℕ) (src : Bytes) (j : ℕ) → j < at → splice dst at n src j ≡ dst j
unfolding splice
splice_below dst at n src j a = ground arith

pub splice_above :
    (dst : Bytes) (at n : ℕ) (src : Bytes) (j : ℕ) → at + n ≤ j → splice dst at n src j ≡ dst j
unfolding splice
splice_above dst at n src j a = ground arith

-- `for (k = i; k < i + n; k++) dst[k - o] = src[k];`
for_to-write_at :
    (n i o : ℕ) (dst src : Bytes) (j : ℕ)
    → o ≤ i
    → for_to n i (λ k d. write d (k - o) (src k)) dst j
      ≡ (if leb (i - o) j && ltb j (i - o + n) then src (j + o) else dst j)
unfolding for_to write
for_to-write_at zero i o dst src j h = ground arith
for_to-write_at (suc n) i o dst src j h =
    ground (arith, for_to-write_at n (suc i) o (write dst (i - o) (src i)) src j)

-- `for (k = start; k < start + n; k++) dst[k - start] = src[k];`
pub for_to-write_down :
    (n start : ℕ) (dst src : Bytes)
    → for_to n start (λ k d. write d (k - start) (src k)) dst ≡ splice dst 0 n (from src start)
unfolding splice
for_to-write_down n start dst src =
    fun_ext λ j. ground (arith, for_to-write_at n start start dst src j)

-- `for (k = i; k < i + n; k++) dst[k] = v[k];`
for_to-write_each :
    (n i : ℕ) (dst v : Bytes) (j : ℕ)
    → for_to n i (λ k d. write d k (v k)) dst j ≡ (if leb i j && ltb j (i + n) then v j else dst j)
unfolding for_to write
for_to-write_each zero i dst v j = ground arith
for_to-write_each (suc n) i dst v j =
    ground (arith, for_to-write_each n (suc i) (write dst i (v i)) v j)

-- `for (k = 0; k < n; k++) dst[k] = src[k];`
pub for_to-write :
    (n : ℕ) (dst src : Bytes) → for_to n 0 (λ k d. write d k (src k)) dst ≡ splice dst 0 n src
unfolding splice
for_to-write n dst src = fun_ext λ j. ground (arith, for_to-write_each n 0 dst src j)

-- `for (k = start; k < start + n; k++) dst[k] = src[k - start];`
pub for_to-write_up :
    (n start : ℕ) (dst src : Bytes)
    → for_to n start (λ k d. write d k (src (k - start))) dst ≡ splice dst start n src
unfolding splice
for_to-write_up n start dst src =
    fun_ext λ j. ground (arith, for_to-write_each n start dst (λ k. src (k - start)) j)

-- One more byte in front of a copy, and a copy of one byte.
pub splice-write :
    (d s : Bytes) (p k n : ℕ)
    → splice (write d p (s k)) (suc p) n (from s (suc k)) ≡ splice d p (suc n) (from s k)
unfolding splice write
splice-write d s p k n = fun_ext λ j. ground arith

pub write-splice : (d s : Bytes) (p k v : ℕ) → s k ≡ v → write d p v ≡ splice d p 1 (from s k)
unfolding splice write
write-splice d s p k v h = fun_ext λ j. ground arith

for_to-write_offset :
    (n i p : ℕ) (dst src : Bytes) (j : ℕ)
    → for_to n i (λ k d. write d (p + k) (src k)) dst j
      ≡ (if leb (p + i) j && ltb j (p + i + n) then src (j - p) else dst j)
unfolding for_to write
for_to-write_offset zero i p dst src j = ground arith
for_to-write_offset (suc n) i p dst src j =
    ground (arith, for_to-write_offset n (suc i) p (write dst (p + i) (src i)) src j)

-- `for (k = 0; k < n; k++) dst[p + k] = src[k];`
pub for_to-write_to :
    (n p : ℕ) (dst src : Bytes)
    → for_to n 0 (λ k d. write d (p + k) (src k)) dst ≡ splice dst p n src
unfolding splice
for_to-write_to n p dst src = fun_ext λ j. ground (arith, for_to-write_offset n 0 p dst src j)

-- Only the bytes of the range matter of what is copied.
pub splice-splice_src :
    (d : Bytes) (at n m : ℕ) (a src : Bytes)
    → n ≤ m
    → splice d at n (splice a 0 m src) ≡ splice d at n src
unfolding splice
splice-splice_src d at n m a src h = fun_ext λ j. ground arith

pub splice-same :
    (d : Bytes) (at n : ℕ) (src src' : Bytes)
    → ((i : ℕ) → i < n → src i ≡ src' i)
    → splice d at n src ≡ splice d at n src'
unfolding splice
splice-same d at n src src' h = fun_ext λ j. ground (arith, h (j - at))

pub splice_head : (d : Bytes) (n : ℕ) (src : Bytes) (j : ℕ) → j < n → splice d 0 n src j ≡ src j
unfolding splice
splice_head d n src j h = ground arith

pub splice_none : (d : Bytes) (at : ℕ) (src : Bytes) → splice d at 0 src ≡ d
unfolding splice
splice_none d at src = fun_ext λ j. ground arith
