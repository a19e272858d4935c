-- ===== src/Fat/Rows/Flat.antt =====
-- Cutting, packing and flattening rows copy bytes to where they stand.
use pios_private.Base.{
  ℕ, suc, ◌+◌, ◌*◌, ◌%◌, ◌⊎◌, ◌≤◌, ◌<◌, ◌≡◌, ◌≢◌, ne→==, eq→==, refl, arith, ltb, ◌&&◌, not, ◌==◌,
  if◌then◌else◌, for_to, for_to_inv, fun_ext, ◌∙◌, inl, inr,
}
use native.Mathlib.Nat.{mul-add-mod_self_left, mod_self, mod-eq_of_lt}
use native.Mathlib.Decide.{ℕ_discrete}
use pios_private.Mem.{Bytes, from, write}
use pios_private.Mem.Copy.{splice, for_to-write, for_to-write_to}
use pios_private.Clib.{memcpy}
use pios_private.Fat.Rows.{
  Cut, next_row, cut_round, cut_rows, memcpy_to, pack_rows, Flatten, flatten_byte, flatten_rows,
}

-- Before round `i` the row and column make up `i`, and the bytes before `i` have been copied.
record IsCut (w : ℕ) (src rows : Bytes) (i : ℕ) (c : Cut) : Type 0 where
  place : w * c.count + c.index ≡ i
  column : c.index ≤ w
  started : (i ≡ 0) ⊎ (0 < c.index)
  copied : (j : ℕ) → c.rows j ≡ (if ltb j i then src j else rows j)

-- A new row begins exactly if the last one is full.
row_end :
    (w i count index : ℕ)
    → 0 < w
    → w * count + index ≡ i
    → index ≤ w
    → (i ≡ 0) ⊎ (0 < index)
    → (not (i == 0) && i % w == 0) ≡ (index == w)
row_end w i count index pos e le s = elim (ℕ_discrete index w) [
  | yes full ↦ ground (arith, mul-add-mod_self_left w count index, mod_self w)
  | no room ↦
      ground
        (arith, mul-add-mod_self_left w count index, mod-eq_of_lt {n = index} {m = w} (omega arith))
]

module _ (w : ℕ) (src rows : Bytes) (i : ℕ) (c : Cut) (pos : 0 < w) (h : IsCut w src rows i c) where
  next_row-room : c.index ≢ w → next_row w i c ≡ c
  unfolding next_row
  next_row-room ne =
      rw (row_end w i c.count c.index pos h.place h.column h.started, ne→== c.index w ne)

  next_row-full : c.index ≡ w → next_row w i c ≡ record c { count = suc c.count; index = 0 }
  unfolding next_row
  next_row-full e =
      rw (row_end w i c.count c.index pos h.place h.column h.started, eq→== c.index w e)

  cut_round-IsCut : IsCut w src rows (suc i) (cut_round w src i c)
  unfolding cut_round write
  cut_round-IsCut = elim (ℕ_discrete c.index w) [
    | yes e ↦ rw (next_row-full e) (record {
      place = omega (arith, h.place);
      column = omega arith;
      started = inr (omega arith);
      copied = λ j. ground (arith, h.copied j, h.place);
    })
    | no ne ↦ rw (next_row-room ne) (record {
      place = omega (arith, h.place);
      column = omega (arith, h.column);
      started = inr (omega arith);
      copied = λ j. ground (arith, h.copied j, h.place);
    })
  ]

-- Cutting `n` bytes of `src` into rows leaves each of them at its own offset.
pub cut_rows-splice :
    (n w : ℕ) (rows src : Bytes) → 0 < w → cut_rows n w rows src ≡ splice rows 0 n src
unfolding cut_rows splice
cut_rows-splice n w rows src pos =
    let h =
      for_to_inv (IsCut w src rows) n 0 (cut_round w src)
        (record { count = 0; index = 0; rows = rows })
        (λ k t a b h. cut_round-IsCut w src rows k t pos h)
        (record {
          place = omega arith;
          column = omega arith;
          started = inl refl;
          copied = λ j. ground arith;
        }) in
    fun_ext λ j. ground (arith, h.copied j)

memcpy_to-splice :
    (dest : Bytes) (p : ℕ) (src : Bytes) (n : ℕ) → memcpy_to dest p src n ≡ splice dest p n src
unfolding memcpy_to
memcpy_to-splice dest p src n = for_to-write_to n p dest src

-- One round of `pack_rows`.
pack_round :
    (w : ℕ) (row entries b : Bytes) (i : ℕ)
    → memcpy_to b (w * i) (memcpy row (from entries (w * i)) w) w
      ≡ splice b (w * i) w (from entries (w * i))
unfolding memcpy splice
pack_round w row entries b i =
    memcpy_to-splice b (w * i) (memcpy row (from entries (w * i)) w) w
    ∙ fun_ext λ j. rw (for_to-write w row (from entries (w * i))) (ground arith)

pack_each :
    (n w : ℕ) (buffer row entries : Bytes) (j : ℕ)
    → pack_rows n w buffer row entries j ≡ (if ltb j (w * (0 + n)) then entries j else buffer j)
unfolding pack_rows splice
pack_each n w buffer row entries j =
    for_to_inv (λ i (b : Bytes). b j ≡ (if ltb j (w * i) then entries j else buffer j)) n 0
      (λ i b. memcpy_to b (w * i) (memcpy row (from entries (w * i)) w) w) buffer
      (λ k b lo hi h. rw (pack_round w row entries b k) (ground arith)) (ground arith)

-- Packing `n` rows of `w` bytes copies the first `w * n` bytes.
pub pack_rows-splice :
    (n w : ℕ) (buffer row entries : Bytes)
    → pack_rows n w buffer row entries ≡ splice buffer 0 (w * n) entries
unfolding splice
pack_rows-splice n w buffer row entries =
    fun_ext λ j. ground (arith, pack_each n w buffer row entries j)

record IsFlat (ret buffer : Bytes) (m : ℕ) (f : Flatten) : Type 0 where
  place : f.index ≡ m
  copied : (j : ℕ) → f.out j ≡ (if ltb j m then buffer j else ret j)

flatten_byte-IsFlat :
    (ret buffer : Bytes) (w i j : ℕ) (f : Flatten)
    → IsFlat ret buffer (w * i + j) f
    → IsFlat ret buffer (w * i + suc j) (flatten_byte w buffer i j f)
unfolding flatten_byte write
flatten_byte-IsFlat ret buffer w i j f h = record {
  place = omega (arith, h.place);
  copied = λ k. ground (arith, h.place, h.copied k);
}

flatten_row-IsFlat :
    (ret buffer : Bytes) (w i : ℕ) (f : Flatten)
    → IsFlat ret buffer (w * i) f
    → IsFlat ret buffer (w * suc i) (for_to w 0 (flatten_byte w buffer i) f)
flatten_row-IsFlat ret buffer w i f h =
    let start : w * i + 0 ≡ w * i = omega arith in
    let end : w * suc i ≡ w * i + (0 + w) = omega arith in
    rw end (
      for_to_inv (λ j. IsFlat ret buffer (w * i + j)) w 0 (flatten_byte w buffer i) f
        (λ j g lo hi. flatten_byte-IsFlat ret buffer w i j g) (rw start h))

-- Flattening `n` rows of `w` bytes copies the first `w * n` bytes.
pub flatten_rows-splice :
    (n w : ℕ) (ret buffer : Bytes) → flatten_rows n w ret buffer ≡ splice ret 0 (w * n) buffer
unfolding flatten_rows splice
flatten_rows-splice n w ret buffer =
    let h =
      for_to_inv (λ i. IsFlat ret buffer (w * i)) n 0
        (λ i f. for_to w 0 (flatten_byte w buffer i) f) (record { index = 0; out = ret })
        (λ i f lo hi. flatten_row-IsFlat ret buffer w i f)
        (record { place = omega arith; copied = λ j. ground arith }) in
    fun_ext λ j. ground (arith, h.copied j)
