-- ===== src/Fat/Rows.antt =====
-- The loops of src/fat.c that cut a buffer into rows and put rows together again.
pub mod Flat
use pios_private.Base.{ℕ, zero, suc, ◌+◌, ◌*◌, ◌%◌, ◌&&◌, not, ◌==◌, if◌then◌else◌, for_to}
use pios_private.Mem.{Bytes, from, write}
use pios_private.Clib.{memcpy}

-- The loop's variables: the row, the column, and the array of rows.
pub record Cut : Type 0 where
  pub count : ℕ
  pub index : ℕ
  pub rows : Bytes

-- `if (i != 0 && (i % w == 0)) { count++; index = 0; }`
next_row : ℕ → ℕ → Cut → Cut
next_row w i c =
    if not (i == 0) && i % w == 0 then record c { count = suc c.count; index = 0 } else c

cut_round : ℕ → Bytes → ℕ → Cut → Cut
unfolding next_row
cut_round w src i c =
    let d = next_row w i c in
    record {
      count = d.count;
      index = suc d.index;
      rows = write d.rows (w * d.count + d.index) (src i);
    }

-- `n` bytes of `src` into rows of `w` bytes
unfoldable pub cut_rows : ℕ → ℕ → Bytes → Bytes → Bytes
unfolding cut_round
cut_rows n w rows src =
    (for_to n 0 (cut_round w src) (record { count = 0; index = 0; rows = rows })).rows

-- `memcpy(dest + p, src, n)`
memcpy_to : Bytes → ℕ → Bytes → ℕ → Bytes
memcpy_to dest p src n = for_to n 0 (λ k d. write d (p + k) (src k)) dest

-- Each of `n` entries of `w` bytes is copied to a local `data` and from there to its row.
unfoldable pub pack_rows : ℕ → ℕ → (buffer row entries : Bytes) → Bytes
unfolding memcpy memcpy_to
pack_rows n w buffer row entries =
    for_to n 0 (λ i buffer. memcpy_to buffer (w * i) (memcpy row (from entries (w * i)) w) w) buffer

record Flatten : Type 0 where
  index : ℕ
  out : Bytes

flatten_byte : ℕ → Bytes → ℕ → ℕ → Flatten → Flatten
flatten_byte w buffer i j f = record {
  index = suc f.index;
  out = write f.out f.index (buffer (w * i + j));
}

-- `for i < n, for j < w: retBuff[index] = buffer[i][j]; index++`
unfoldable pub flatten_rows : ℕ → ℕ → (ret_buff buffer : Bytes) → Bytes
unfolding flatten_byte
flatten_rows n w ret_buff buffer =
    (for_to n 0 (λ i f. for_to w 0 (flatten_byte w buffer i) f)
      (record { index = 0; out = ret_buff })).out
