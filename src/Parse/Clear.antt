-- ===== src/Parse/Clear.antt =====
-- `initParseArguments` and `nullCharArray` leave nothing but NULs.
use pios_private.Base.{ℕ, ◌+◌, ◌*◌, ◌<◌, ◌≡◌, arith, ltb, if◌then◌else◌, for_to, for_to_inv}
use pios_private.Mem.{Bytes, write, zeros}
use pios_private.Mem.Copy.{splice, splice_head, for_to-write_to}
use pios_private.Str.Copies.{null_char_array-splice}
use pios_private.Str.{null_char_array}
use pios_private.Parse.{init_parse_arguments}

pub init_parse_arguments-zero : (a : Bytes) (j : ℕ) → j < 5000 → init_parse_arguments a j ≡ 0
unfolding init_parse_arguments splice
init_parse_arguments-zero a j lt =
    let h =
      for_to_inv (λ i (b : Bytes). b j ≡ (if ltb j (100 * i) then 0 else a j)) 50 0
        (λ i a. for_to 100 0 (λ j a. write a (100 * i + j) 0) a) a
        (λ i b lo hi e. rw (for_to-write_to 100 (100 * i) b zeros) (ground arith)) (ground arith) in
    ground arith

pub null_char_array-zero : (a : Bytes) (n j : ℕ) → j < n → null_char_array a n j ≡ 0
null_char_array-zero a n j lt = rw (null_char_array-splice a n) (splice_head a n zeros j lt)
