-- ===== src/Parse/Rows.antt =====
-- What `bufferToArgs` makes of a line.
pub mod Text
use pios_private.Base.{
  ℕ, zero, suc, ◌+◌, ◌-◌, ◌*◌, ◌≤◌, ◌<◌, ◌≡◌, ◌≢◌, refl, arith, ◌&&◌, some, List, [], ◌∷◌, length,
  get_or, ◌==◌, if◌then◌else◌, for_to, ap, ◌∙◌, Bool-cases, inl, inr, ltb, leb,
}
use native.Mathlib.Nat.{add-zero, zero-add}
use native.Mathlib.Decide.{dec_lt, dec_le}
use pios_private.Mem.{Bytes, write, write_ne, write_self}
use pios_private.Mem.Text.{TextAt, IsText}
use pios_private.Clib.Strings.{strlen-length}
use pios_private.Parse.{Args, args_round, buffer_to_args}
use pios_private.Str.{is_separator}

-- The fields of a line: the one that it begins with, and the others. A space ends a field unless it
-- is in quotation marks, and the marks belong to no field; `quotes` is 1 behind an odd number of them.
unfoldable pub fields : (quotes : ℕ) → List ℕ → List ℕ × List (List ℕ)
fields quotes [] = ([], [])
fields quotes (c ∷ cs) =
    if c == b' ' && quotes == 0
    then ([], (fields quotes cs).0 ∷ (fields quotes cs).1)
    else if c == b'"' && quotes == 0
    then fields 1 cs
    else if c == b'"' && quotes == 1
    then fields 0 cs
    else (c ∷ (fields quotes cs).0, (fields quotes cs).1)

-- The bytes `xs` stored one after the other from `p` on, and lists of bytes stored in rows.
unfoldable pub put : Bytes → ℕ → List ℕ → Bytes
put b p [] = b
put b p (x ∷ xs) = put (write b p x) (suc p) xs

unfoldable pub put_rows : Bytes → ℕ → List (List ℕ) → Bytes
put_rows b i [] = b
put_rows b i (xs ∷ xss) = put_rows (put b (100 * i) xs) (suc i) xss

args_loop :
    (cs : List ℕ) (buffer : Bytes) (i : ℕ) (s : Args)
    → TextAt buffer i cs
    → (for_to (length cs) i (args_round buffer) s).parse_arguments
      ≡ put_rows
          (put s.parse_arguments (100 * s.count + s.index) (fields s.quotes cs).0)
          (suc s.count)
          (fields s.quotes cs).1
unfolding fields put put_rows for_to args_round is_separator
args_loop [] buffer i s h = refl
args_loop (c ∷ cs) buffer i s h =
    let rest = λ (t : Args). args_loop cs buffer (suc i) t h.2 in
    let e : 100 * s.count + suc s.index ≡ suc (100 * s.count + s.index) = omega arith in
    let m = write s.parse_arguments (100 * s.count + s.index) c in
    ground (
      arith,
      h.0,
      e,
      add-zero (100 * suc s.count),
      rest (record s { count = suc s.count; index = 0 }),
      rest (record s { quotes = 1 }),
      rest (record s { quotes = 0 }),
      rest (record s { parse_arguments = m; index = suc s.index }),
    )
