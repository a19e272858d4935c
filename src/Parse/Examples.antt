-- ===== src/Parse/Examples.antt =====
-- The parser at concrete lines.
use pios_private.Base.{ℕ, ◌*◌, ◌<◌, ◌≤◌, [], ◌≡◌, refl, arith, some, get_or, for_to}
use pios_private.Mem.{Bytes, from, zeros, literal, codes}
use pios_private.Clib.{strlen}
use pios_private.Parse.{longest_buffer_length, buffer_to_args}
use pios_private.Mem.Text.{IsText}
use pios_private.Parse.Rows.{fields}
use pios_private.Parse.Rows.Text.{line_fields, buffer_to_args-line_fields}

longest_run : longest_buffer_length 20 (literal "cat file.txt") ≡ some 8
unfolding longest_buffer_length strlen for_to
longest_run = refl

buffer_to_args-line_fields_example :
    (r : Bytes) × (buffer_to_args 20 zeros (literal "cat \"a b\" c") ≡ some r)
    × ((j : ℕ)
        → j < 3
        → IsText (from r (100 * j)) (get_or (line_fields (codes "cat \"a b\" c")) j []))
    × ((q : ℕ) → 300 ≤ q → r q ≡ 0)
unfolding fields
buffer_to_args-line_fields_example =
    buffer_to_args-line_fields 20 (codes "cat \"a b\" c") zeros (literal "cat \"a b\" c")
      (ground arith) (omega arith) (λ q lt. refl) (omega arith) (ground arith)
