-- ===== src/Clib/Examples.antt =====
-- Runs of the library routines, and their theorems at concrete strings.
use pios_private.Base.{ℕ, zero, suc, ◌<◌, ◌≡◌, ◌↔◌, refl, arith, some, pos}
use pios_private.Mem.{literal, codes}
use pios_private.Clib.{strcmp, strncmp}
use pios_private.Clib.Compare.{lex, strcmp-tails}

-- "xs" is taken for "ls".
strcmp_skips_first : strcmp 9 (literal "xs") (literal "ls") ≡ some (pos 0)
unfolding strcmp
strcmp_skips_first = refl

strncmp_run : strncmp (literal "abc") (literal "abd") 2 ≡ some (pos 0)
unfolding strncmp
strncmp_run = refl

strcmp-tails_example :
    (strcmp 9 (literal "cat") (literal "car") ≡ some (pos 1))
    × ((strcmp 9 (literal "cat") (literal "car") ≡ some (pos 0)) ↔ (codes "at" ≡ codes "ar"))
unfolding lex
strcmp-tails_example =
    strcmp-tails 9 b'c' b'c' (codes "at") (codes "ar") (literal "cat") (literal "car")
      (ground arith) (ground arith) (omega arith)

same_tail : (i : ℕ) → 0 < i → i < 3 → literal "xbcd" i ≡ literal "abce" i
same_tail zero lo hi = absurd (omega arith)
same_tail (suc zero) lo hi = refl
same_tail (suc (suc zero)) lo hi = refl
same_tail (suc (suc (suc i))) lo hi = absurd (omega arith)
