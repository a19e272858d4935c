-- ===== src/Mem/Defs.antt =====
-- Bytes, pointers into them, and writes.
use Prim.Native.Char.{code}
use Prim.Native.String.{String}
use pios_private.Base.{
  List, [], ◌∷◌, get_or, ℕ, ◌+◌, ◌*◌, ◌/◌, ◌%◌, ◌≡◌, ◌≢◌, arith, ◌==◌, leb, ◌-◌, if◌then◌else◌,
}

abbrev pub Bytes : Type 0
Bytes = ℕ → ℕ

-- `b + p`, read through
abbrev pub from : Bytes → ℕ → Bytes
from b p i = b (p + i)

-- `b[i] = v`
unfoldable pub write : Bytes → ℕ → ℕ → Bytes
write b i v j = if j == i then v else b j

-- all-zero memory, such as the `.bss` of a program before it starts
abbrev pub zeros : Bytes
zeros _ = 0

pub write_self : (b : Bytes) (i v : ℕ) → write b i v i ≡ v
unfolding write
write_self b i v = ground arith

pub write_ne : (b : Bytes) (i v j : ℕ) → j ≢ i → write b i v j ≡ b j
unfolding write
write_ne b i v j h = ground arith

-- A 16-bit and a 32-bit field in the machine's little-endian order.
unfoldable pub get16 : Bytes → ℕ → ℕ
get16 b p = b p + 256 * b (p + 1)

unfoldable pub put16 : Bytes → ℕ → ℕ → Bytes
put16 b p v = write (write b p (v % 256)) (p + 1) (v / 256 % 256)

unfoldable pub get32 : Bytes → ℕ → ℕ
get32 b p = b p + 256 * b (p + 1) + 65536 * b (p + 2) + 16777216 * b (p + 3)

unfoldable pub put32 : Bytes → ℕ → ℕ → Bytes
put32 b p v =
    write (write (write (write b p (v % 256)) (p + 1) (v / 256 % 256)) (p + 2) (v / 65536 % 256))
      (p + 3) (v / 16777216 % 256)

-- A string literal, in memory that is zero behind it.
abbrev pub codes : String → List ℕ
codes String.[] = []
codes (String.◌∷◌ c s) = code c ∷ codes s

abbrev pub literal : String → Bytes
literal s i = get_or (codes s) i 0

-- What becomes of `b` when `b + p` is handed to a function that makes `d` of it.
unfoldable pub onto : Bytes → ℕ → Bytes → Bytes
onto b p d j = if leb p j then d (j - p) else b j
