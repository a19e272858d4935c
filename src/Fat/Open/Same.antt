-- ===== src/Fat/Open/Same.antt =====
-- Directory entries with the same bytes are the same to the code that reads them.
use pios_private.Base.{ℕ, ◌+◌, ◌<◌, ◌≡◌, refl, arith, List, ◌==◌, if◌then◌else◌, ap}
use pios_private.Mem.{Bytes, get16, get32}
use pios_private.Clib.Compare.{lex}
use pios_private.Clib.Strings.{chars-same}
use pios_private.Fat.State.{file_size, cluster, file_extension}
use pios_private.Fat.Names.Entry.{unblank, entry_name, rest}
use pios_private.Fat.Open.{is_zero}
use pios_private.Fat.Open.Find.{agrees}

-- The name of an entry is a matter of its first eleven bytes.
pub entry_name-same :
    (r r' : Bytes) → ((j : ℕ) → j < 11 → r j ≡ r' j) → entry_name r ≡ entry_name r'
unfolding entry_name
entry_name-same r r' same =
    let each = λ (j : ℕ) (lt : j < 11). ap (λ (c : ℕ). if c == b' ' then 0 else c) (same j lt) in
    rw (
      chars-same 8 0 (unblank r) (unblank r') (λ j lo hi. each j (omega arith)),
      chars-same 3 0 (unblank (file_extension r)) (unblank (file_extension r'))
          (λ j lo hi. each (8 + j) (omega arith)),
      same 8 (omega arith),
    )

pub agrees-same :
    (xs : List ℕ) (r r' : Bytes) → ((j : ℕ) → j < 11 → r j ≡ r' j) → agrees xs r ≡ agrees xs r'
unfolding agrees
agrees-same xs r r' same =
    ap (λ (ys : List ℕ). is_zero (lex xs (rest ys))) (entry_name-same r r' same)

pub fields-same :
    (r r' : Bytes)
    → ((j : ℕ) → j < 32 → r j ≡ r' j)
    → (file_size r ≡ file_size r') × (cluster r ≡ cluster r')
unfolding file_size cluster get32 get16
fields-same r r' same = (
  rw (same 28 (omega arith), same 29 (omega arith), same 30 (omega arith), same 31 (omega arith))
      refl,
  rw (same 26 (omega arith), same 27 (omega arith)) refl,
)
