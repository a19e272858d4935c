-- ===== src/Clib.antt =====
-- The C library routines of src/clibfuncs.c, and strlen, tolower and isdig of src/rprintf.c.
-- A scan for a terminator takes fuel, the number of bytes that it may look at: `none` means that
-- it met no end in so many bytes. `char` is unsigned, as the ARM ABI has it.
pub mod Strings
pub mod Compare
pub mod Letters
mod Examples
use pios_private.Base.{
  ℕ, zero, suc, ◌+◌, ◌-◌, ◌%◌, ◌≡◌, arith, Bool, true, false, not, ◌&&◌, ◌||◌, Option, none, some,
  ltb, leb, ◌==◌, if◌then◌else◌, ◌>>=◌, ℤ, pos, negsuc, for_to,
}
use pios_private.Mem.{Bytes, from, write}

unfoldable pub memcpy : Bytes → Bytes → ℕ → Bytes
memcpy dest src num = for_to num 0 (λ k d. write d k (src k)) dest

unfoldable pub memset : Bytes → ℕ → ℕ → Bytes
memset s c n = for_to n 0 (λ i ptr. write ptr i (c % 256)) s

strlen_loop : ℕ → Bytes → ℕ → Option ℕ
strlen_loop zero str len = none
strlen_loop (suc f) str len =
    let rest = strlen_loop f str (suc len) in if str len == 0 then some len else rest

unfoldable pub strlen : ℕ → Bytes → Option ℕ
unfolding strlen_loop
strlen fuel str = strlen_loop fuel str 0

-- The comparison that strcmp and strncmp end with.
sign : ℕ → ℕ → ℤ
sign a b = if ltb a b then negsuc 0 else if ltb b a then pos 1 else pos 0

-- The test of both do-while loops, at the index that the body has just moved to.
go_on : Bytes → Bytes → ℕ → Bool
go_on str1 str2 k = str1 k == str2 k && not (str1 k == 0) && not (str2 k == 0)

strcmp_loop : ℕ → Bytes → Bytes → ℕ → Option ℤ
strcmp_loop zero str1 str2 k = none
strcmp_loop (suc f) str1 str2 k =
    let rest = strcmp_loop f str1 str2 (suc k) in
    if go_on str1 str2 (suc k) then rest else some (sign (str1 (suc k)) (str2 (suc k)))

unfoldable pub strcmp : ℕ → Bytes → Bytes → Option ℤ
unfolding strcmp_loop sign go_on
strcmp fuel str1 str2 = strcmp_loop fuel str1 str2 0

strncmp_loop : ℕ → Bytes → Bytes → ℕ → ℕ → Option ℤ
strncmp_loop zero str1 str2 n k = none
strncmp_loop (suc f) str1 str2 n k =
    let rest = strncmp_loop f str1 str2 n (suc k) in
    if go_on str1 str2 (suc k) && ltb (suc k) n
    then rest
    else if suc k == n
    then some (pos 0)
    else some (sign (str1 (suc k)) (str2 (suc k)))

-- The loop runs `n` rounds at most, and one for `n ≡ 0`.
unfoldable pub strncmp : Bytes → Bytes → ℕ → Option ℤ
unfolding strncmp_loop sign go_on
strncmp str1 str2 n = strncmp_loop (suc n) str1 str2 n 0

unfoldable pub toupper : ℕ → ℕ
toupper c = if leb b'a' c && leb c b'z' then c - 32 else c

-- `c -= 'a' - 'A'` wraps in the source's `int`; the result is kept as a 32-bit pattern.
unfoldable pub tolower : ℕ → ℕ
tolower c = if ltb c b'a' then (c + 4294967296 - 32) % 4294967296 else c

unfoldable pub isdig : ℕ → Bool
isdig c = leb b'0' c && leb c b'9'

strcpy_loop : ℕ → Bytes → Bytes → ℕ → Option Bytes
strcpy_loop zero destination source k = none
strcpy_loop (suc f) destination source k =
    let rest = strcpy_loop f (write destination k (source k)) source (suc k) in
    if source k == 0 then some (write destination k 0) else rest

unfoldable pub strcpy : ℕ → Bytes → Bytes → Option Bytes
unfolding strcpy_loop
strcpy fuel destination source = strcpy_loop fuel destination source 0

-- `ptr` and `source` go on together: `ptr` is `start + k` when `source` has moved by `k`.
strcat_loop : ℕ → Bytes → Bytes → ℕ → ℕ → Option Bytes
strcat_loop zero destination source ptr k = none
strcat_loop (suc f) destination source ptr k =
    let rest = strcat_loop f (write destination ptr (source k)) source (suc ptr) (suc k) in
    if source k == 0 then some (write destination ptr 0) else rest

unfoldable pub strcat : ℕ → Bytes → Bytes → Option Bytes
unfolding strlen strcat_loop
strcat fuel destination source = do
  len ← strlen fuel destination
  strcat_loop fuel destination source len 0

-- The rounds left are `length - k`.
strncpy_loop : ℕ → Bytes → Bytes → ℕ → Bytes
strncpy_loop zero destination source k = write destination k 0
strncpy_loop (suc r) destination source k =
    let rest = strncpy_loop r (write destination k (source k)) source (suc k) in
    if source k == 0 then write destination k 0 else rest

unfoldable pub strncpy : Bytes → Bytes → ℕ → Bytes
unfolding strncpy_loop
strncpy destination source length = strncpy_loop length destination source 0
