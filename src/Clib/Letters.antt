-- ===== src/Clib/Letters.antt =====
-- The character routines: toupper of src/clibfuncs.c, and tolower of src/rprintf.c.
use pios_private.Base.{ℕ, ◌+◌, ◌≤◌, ◌<◌, ◌≡◌, ◌≢◌, ◌⊎◌, arith}
use pios_private.Clib.{toupper, tolower}

-- toupper takes the small letters to the capitals at the same place of the alphabet, and leaves
-- every other character alone.
pub toupper-letters :
    (c : ℕ)
    → (b'a' ≤ c
        → c ≤ b'z'
        → (toupper c + b'a' ≡ c + b'A') × (b'A' ≤ toupper c) × (toupper c ≤ b'Z'))
      × ((c < b'a') ⊎ (b'z' < c) → toupper c ≡ c)
unfolding toupper
toupper-letters c = (λ a b. ground arith, λ h. ground arith)

-- A second toupper changes nothing.
pub toupper_idem : (c : ℕ) → toupper (toupper c) ≡ toupper c
unfolding toupper
toupper_idem c = ground arith

pub toupper_zero : (c : ℕ) → c ≢ 0 → toupper c ≢ 0
unfolding toupper
toupper_zero c h = ground arith

-- tolower leaves small letters alone, and takes every character below them 32 down, wrapping at
-- zero: no capital becomes a small letter.
pub tolower-wrong :
    (c : ℕ)
    → c < 256
    → (b'a' ≤ c → tolower c ≡ c)
      × (32 ≤ c → c < b'a' → tolower c + 32 ≡ c)
      × (c < 32 → tolower c ≡ c + 4294967264)
unfolding tolower
tolower-wrong c h = (λ a. ground arith, λ a b. ground arith, λ a. ground arith)
