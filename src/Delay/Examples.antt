-- ===== src/Delay/Examples.antt =====
-- The busy loop at a clock that advances half a second between two readings.
use pios_private.Base.{ℕ, suc, ◌+◌, ◌*◌, ◌≤◌, ◌<◌, ◌≡◌, arith, some}
use pios_private.Delay.{delay, delay-waits}

abbrev clo : ℕ → ℕ
clo i = 1000 + i * 500000

delay-waits_example :
    (n : ℕ) × (delay 9 clo 2 ≡ some (suc n))
    × (n ≤ 4)
    × (clo 0 + 2 * 1000000 ≤ clo n)
    × ((j : ℕ) → j < n → clo j < clo 0 + 2 * 1000000)
delay-waits_example = delay-waits 9 clo 2 4 (omega arith) (omega arith) (omega arith)
