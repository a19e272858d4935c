-- ===== src/Delay.antt =====
-- The busy loop of src/delay.c.
mod Examples
use pios_private.Base.{
  ℕ, zero, suc, ◌+◌, ◌-◌, ◌*◌, ◌%◌, ◌≤◌, ◌<◌, ◌≡◌, refl, arith, Option, none, some, ltb,
  if◌then◌else◌, lt→ltb, ◌≢◌,
}
use native.Mathlib.Decide.{dec_lt}
use native.Mathlib.Nat.{add-zero, zero-add}

-- `while (currentTime < finishTime) currentTime = *clo;` with fuel for the readings of the clock:
-- `clo i` is the i-th one, and the result is the number of readings taken.
unfoldable pub delay_loop : (fuel : ℕ) → (clo : ℕ → ℕ) → (finish_time i : ℕ) → Option ℕ
delay_loop zero clo finish_time i = none
delay_loop (suc fuel) clo finish_time i =
    let rest = delay_loop fuel clo finish_time (suc i) in
    if ltb (clo i) finish_time then rest else some (suc i)

unfoldable pub delay : (fuel : ℕ) → (clo : ℕ → ℕ) → (seconds : ℕ) → Option ℕ
delay fuel clo seconds =
    delay_loop fuel clo ((clo 0 + seconds * 1000000 % 4294967296) % 4294967296) 0

-- Until the clock gets there.
delay_loop-first :
    (fuel : ℕ) (clo : ℕ → ℕ) (t i k : ℕ)
    → t ≤ clo (i + k)
    → k < fuel
    → (n : ℕ) × (delay_loop fuel clo t i ≡ some (suc n))
      × (i ≤ n)
      × (n ≤ i + k)
      × (t ≤ clo n)
      × ((j : ℕ) → i ≤ j → j < n → clo j < t)
unfolding delay_loop
delay_loop-first zero clo t i k there enough = absurd (omega arith)
delay_loop-first (suc fuel) clo t i k there enough = elim (dec_lt (clo i) t) [
  | no stop ↦
      (i, ground arith, omega arith, omega arith, omega arith, λ j lo hi. absurd (omega arith))
  | yes more ↦
      let some_rounds : k ≢ 0 = λ e. omega (arith, rw (e, add-zero i) at there) in
      let e : i + k ≡ suc i + (k - 1) = omega arith in
      let (n, run, lo, hi, reached, before) =
        delay_loop-first fuel clo t (suc i) (k - 1) (rw e at there) (omega arith) in
      (
        n,
        rw (lt→ltb (clo i) t more) run,
        omega arith,
        omega arith,
        reached,
        λ j from below. elim (dec_lt i j) [
          | yes later ↦ before j later below
          | no at ↦ let same : j ≡ i = omega arith in rw same more
        ],
      )
]

-- If the clock reaches the finish time at a reading within the fuel, and the finish time does not
-- wrap, `delay` returns, at the first reading that is at least `seconds` seconds after the first.
pub delay-waits :
    (fuel : ℕ) (clo : ℕ → ℕ) (seconds k : ℕ)
    → clo 0 + seconds * 1000000 < 4294967296
    → clo 0 + seconds * 1000000 ≤ clo k
    → k < fuel
    → (n : ℕ) × (delay fuel clo seconds ≡ some (suc n))
      × (n ≤ k)
      × (clo 0 + seconds * 1000000 ≤ clo n)
      × ((j : ℕ) → j < n → clo j < clo 0 + seconds * 1000000)
unfolding delay
delay-waits fuel clo seconds k fits there enough =
    let e : (clo 0 + seconds * 1000000 % 4294967296) % 4294967296 ≡ clo 0 + seconds * 1000000 =
      omega arith in
    let (n, run, lo, hi, reached, before) =
      delay_loop-first fuel clo (clo 0 + seconds * 1000000) 0 k (rw zero-add there) enough in
    (n, rw e run, omega arith, reached, λ j below. before j (omega arith) below)

-- If the sum that makes up the finish time wraps, `delay` does not wait: it returns after the first
-- reading, whatever the clock shows after it.
pub delay-wraps :
    (fuel : ℕ) (clo : ℕ → ℕ) (seconds : ℕ)
    → clo 0 < 4294967296
    → seconds * 1000000 < 4294967296
    → 4294967296 ≤ clo 0 + seconds * 1000000
    → delay (suc fuel) clo seconds ≡ some 1
unfolding delay delay_loop
delay-wraps fuel clo seconds now small wraps = ground arith
