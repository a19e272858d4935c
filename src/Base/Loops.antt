-- ===== src/Base/Loops.antt =====
-- C's counted loops. `for_to n i body s` runs `body i`, `body (i + 1)`, … for `n` rounds;
-- `find_from n i test` is such a loop that breaks at the first index whose test passes.
use Prim.Native.Nat.{ℕ, zero, suc, ◌+◌, ◌≤◌, ◌<◌}
use mathlib.Core.Path.{◌≡◌}
use mathlib.Core.Bool.{Bool, true, false}
use mathlib.Core.Option.{Option, none, some}
use native.Mathlib.Omega.{arith}
use native.Mathlib.Decide.{ℕ_discrete}
use native.Mathlib.Nat.{add-zero}
use Prim.Native.Nat.add
use mathlib.Core.Logic.{inl, inr}
use pios_private.Base.Tests.{if◌then◌else◌, Bool-cases}

unfoldable pub for_to {ℓ} : {S : Type ℓ} → ℕ → ℕ → (ℕ → S → S) → S → S
for_to zero i body s = s
for_to (suc n) i body s = for_to n (suc i) body (body i s)

-- An invariant over the index, kept by each round, holds when the loop ends.
pub for_to_inv {ℓ κ} :
    {S : Type ℓ} (P : ℕ → S → Type κ) (n i : ℕ) (body : ℕ → S → S) (s : S)
    → ((k : ℕ) (t : S) → i ≤ k → k < i + n → P k t → P (suc k) (body k t))
    → P i s
    → P (i + n) (for_to n i body s)
unfolding for_to
for_to_inv P zero i body s keep h = rw add-zero h
for_to_inv P (suc n) i body s keep h =
    let e : i + suc n ≡ suc i + n = omega arith in
    rw e (
      for_to_inv P n (suc i) body (body i s) (λ k t a b. keep k t (omega arith) (omega arith))
        (keep i s (omega arith) (omega arith) h))

unfoldable pub find_from : ℕ → ℕ → (ℕ → Bool) → Option ℕ
find_from zero i test = none
find_from (suc n) i test = let rest = find_from n (suc i) test in if test i then some i else rest

-- What a search that broke at `k` knows of the indices from `i` on.
pub record IsFirst (n i : ℕ) (test : ℕ → Bool) (k : ℕ) : Type 0 where
  pub lower : i ≤ k
  pub upper : k < i + n
  pub holds : test k ≡ true
  pub before : (j : ℕ) → i ≤ j → j < k → test j ≡ false

pub find_from-IsFirst :
    (n i : ℕ) (test : ℕ → Bool) (k : ℕ) → find_from n i test ≡ some k → IsFirst n i test k
unfolding find_from
find_from-IsFirst zero i test k h = cc
find_from-IsFirst (suc n) i test k h = elim (Bool-cases (test i)) [
  | inl hit ↦
      let e : i ≡ k = ground arith in
      record {
        lower = omega arith;
        upper = omega arith;
        holds = rw (← e) hit;
        before = λ j a b. absurd (omega arith);
      }
  | inr miss ↦
      let r = find_from-IsFirst n (suc i) test k (ground arith) in
      record {
        lower = omega (arith, r.lower);
        upper = omega (arith, r.upper);
        holds = r.holds;
        before = λ j a b. elim (ℕ_discrete i j) [
          | yes e ↦ rw (← e) miss
          | no ne ↦ r.before j (omega arith) b
        ];
      }
]

-- The index that is first is found.
pub find_from-first :
    (n i : ℕ) (test : ℕ → Bool) (k : ℕ) → IsFirst n i test k → find_from n i test ≡ some k
unfolding find_from
find_from-first zero i test k h = absurd (omega (arith, h.lower, h.upper))
find_from-first (suc n) i test k h = elim (ℕ_discrete i k) [
  | yes e ↦ let hit = h.holds in ground (arith, e, hit)
  | no ne ↦
      let miss = h.before i (omega arith) (omega (arith, h.lower)) in
      let later : IsFirst n (suc i) test k = record {
        lower = omega (arith, h.lower);
        upper = omega (arith, h.upper);
        holds = h.holds;
        before = λ j a b. h.before j (omega arith) b;
      } in
      rw miss (find_from-first n (suc i) test k later)
]

pub find_from-none :
    (n i : ℕ) (test : ℕ → Bool)
    → find_from n i test ≡ none
    → (j : ℕ) → i ≤ j
    → j < i + n
    → test j ≡ false
unfolding find_from
find_from-none zero i test h j a b = absurd (omega arith)
find_from-none (suc n) i test h j a b = elim (ℕ_discrete i j) [
  | yes e ↦ rw (← e) (ground arith)
  | no ne ↦ find_from-none n (suc i) test (ground arith) j (omega arith) (omega arith)
]

-- A loop is the loop over its first rounds and then that over the others.
pub for_to-add {ℓ} :
    {S : Type ℓ} (m n i : ℕ) (body : ℕ → S → S) (s : S)
    → for_to (m + n) i body s ≡ for_to n (i + m) body (for_to m i body s)
unfolding for_to
for_to-add zero n i body s = rw (add.zero, add-zero)
for_to-add (suc m) n i body s =
    let e : suc m + n ≡ suc (m + n) = omega arith in
    let e' : i + suc m ≡ suc i + m = omega arith in
    rw (e, e') (for_to-add m n (suc i) body (body i s))
