-- ===== src/Fat/Names/Path.antt =====
-- `pathToFileName` splits a path at its slashes.
mod Loop
unfoldable pub use Loop.{NoSlash, AreParts, joined, Rows}
use Loop.{HasSplit, walk}
use pios_private.Base.{
  ℕ, suc, ◌+◌, ◌⊎◌, inl, inr, ◌*◌, ◌≤◌, ◌<◌, ◌≡◌, ◌≢◌, refl, arith, List, [], ◌∷◌, ◌++◌, map,
  length, if◌then◌else◌, for_to, for_to-add, for_to_inv, ltb, ◌∙◌, ne→==, eq→==, length-append, ap,
}
use mathlib.Core.List.{append-nil}
use native.Mathlib.Nat.{add-zero}
use pios_private.Mem.{Bytes, from, write, zeros}
use pios_private.Mem.Copy.{splice, for_to-write_to, splice_none, splice-write}
use pios_private.Mem.Text.{TextAt, IsText, TextAt-drop}
use pios_private.Clib.{toupper}
use pios_private.Clib.Letters.{toupper_zero}
use pios_private.Fat.State.{Locals}
use pios_private.Fat.Names.{placement, Split, split_round, path_to_file_name}

-- What `placementFile` holds of a path: its parts in capitals, one to a row, and NULs in the first
-- bytes of the rows behind them.
pub record HasParts (xss : List (List ℕ)) (n : ℕ) (fn : Bytes) : Type 0 where
  pub count : n ≡ length xss
  pub rows : Rows fn 0 xss
  pub behind : (k : ℕ) → length xss ≤ k → k < 20 → fn (11 * k) ≡ 0

cleared : Bytes → Bytes
cleared fn = for_to 20 0 (λ i fn. for_to 11 0 (λ j fn. write fn (11 * i + j) 0) fn) fn

cleared_zero : (fn : Bytes) (j : ℕ) → j < 220 → cleared fn j ≡ 0
unfolding cleared splice
cleared_zero fn j lt =
    let h =
      for_to_inv (λ i (b : Bytes). b j ≡ (if ltb j (11 * i) then 0 else fn j)) 20 0
        (λ i fn. for_to 11 0 (λ j fn. write fn (11 * i + j) 0) fn) fn
        (λ i b lo hi e. rw (for_to-write_to 11 (11 * i) b zeros) (ground arith)) (ground arith) in
    ground arith

first_row : Bytes → Split
first_row fn = record { count = 0; index = 0; fn = cleared fn }

-- The parts at the end of the loop, wherever it starts.
HasSplit-parts :
    (fn : Bytes) (xs : List ℕ) (xss : List (List ℕ)) (r : Split)
    → length xss < 20
    → HasSplit xs xss (first_row fn) r
    → HasParts (xs ∷ xss) (suc r.count) r.fn
unfolding first_row
HasSplit-parts fn xs xss r few h = record {
  count = omega (arith, h.count);
  rows = h.rows;
  behind = λ k le lt. h.behind (11 * k) (omega arith) ∙ cleared_zero fn (11 * k) (omega arith);
}

-- The first round at a slash changes nothing.
lead_loop :
    (n : ℕ) (path fn : Bytes)
    → path 0 ≡ b'/'
    → for_to n 1 (split_round path) (first_row fn)
      ≡ for_to (suc n) 0 (split_round path) (first_row fn)
unfolding for_to split_round first_row
lead_loop n path fn h = rw h refl

-- The same of a path without a leading slash, whose first part is not empty.
pub placement-relative :
    (l : Locals) (filename : Bytes) (xs : List ℕ) (xss : List (List ℕ))
    → AreParts (xs ∷ xss)
    → length xss < 20
    → 0 < length xs
    → IsText filename (joined xs xss)
    → let (count, fn) = placement l filename (length (joined xs xss)) in
      HasParts (xs ∷ xss) count fn
unfolding placement path_to_file_name first_row cleared
placement-relative l filename xs xss parts few some h =
    HasSplit-parts l.placement_file xs xss _ few (
      walk 220 xs xss filename 0 (first_row l.placement_file) (inr some) refl (omega arith)
        (λ j le lt. cleared_zero l.placement_file j lt) parts h)

-- A path that is a slash and at most 20 parts with slashes between them, each of at most 10
-- characters, is split into these parts, in capitals: the slash in front is passed over, and the
-- rows behind the last part begin with NULs.
pub placement-HasParts :
    (l : Locals) (filename : Bytes) (xs : List ℕ) (xss : List (List ℕ))
    → AreParts (xs ∷ xss)
    → length xss < 20
    → IsText filename (b'/' ∷ joined xs xss)
    → let (count, fn) = placement l filename (suc (length (joined xs xss))) in
      HasParts (xs ∷ xss) count fn
unfolding placement path_to_file_name first_row cleared
placement-HasParts l filename xs xss parts few h = HasSplit-parts l.placement_file xs xss _ few (
    rw (lead_loop (length (joined xs xss)) filename l.placement_file h.0) at (
      walk 220 xs xss filename 1 (first_row l.placement_file) (inl (omega arith)) refl (omega arith)
        (λ j le lt. cleared_zero l.placement_file j lt) parts h.2))
