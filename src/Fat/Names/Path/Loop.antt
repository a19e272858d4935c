-- ===== src/Fat/Names/Path/Loop.antt =====
-- The loop of `pathToFileName` from one slash to the next.
use pios_private.Base.{
  ℕ, suc, ◌+◌, ◌⊎◌, inl, ◌*◌, ◌≤◌, ◌<◌, ◌≡◌, ◌≢◌, refl, arith, List, [], ◌∷◌, ◌++◌, map, length,
  for_to, for_to-add, ◌∙◌, ne→==, eq→==, length-append, ap,
}
use mathlib.Core.List.{append-nil}
use native.Mathlib.Nat.{add-zero}
use pios_private.Mem.{Bytes, from, write}
use pios_private.Mem.Copy.{splice, splice_none, splice-write}
use pios_private.Mem.Text.{TextAt, TextAt-drop}
use pios_private.Clib.{toupper}
use pios_private.Clib.Letters.{toupper_zero}
use pios_private.Fat.Names.{Split, split_round}

abbrev pub NoSlash : List ℕ → Type 0
NoSlash [] = Unit {0}
NoSlash (x ∷ xs) = (x ≢ b'/') × NoSlash xs

-- Each part has no slash, and fits a row of 11 bytes with its terminator.
abbrev pub AreParts : List (List ℕ) → Type 0
AreParts [] = Unit {0}
AreParts (xs ∷ xss) = (length xs < 11) × NoSlash xs × AreParts xss

-- The parts with slashes between them.
unfoldable pub joined : List ℕ → List (List ℕ) → List ℕ
joined xs [] = xs
joined xs (ys ∷ yss) = xs ++ b'/' ∷ joined ys yss

-- From row `k` on, the rows hold the parts in capitals.
abbrev pub Rows : Bytes → ℕ → List (List ℕ) → Type 0
Rows fn k [] = Unit {0}
Rows fn k (xs ∷ xss) = TextAt fn (11 * k) (map toupper xs) × Rows fn (suc k) xss

-- The path in capitals.
abbrev capitals : Bytes → Bytes
capitals path k = toupper (path k)

-- A round at a character that is no slash, and one at a slash that is not the first character.
split_round-char :
    (path : Bytes) (i : ℕ) (s : Split)
    → path i ≢ b'/'
    → split_round path i s
      ≡ record s { fn = write s.fn (11 * s.count + s.index) (capitals path i); index = suc s.index }
unfolding split_round
split_round-char path i s h = rw (ne→== (path i) b'/' h)

split_round-slash :
    (path : Bytes) (i : ℕ) (s : Split)
    → path i ≡ b'/'
    → i ≢ 0
    → split_round path i s
      ≡ record { count = suc s.count; index = 0; fn = write s.fn (11 * s.count + s.index) 0 }
unfolding split_round
split_round-slash path i s h ne = rw (eq→== (path i) b'/' h, ne→== i 0 ne)

-- The loop over one part.
part_loop :
    (xs rest : List ℕ) (path : Bytes) (i : ℕ) (s : Split)
    → NoSlash xs
    → TextAt path i (xs ++ rest)
    → for_to (length xs) i (split_round path) s ≡ record s {
      fn = splice s.fn (11 * s.count + s.index) (length xs) (from (capitals path) i);
      index = s.index + length xs;
    }
unfolding for_to
part_loop [] rest path i s clean h =
    rw (splice_none s.fn (11 * s.count + s.index) (from (capitals path) i), add-zero)
part_loop (x ∷ xs) rest path i s clean h =
    let p = 11 * s.count + s.index in
    let next : 11 * s.count + suc s.index ≡ suc p = omega arith in
    let size : suc s.index + length xs ≡ s.index + suc (length xs) = omega arith in
    ap (for_to (length xs) (suc i) (split_round path)) (split_round-char path i s (rw h.0 clean.0))
    ∙ part_loop xs rest path (suc i)
        (record s { fn = write s.fn p (capitals path i); index = suc s.index }) clean.1 h.2
    ∙ rw (next, size, splice-write s.fn (capitals path) p i (length xs)) refl

-- What the loop has done from a slash or the start on: it was then at the begin of row `k` with
-- nothing in that row or behind it.
pub record HasSplit (xs : List ℕ) (xss : List (List ℕ)) (s r : Split) : Type 0 where
  pub rows : Rows r.fn s.count (xs ∷ xss)
  pub count : r.count ≡ s.count + length xss
  pub before : (j : ℕ) → j < 11 * s.count → r.fn j ≡ s.fn j
  pub behind : (j : ℕ) → 11 * (s.count + suc (length xss)) ≤ j → r.fn j ≡ s.fn j

-- Memory that holds the capitals of a part and then a NUL.
TextAt-capitals :
    (xs rest : List ℕ) (path g : Bytes) (i p : ℕ)
    → TextAt path i (xs ++ rest)
    → ((k : ℕ) → k < length xs → g (p + k) ≡ capitals path (i + k))
    → g (p + length xs) ≡ 0
    → TextAt g p (map toupper xs)
TextAt-capitals [] rest path g i p h same nul = rw add-zero at nul
TextAt-capitals (x ∷ xs) rest path g i p h same nul = (
  ground (arith, same 0, add-zero p, add-zero i, h.0),
  toupper_zero x h.1,
  TextAt-capitals xs rest path g (suc i) (suc p) h.2
      (λ k lt.
        let e : suc p + k ≡ p + suc k = omega arith in
        let e' : suc i + k ≡ i + suc k = omega arith in rw (e, e') (same (suc k) (omega arith)))
      (let e : suc p + length xs ≡ p + suc (length xs) = omega arith in rw e nul),
)

-- The state after the part in front, at its slash.
abbrev after_part : List ℕ → Bytes → ℕ → Split → Split
after_part xs path i s = record {
  count = suc s.count;
  index = 0;
  fn =
      write (splice s.fn (11 * s.count) (length xs) (from (capitals path) i))
        (11 * s.count + length xs) 0;
}

-- The loop over a part and its slash.
part_slash_loop :
    (xs rest : List ℕ) (path : Bytes) (i : ℕ) (s : Split)
    → (0 < i) ⊎ (0 < length xs)
    → s.index ≡ 0
    → NoSlash xs
    → TextAt path i (xs ++ b'/' ∷ rest)
    → for_to (length (xs ++ b'/' ∷ rest)) i (split_round path) s
      ≡ for_to (length rest) (suc (i + length xs)) (split_round path) (after_part xs path i s)
unfolding for_to
part_slash_loop xs rest path i s start fresh clean h =
    let slash = TextAt-drop path xs (b'/' ∷ rest) i h in
    let at : 11 * s.count + s.index ≡ 11 * s.count = omega arith in
    let over : 11 * s.count + (s.index + length xs) ≡ 11 * s.count + length xs = omega arith in
    rw
      (
        length-append xs (b'/' ∷ rest),
        for_to-add (length xs) (suc (length rest)) i (split_round path) s,
        part_loop xs (b'/' ∷ rest) path i s clean h,
      )
      (ap (for_to (length rest) (suc (i + length xs)) (split_round path))
        (split_round-slash path (i + length xs) _ slash.0 (ground arith) ∙ rw (at, over) refl))

pub walk :
    (end : ℕ) (xs : List ℕ) (xss : List (List ℕ)) (path : Bytes) (i : ℕ) (s : Split)
    → (0 < i) ⊎ (0 < length xs)
    → s.index ≡ 0
    → 11 * (s.count + suc (length xss)) ≤ end
    → ((j : ℕ) → 11 * s.count ≤ j → j < end → s.fn j ≡ 0)
    → AreParts (xs ∷ xss)
    → TextAt path i (joined xs xss)
    → HasSplit xs xss s (for_to (length (joined xs xss)) i (split_round path) s)
unfolding joined splice write
walk end xs [] path i s start fresh room zero_from parts h =
    let e = part_loop xs [] path i s parts.1 (rw append-nil h) in
    rw e (record {
      rows = (
        TextAt-capitals xs [] path _ i (11 * s.count) (rw append-nil h)
            (λ k lt. ground (arith, fresh))
            (ground (arith, fresh, parts.0, zero_from (11 * s.count + length xs))),
        tt,
      );
      count = omega arith;
      before = λ j lt. ground (arith, fresh);
      behind = λ j le. ground (arith, fresh, parts.0);
    })
walk end xs (ys ∷ yss) path i s start fresh room zero_from parts h =
    let s' = after_part xs path i s in
    let rest = TextAt-drop path xs (b'/' ∷ joined ys yss) i h in
    let r =
      walk end ys yss path (suc (i + length xs)) s' (inl (omega arith)) refl (omega arith)
        (λ j le lt. ground (arith, parts.0, zero_from j)) parts.2 rest.2 in
    rw (part_slash_loop xs (joined ys yss) path i s start fresh parts.1 h) (record {
      rows = (
        TextAt-capitals xs (b'/' ∷ joined ys yss) path _ i (11 * s.count) h
            (λ k lt. ground (arith, parts.0, r.before (11 * s.count + k)))
            (ground (arith, parts.0, r.before (11 * s.count + length xs))),
        r.rows,
      );
      count = omega (arith, r.count);
      before = λ j lt. ground (arith, r.before j);
      behind = λ j le. ground (arith, parts.0, r.behind j);
    })
