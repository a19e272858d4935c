-- ===== src/Fat/Io/Size.antt =====
-- Which entry gets the size: `writeFileLength` in closed form.
use pios_private.Base.{
  ℕ, zero, suc, ◌+◌, ◌*◌, ◌≤◌, ◌<◌, ◌≡◌, ◌≢◌, ◌↔◌, ne→==, refl, arith, Bool, true, not, ◌&&◌,
  Option, none, some, List, [], ◌∷◌, length, ap, ◌∙◌, Bool-cases, inl, inr, ◌==◌, find_from,
}
use native.Mathlib.Nat.{add-zero}
use pios_private.Mem.{Bytes, from, put32}
use pios_private.Mem.Copy.{splice, splice_head, splice_above}
use pios_private.Mem.Text.{TextAt}
use pios_private.Clib.Compare.{lex, lex-zero, strcmp-lex}
use pios_private.Str.Copies.{char_arr_cpy-splice}
use pios_private.Fat.State.{Locals}
use pios_private.Fat.Names.{root_directory_to_filename}
use pios_private.Fat.Names.Entry.{entry_name, rest, entry_path-rest}
use pios_private.Fat.Open.{is_zero}
use pios_private.Fat.Open.Find.{is_zero_iff}
use pios_private.Fat.Io.{set_length}
use pios_private.Fat.Io.Length.{IsCleanIo}

-- The first `n` characters.
unfoldable pub take : ℕ → List ℕ → List ℕ
take zero xs = []
take (suc n) [] = []
take (suc n) (x ∷ xs) = x ∷ take n xs

-- `rootDirectoryToFilename` copies 11 bytes: what the name then has behind its first character.
abbrev pub short_rest : Bytes → List ℕ
short_rest rde = take 10 (rest (entry_name rde))

length-take : (n : ℕ) (xs : List ℕ) → length (take n xs) ≤ n
unfolding take
length-take zero xs = omega arith
length-take (suc n) [] = omega arith
length-take (suc n) (x ∷ xs) = omega (arith, length-take n xs)

pub take-short : (n : ℕ) (xs : List ℕ) → length (take n xs) < n → take n xs ≡ xs
unfolding take
take-short zero xs lt = absurd (omega arith)
take-short (suc n) [] lt = refl
take-short (suc n) (x ∷ xs) lt = ap (◌∷◌ x) (take-short n xs (omega arith))

pub take-all : (n : ℕ) (xs : List ℕ) → length xs ≤ n → take n xs ≡ xs
unfolding take
take-all zero [] le = refl
take-all zero (x ∷ xs) le = absurd (omega arith)
take-all (suc n) [] le = refl
take-all (suc n) (x ∷ xs) le = ap (◌∷◌ x) (take-all n xs (omega arith))

-- A copy of the first bytes of a text with a NUL behind them.
TextAt-take :
    (n : ℕ) (xs : List ℕ) (p r : Bytes) (k : ℕ)
    → TextAt p k xs
    → ((j : ℕ) → k ≤ j → j < k + n → r j ≡ p j)
    → r (k + n) ≡ 0
    → TextAt r k (take n xs)
unfolding take
TextAt-take zero xs p r k h same end = rw (← add-zero k) end
TextAt-take (suc n) [] p r k h same end = same k (omega arith) (omega arith) ∙ h
TextAt-take (suc n) (x ∷ xs) p r k h same end =
    let e : k + suc n ≡ suc k + n = omega arith in
    (
      same k (omega arith) (omega arith) ∙ h.0,
      h.1,
      TextAt-take n xs p r (suc k) h.2 (λ j lo hi. same j (omega arith) (omega arith))
          (rw e at end),
    )

-- The entry is in use and has that name behind the first character.
unfoldable pub named : List ℕ → Bytes → Bool
named ys rde = not (rde 0 == 0) && is_zero (lex (short_rest rde) ys)

pub named_iff :
    (ys : List ℕ) (rde : Bytes) → (named ys rde ≡ true) ↔ ((rde 0 ≢ 0) × (short_rest rde ≡ ys))
unfolding named
named_iff ys rde =
    let (to, back) = lex-zero (short_rest rde) ys in
    let (zero_to, zero_back) = is_zero_iff (lex (short_rest rde) ys) in
    (
      λ h. (ground arith, to (zero_to (ground arith))),
      λ h. rw (ne→== (rde 0) 0 h.0, zero_back (back h.1)) refl,
    )

unfoldable pub sized : ℕ → Bytes → Option ℕ → Bytes
sized size rows none = rows
sized size rows (some k) = put32 rows (32 * k + 28) size

module _ (fuel : ℕ) (l : Locals) (enough : 12 < fuel) (clean : IsCleanIo l)
    (clear : l.path 1 ≡ 0) where
  pub filename-short_rest :
      (rde buffer : Bytes)
      → buffer 11 ≡ 0
      → (r : Bytes) × (root_directory_to_filename fuel l rde buffer ≡ some r)
        × TextAt r 1 (short_rest rde)
  unfolding root_directory_to_filename
  filename-short_rest rde buffer nul =
      let (p, e, t) = entry_path-rest fuel l l.path rde enough clean.ext clear in
      let r = splice buffer 0 11 p in
      (
        r,
        rw (e, char_arr_cpy-splice buffer p 11) refl,
        TextAt-take 10 (rest (entry_name rde)) p r 1 t
            (λ j lo hi. splice_head buffer 11 p j (omega arith))
            (splice_above buffer 0 11 p 11 (omega arith) ∙ nul),
      )

  -- With fuel for a name and with the NULs in the scratch arrays: the loop of writeFileLength over
  -- `n` rows from row `i` on, for a name that holds `ys` behind its first character, stores the size
  -- in the first row that is in use and has a name of which the 10 characters behind the first one
  -- are `ys`, and changes nothing if there is none.
  pub set_length-sized :
      (rde_name : Bytes) (ys : List ℕ) (size n i : ℕ) (rows : Bytes)
      → TextAt rde_name 1 ys
      → set_length fuel l rde_name size n i rows
        ≡ some (sized size rows (find_from n i (λ k. named ys (from rows (32 * k)))))
  unfolding set_length named sized find_from
  set_length-sized rde_name ys size zero i rows h = refl
  set_length-sized rde_name ys size (suc n) i rows h =
      let later = set_length-sized rde_name ys size n (suc i) rows h in
      let rde = from rows (32 * i) in
      let (b, made, t) = filename-short_rest rde l.buffer clean.buffer in
      let z : 32 * i + 0 ≡ 32 * i = omega arith in
      let compared =
        strcmp-lex fuel (short_rest rde) ys b rde_name t h
          (omega (arith, length-take 10 (rest (entry_name rde)))) in
      elim (Bool-cases (rows (32 * i) == 0)) [
        | inl free ↦ rw free (rw (z, free) later)
        | inr used ↦ elim (Bool-cases (is_zero (lex (short_rest rde) ys))) [
          | inl hit ↦ rw (used, made, compared, hit) (rw (z, used) refl)
          | inr miss ↦ rw (used, made, compared, miss) (rw (z, used) later)
        ]
      ]
