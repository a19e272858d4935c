-- ===== src/Fat/Open/Find.antt =====
-- Which entry of a directory the loops of `fatOpen` and `fatCreate` stop at.
use pios_private.Base.{
  ℕ, zero, suc, ◌≤◌, ◌<◌, ◌≡◌, ◌≢◌, ◌↔◌, ◌⊎◌, refl, arith, Bool, true, some, List, [], ◌∷◌, length,
  find_from, IsFirst, Bool-cases, inl, inr, ℤ, pos, negsuc, ap, ◌∙◌,
}
use pios_private.Mem.{Bytes}
use pios_private.Mem.Text.{TextAt}
use pios_private.Clib.Compare.{lex, lex-zero, strcmp-lex}
use pios_private.Parse.Clear.{null_char_array-zero}
use pios_private.Fat.State.{Locals}
use pios_private.Fat.Names.Entry.{
  entry_name, rest, left_by, left_by-nil, left_by-named, entry_path-left_by,
}
use pios_private.Fat.Open.{keep_path, clear_path, is_zero, same_name, find_entry}

-- A directory entry is taken for a file if the names agree from the second character on. `xs` is
-- what the name that is looked for has there.
unfoldable pub agrees : List ℕ → Bytes → Bool
agrees xs rde = is_zero (lex xs (rest (entry_name rde)))

pub is_zero_iff : (z : ℤ) → (is_zero z ≡ true) ↔ (z ≡ pos 0)
unfolding is_zero
is_zero_iff (pos n) = ground arith
is_zero_iff (negsuc n) = ground arith

pub agrees_iff : (xs : List ℕ) (rde : Bytes) → (agrees xs rde ≡ true) ↔ (xs ≡ rest (entry_name rde))
unfolding agrees
agrees_iff xs rde =
    let (to, back) = lex-zero xs (rest (entry_name rde)) in
    let (zero_to, zero_back) = is_zero_iff (lex xs (rest (entry_name rde))) in
    (λ h. to (zero_to h), λ h. zero_back (back h))

-- What stands from the second byte of `path` on when a loop over the root directory compares entry
-- `k`: what the last entry with a name has left there.
unfoldable pub left_at : (ℕ → Bytes) → ℕ → List ℕ
left_at rde zero = left_by [] (entry_name (rde 0))
left_at rde (suc k) = left_by (left_at rde k) (entry_name (rde (suc k)))

-- The comparison of such a loop with entry `k`.
unfoldable pub stands : List ℕ → (ℕ → Bytes) → ℕ → Bool
stands xs rde k = is_zero (lex xs (left_at rde k))

-- For an entry with a name it is a matter of that entry alone.
pub stands-agrees :
    (xs : List ℕ) (rde : ℕ → Bytes) (k : ℕ)
    → entry_name (rde k) ≢ []
    → stands xs rde k ≡ agrees xs (rde k)
unfolding stands agrees left_at
stands-agrees xs rde zero ne =
    ap (λ (ys : List ℕ). is_zero (lex xs ys)) (left_by-named [] (entry_name (rde 0)) ne)
stands-agrees xs rde (suc k) ne =
    ap (λ (ys : List ℕ). is_zero (lex xs ys))
      (left_by-named (left_at rde k) (entry_name (rde (suc k))) ne)

left_by-cases :
    (before name : List ℕ) → (left_by before name ≡ before) ⊎ (left_by before name ≡ rest name)
unfolding left_by
left_by-cases before [] = inl refl
left_by-cases before (x ∷ xs) = inr refl

-- What stands there is of an entry that has been passed.
left_at-entry :
    (rde : ℕ → Bytes) (k : ℕ) → (j : ℕ) × (j ≤ k) × (left_at rde k ≡ rest (entry_name (rde j)))
unfolding left_at
left_at-entry rde zero = (0, omega arith, left_by-nil (entry_name (rde 0)))
left_at-entry rde (suc k) = elim (left_by-cases (left_at rde k) (entry_name (rde (suc k)))) [
  | inl kept ↦ let (j, le, e) = left_at-entry rde k in (j, omega (arith, le), kept ∙ e)
  | inr new ↦ (suc k, omega arith, new)
]

-- The first entry that agrees is the one that the loop stops at, if it has a name.
pub IsFirst-stands :
    (xs : List ℕ) (rde : ℕ → Bytes) (n i : ℕ)
    → entry_name (rde i) ≢ []
    → IsFirst n 0 (λ k. agrees xs (rde k)) i
    → IsFirst n 0 (stands xs rde) i
unfolding stands agrees
IsFirst-stands xs rde n i ne first = record {
  lower = first.lower;
  upper = first.upper;
  holds = stands-agrees xs rde i ne ∙ first.holds;
  before = λ j lo lt.
      let (k, le, e) = left_at-entry rde j in
      ap (λ (ys : List ℕ). is_zero (lex xs ys)) e ∙ first.before k (omega arith) (omega arith);
}

-- The scratch arrays: NULs stand behind `ext`.
module _ (fuel : ℕ) (l : Locals) (name : Bytes) (xs : List ℕ) (enough : 12 < fuel)
    (long : length xs < fuel) (nul : l.ext 3 ≡ 0) (named : TextAt name 1 xs) where
  pub same_name-left_by :
      (path rde : Bytes) (before : List ℕ)
      → TextAt path 1 before
      → (p : Bytes) × (same_name fuel l path name rde
          ≡ some (is_zero (lex xs (left_by before (entry_name rde))), p))
        × TextAt p 1 (left_by before (entry_name rde))
  unfolding same_name
  same_name-left_by path rde before stood =
      let (p, e, t) = entry_path-left_by fuel l path rde before enough nul stood in
      (p, rw (e, strcmp-lex fuel xs (left_by before (entry_name rde)) name p named t long) refl, t)

  find_entry-stands :
      (rde : ℕ → Bytes) (n i : ℕ) (path : Bytes) (before : List ℕ)
      → TextAt path 1 before
      → left_by before (entry_name (rde i)) ≡ left_at rde i
      → find_entry fuel l keep_path path name rde n i ≡ some (find_from n i (stands xs rde))
  unfolding find_entry find_from stands left_at
  find_entry-stands rde zero i path before stood at = refl
  find_entry-stands rde (suc n) i path before stood at =
      let (p, same, t) = same_name-left_by path (rde i) before stood in
      let later =
        find_entry-stands rde n (suc i) p (left_by before (entry_name (rde i))) t
          (ap (λ (ys : List ℕ). left_by ys (entry_name (rde (suc i)))) at) in
      rw (same, at)
        (elim (Bool-cases (is_zero (lex xs (left_at rde i)))) [
          | inl hit ↦ rw hit refl
          | inr miss ↦ rw miss later
        ])

  -- With fuel for both names, with a NUL behind `ext` and with a NUL at the second byte of `path`
  -- before the first round, the search of the root directory returns. It finds the first entry at
  -- which the name that is looked for agrees, from the second character on, with the name of the last
  -- entry up to there that has one: a free entry has none, and leaves the bytes of the name before it
  -- in `path`.
  pub find_entry-find_from :
      (path : Bytes)
      → path 1 ≡ 0
      → (rde : ℕ → Bytes) (n : ℕ)
      → find_entry fuel l keep_path path name rde n 0 ≡ some (find_from n 0 (stands xs rde))
  unfolding left_at
  find_entry-find_from path clear rde n = find_entry-stands rde n 0 path [] clear refl

  -- The search of another directory, which clears `path`, finds the first entry that agrees.
  pub find_entry-cleared :
      (rde : ℕ → Bytes) (n i : ℕ) (path : Bytes)
      → find_entry fuel l clear_path path name rde n i
        ≡ some (find_from n i (λ k. agrees xs (rde k)))
  unfolding find_entry find_from agrees
  find_entry-cleared rde zero i path = refl
  find_entry-cleared rde (suc n) i path =
      let (p, same, _) =
        same_name-left_by (clear_path path) (rde i) []
          (null_char_array-zero path 11 1 (ground arith)) in
      let later = find_entry-cleared rde n (suc i) p in
      rw (same, left_by-nil (entry_name (rde i)))
        (elim (Bool-cases (is_zero (lex xs (rest (entry_name (rde i)))))) [
          | inl hit ↦ rw hit refl
          | inr miss ↦ rw miss later
        ])
