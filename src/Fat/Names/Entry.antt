-- ===== src/Fat/Names/Entry.antt =====
-- The name that a directory entry has as a string.
use pios_private.Base.{
  ℕ, suc, ◌≤◌, ◌<◌, ◌≡◌, refl, arith, some, List, [], ◌∷◌, ◌++◌, length, ◌==◌, true, if◌then◌else◌,
  ◌>>=◌, Bool-cases, inl, inr, ◌∙◌, ==→eq, length-append, ap, sym, ◌≢◌, false,
}
use mathlib.Core.List.{append_assoc}
use mathlib.Core.Option.{some-injective}
use pios_private.Mem.{Bytes, write}
use pios_private.Mem.Copy.{splice, splice_head, splice_above}
use pios_private.Mem.Text.{TextAt, IsText, TextAt-same}
use pios_private.Clib.{strcat, strncpy}
use pios_private.Clib.Strings.{
  chars, strncpy-chars, strcat-append, length-chars, TextAt-chars, chars-same,
}
use pios_private.Str.{extension}
use pios_private.Str.Copies.{extension-splice}
use pios_private.Fat.State.{file_extension, Locals}
use pios_private.Fat.Names.{dot, entry_path}

-- Blanks read as NULs.
abbrev pub unblank : Bytes → Bytes
unblank b i = if b i == b' ' then 0 else b i

-- The eight characters of the name up to the first blank, and, if the extension is not blank, a
-- dot and its three characters up to the first blank.
unfoldable pub entry_name : Bytes → List ℕ
entry_name rde =
    let base = chars 8 (unblank rde) 0 in
    if unblank (file_extension rde) 0 == 0
    then base
    else base ++ b'.' ∷ chars 3 (unblank (file_extension rde)) 0

pub chars-extension : (a b : Bytes) (n : ℕ) → chars n (extension a b n) 0 ≡ chars n (unblank b) 0
chars-extension a b n = rw (extension-splice a b n) (
    chars-same n 0 (splice a 0 n (unblank b)) (unblank b)
      (λ i lo hi. splice_head a n (unblank b) i (omega arith)))

-- Both strings from which `entry_path` makes the name.
base-IsText :
    (a path rde : Bytes) → IsText (strncpy path (extension a rde 8) 8) (chars 8 (unblank rde) 0)
base-IsText a path rde = rw (chars-extension a rde 8) at (strncpy-chars 8 path (extension a rde 8))

ext-IsText : (a b : Bytes) → a 3 ≡ 0 → IsText (extension a b 3) (chars 3 (unblank b) 0)
ext-IsText a b nul =
    let end : extension a b 3 3 ≡ 0 =
      rw (extension-splice a b 3) (splice_above a 0 3 (unblank b) 3 (omega arith) ∙ nul) in
    rw (chars-extension a b 3) at (TextAt-chars 3 0 (extension a b 3) end)

ext-first : (a b : Bytes) → extension a b 3 0 ≡ unblank b 0
ext-first a b = rw (extension-splice a b 3) (splice_head a 3 (unblank b) 0 (omega arith))

with_extension :
    (fuel : ℕ) (base ext : Bytes) (xs ys : List ℕ)
    → 12 < fuel
    → IsText base xs
    → IsText ext ys
    → length xs ≤ 8
    → length ys ≤ 3
    → (p : Bytes) × ((strcat fuel base dot >>= λ dotted. strcat fuel dotted ext) ≡ some p)
      × IsText p (xs ++ b'.' ∷ ys)
with_extension fuel base ext xs ys enough hx hy lx ly =
    let (d, made, hd) =
      strcat-append fuel xs (b'.' ∷ []) base dot hx (ground arith) (omega arith) (omega arith) in
    let (p, done, hp) =
      strcat-append fuel (xs ++ b'.' ∷ []) ys d ext hd hy
        (omega (arith, length-append xs (b'.' ∷ []))) (omega arith) in
    (p, rw made done, rw (append_assoc xs (b'.' ∷ []) ys) at hp)

-- If a NUL stands behind the local array `ext` and the fuel is at least 13, every directory entry
-- yields its name: the name up to the first blank and, if there is an extension, a dot and the
-- extension up to its first blank.
pub entry_path-IsText :
    (fuel : ℕ) (l : Locals) (path rde : Bytes)
    → 12 < fuel
    → l.ext 3 ≡ 0
    → (p : Bytes) × (entry_path fuel l path rde ≡ some p) × IsText p (entry_name rde)
unfolding entry_path entry_name
entry_path-IsText fuel l path rde enough nul =
    let base = base-IsText l.filen path rde in
    elim (Bool-cases (unblank (file_extension rde) 0 == 0)) [
      | inl bare ↦
          rw (ext-first l.ext (file_extension rde), bare)
            (strncpy path (extension l.filen rde 8) 8, refl, base)
      | inr more ↦
          rw (ext-first l.ext (file_extension rde), more)
            (with_extension fuel (strncpy path (extension l.filen rde 8) 8)
              (extension l.ext (file_extension rde) 3) (chars 8 (unblank rde) 0)
              (chars 3 (unblank (file_extension rde)) 0) enough base
              (ext-IsText l.ext (file_extension rde) nul) (length-chars 8 0 (unblank rde))
              (length-chars 3 0 (unblank (file_extension rde))))
    ]

-- An entry with no name, as a free one, leaves only a NUL at the begin of `path`.
strncpy-empty : (d s : Bytes) (n : ℕ) → s 0 ≡ 0 → strncpy d s (suc n) ≡ write d 0 0
unfolding strncpy
strncpy-empty d s n h = rw h

pub extension-first : (a b : Bytes) → extension a b 8 0 ≡ unblank b 0
extension-first a b = rw (extension-splice a b 8) (splice_head a 8 (unblank b) 0 (omega arith))

entry_name-nil :
    (rde : Bytes)
    → entry_name rde ≡ []
    → (unblank rde 0 ≡ 0) × ((unblank (file_extension rde) 0 == 0) ≡ true)
unfolding entry_name chars
entry_name-nil rde e = elim (Bool-cases (unblank (file_extension rde) 0 == 0)) [
  | inl bare ↦
      (elim (Bool-cases (unblank rde 0 == 0)) [ inl h ↦ ==→eq _ 0 h | inr h ↦ ground arith ], bare)
  | inr more ↦ ground arith
]

entry_path-nil :
    (fuel : ℕ) (l : Locals) (path rde : Bytes)
    → entry_name rde ≡ []
    → entry_path fuel l path rde ≡ some (write path 0 0)
unfolding entry_path
entry_path-nil fuel l path rde e =
    let (no_base, no_ext) = entry_name-nil rde e in
    rw (ext-first l.ext (file_extension rde), no_ext)
      (ap some
        (strncpy-empty path (extension l.filen rde 8) 7 (extension-first l.filen rde ∙ no_base)))

-- All but the first character.
abbrev pub rest : List ℕ → List ℕ
rest [] = []
rest (x ∷ xs) = xs

-- What stands from the second byte of the path on, for an entry of that name, if `before` stood
-- there: an entry without a name does not write there.
unfoldable pub left_by : (before : List ℕ) → (name : List ℕ) → List ℕ
left_by before [] = before
left_by before (x ∷ xs) = xs

pub left_by-nil : (name : List ℕ) → left_by [] name ≡ rest name
unfolding left_by
left_by-nil [] = refl
left_by-nil (x ∷ xs) = refl

pub left_by-named : (before name : List ℕ) → name ≢ [] → left_by before name ≡ rest name
unfolding left_by
left_by-named before [] ne = absurd (ne refl)
left_by-named before (x ∷ xs) ne = refl

-- An entry that is not free has a name.
pub entry_name-used : (rde : Bytes) → (unblank rde 0 == 0) ≡ false → entry_name rde ≢ []
entry_name-used rde used e = let (blank, _) = entry_name-nil rde e in ground (arith, used, blank)

TextAt-left_by :
    (before xs : List ℕ) (p : Bytes)
    → IsText p xs
    → (xs ≡ [] → TextAt p 1 before)
    → TextAt p 1 (left_by before xs)
unfolding left_by
TextAt-left_by before [] p h empty = empty refl
TextAt-left_by before (x ∷ xs) p h empty = h.2

-- What stands from the second byte of the path on, also if the entry has no name.
pub entry_path-left_by :
    (fuel : ℕ) (l : Locals) (path rde : Bytes) (before : List ℕ)
    → 12 < fuel
    → l.ext 3 ≡ 0
    → TextAt path 1 before
    → (p : Bytes) × (entry_path fuel l path rde ≡ some p)
      × TextAt p 1 (left_by before (entry_name rde))
unfolding write
entry_path-left_by fuel l path rde before enough nul stood =
    let (p, e, t) = entry_path-IsText fuel l path rde enough nul in
    (
      p,
      e,
      TextAt-left_by before (entry_name rde) p t (λ none.
          let same : p ≡ write path 0 0 =
            some-injective p (write path 0 0) (sym e ∙ entry_path-nil fuel l path rde none) in
          rw same (TextAt-same path (write path 0 0) before 1 1 (λ i lt. ground arith) stood)),
    )

pub entry_path-rest :
    (fuel : ℕ) (l : Locals) (path rde : Bytes)
    → 12 < fuel
    → l.ext 3 ≡ 0
    → path 1 ≡ 0
    → (p : Bytes) × (entry_path fuel l path rde ≡ some p) × TextAt p 1 (rest (entry_name rde))
entry_path-rest fuel l path rde enough nul clear =
    let (p, e, t) = entry_path-left_by fuel l path rde [] enough nul clear in
    (p, e, rw (left_by-nil (entry_name rde)) at t)
