-- ===== src/Fat/Create/Named.antt =====
-- The name that an entry made by `fatCreate` has.
use pios_private.Base.{
  ℕ, suc, ◌+◌, ◌≤◌, ◌<◌, ◌≡◌, ◌≢◌, refl, arith, Bool, Option, List, [], ◌∷◌, map, length,
  length-map, ◌==◌, if◌then◌else◌, ap, ◌∙◌, ne→==, lt→ltb, le→ltb,
}
use native.Mathlib.Nat.{add-zero}
use native.Mathlib.Decide.{dec_lt}
use pios_private.Mem.{Bytes, from}
use pios_private.Mem.Text.{TextAt, IsText}
use pios_private.Clib.{toupper}
use pios_private.Clib.Letters.{toupper_zero}
use pios_private.Clib.Strings.{chars-TextAt}
use pios_private.Fat.State.{Locals}
use pios_private.Fat.Names.Entry.{unblank, entry_name}
use pios_private.Fat.Create.{split_name, fill_entry}
use pios_private.Fat.Create.Entry.{IsPlain, split_name-plain, fill_entry-name, fill_entry-ext}

toupper_blank : (c : ℕ) → c ≢ b' ' → toupper c ≢ b' '
unfolding toupper
toupper_blank c h = ground arith

padded-TextAt :
    (xs : List ℕ) (name r : Bytes) (p : ℕ)
    → TextAt name p xs
    → IsPlain xs
    → ((j : ℕ) → j < length xs → r (p + j) ≡ toupper (name (p + j)))
    → unblank r (p + length xs) ≡ 0
    → TextAt (unblank r) p (map toupper xs)
padded-TextAt [] name r p h plain each end = rw (← add-zero p) end
padded-TextAt (x ∷ xs) name r p h plain each end =
    let e : r p ≡ toupper x =
      let z : p + 0 ≡ p = add-zero p in rw (z, h.0) at (each 0 (omega arith)) in
    let s : p + suc (length xs) ≡ suc p + length xs = omega arith in
    (
      rw (e, ne→== (toupper x) b' ' (toupper_blank x plain.1)) refl,
      toupper_zero x h.1,
      padded-TextAt xs name r (suc p) h.2 plain.2
          (λ j lt.
            let s' : suc p + j ≡ p + suc j = omega arith in rw s' (each (suc j) (omega arith)))
          (rw s at end),
    )

module _ (l : Locals) (filename : Bytes) (xs : List ℕ) (rows : Bytes) (p : ℕ) (is_directory : Bool)
    (new_cluster : Option ℕ) (text : IsText filename xs) (plain : IsPlain xs)
    (fits : length xs ≤ 8) where
  unfoldable pub made_entry : Bytes
  made_entry =
      from (fill_entry rows p (split_name l filename (length xs)) is_directory new_cluster) p

  -- The entry has the capitals of the string for its name, and no extension.
  pub made_entry-name : entry_name made_entry ≡ map toupper xs
  unfolding made_entry entry_name
  made_entry-name =
      let (name, ext) = split_name l filename (length xs) in
      let (base, no_ext) = split_name-plain l xs filename text plain fits in
      let at_name = fill_entry-name rows p name ext is_directory new_cluster in
      let at_ext = fill_entry-ext rows p name ext is_directory new_cluster in
      let each = λ (j : ℕ) (lt : j < length xs).
        at_name (0 + j) (omega arith)
        ∙ base (0 + j) (omega arith)
        ∙ rw (lt→ltb (0 + j) (length xs) (omega arith)) refl in
      let bare : made_entry 8 ≡ 0 = at_ext 0 (omega arith) ∙ no_ext 0 (omega arith) in
      let end : unblank made_entry (0 + length xs) ≡ 0 = elim (dec_lt (length xs) 8) [
        | yes inside ↦
            let blank : made_entry (0 + length xs) ≡ b' ' =
              at_name (0 + length xs) (omega arith)
              ∙ base (0 + length xs) (omega arith)
              ∙ rw (le→ltb (0 + length xs) (length xs) (omega arith)) refl in
            ap (λ (c : ℕ). if c == b' ' then 0 else c) blank
        | no behind ↦
            let last : 0 + length xs ≡ 8 = omega arith in
            ap (λ (i : ℕ). unblank made_entry i) last
            ∙ ap (λ (c : ℕ). if c == b' ' then 0 else c) bare
      ] in
      let t = padded-TextAt xs filename made_entry 0 text plain each end in
      rw bare (
        chars-TextAt (map toupper xs) 8 0 (unblank made_entry) t
          (omega (arith, length-map toupper xs)))
