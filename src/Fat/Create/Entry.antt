-- ===== src/Fat/Create/Entry.antt =====
-- The entry that `fatCreate` makes of a name without a dot.
use pios_private.Base.{
  ℕ, suc, ◌+◌, ◌≤◌, ◌<◌, ◌≡◌, ◌≢◌, ◌⊎◌, refl, arith, Bool, Option, none, some, List, [], ◌∷◌,
  length, ◌==◌, ltb, if◌then◌else◌, for_to, find_from, ap, ◌∙◌, negsuc,
}
use pios_private.Mem.{Bytes, from, write, put16, put32, zeros, get16, get32}
use pios_private.Mem.Text.{TextAt, IsText}
use pios_private.Mem.Copy.{splice, for_to-write, for_to-write_to}
use pios_private.Clib.{toupper}
use pios_private.Str.{char_arr_to_upper, has_separator}
use pios_private.Str.Copies.{
  space_char_array-splice, null_char_array-splice, char_arr_to_upper-splice,
}
use pios_private.Fat.State.{Locals, attribute, cluster, file_size}
use pios_private.Fat.Create.{split_name, fill_entry}

-- Characters of a name that need no care: no dots and no blanks.
abbrev pub IsPlain : List ℕ → Type 0
IsPlain [] = Unit {0}
IsPlain (x ∷ xs) = (x ≢ b'.') × (x ≢ b' ') × IsPlain xs

no_dot :
    (xs : List ℕ) (b : Bytes) (p : ℕ)
    → TextAt b p xs
    → IsPlain xs
    → find_from (length xs) p (λ i. b i == b'.') ≡ none
unfolding find_from
no_dot [] b p h plain = refl
no_dot (x ∷ xs) b p h plain = ground (arith, h.0, plain.0, no_dot xs b (suc p) h.2 plain.2)

has_separator-none :
    (xs : List ℕ) (name : Bytes)
    → IsText name xs
    → IsPlain xs
    → has_separator name b'.' (length xs) ≡ negsuc 0
unfolding has_separator
has_separator-none xs name h plain = rw (has_separator, no_dot xs name 0 h plain)

capitals :
    (n : ℕ) (a : Bytes)
    → for_to n 0 (λ i a. write a i (toupper (a i))) a ≡ splice a 0 n (λ i. toupper (a i))
unfolding char_arr_to_upper
capitals n a = char_arr_to_upper-splice a n

-- The two strings in closed form.
split_name_lem :
    (l : Locals) (xs : List ℕ) (name : Bytes)
    → IsText name xs
    → IsPlain xs
    → split_name l name (length xs) ≡ (
      splice
          (splice (splice l.name 0 8 (λ _. b' ')) 0 (length xs) name)
          0
          8
          (λ i. toupper (splice (splice l.name 0 8 (λ _. b' ')) 0 (length xs) name i)),
      splice (splice l.ext 0 3 zeros) 0 3 (λ i. toupper (splice l.ext 0 3 zeros i)),
    )
unfolding split_name
split_name_lem l xs name h plain = rw (
  split_name,
  has_separator-none xs name h plain,
  space_char_array-splice l.name 8,
  null_char_array-splice l.ext 3,
  for_to-write (length xs) (splice l.name 0 8 (λ _. b' ')) name,
  capitals 8 (splice (splice l.name 0 8 (λ _. b' ')) 0 (length xs) name),
  capitals 3 (splice l.ext 0 3 zeros),
)

-- The eight characters and the three.
pub split_name-plain :
    (l : Locals) (xs : List ℕ) (name : Bytes)
    → IsText name xs
    → IsPlain xs
    → length xs ≤ 8
    → ((j : ℕ)
        → j < 8
        → (split_name l name (length xs)).0 j
          ≡ (if ltb j (length xs) then toupper (name j) else b' '))
      × ((j : ℕ) → j < 3 → (split_name l name (length xs)).1 j ≡ 0)
unfolding toupper splice
split_name-plain l xs name h plain fits =
    let e = split_name_lem l xs name h plain in
    (
      λ j lt. ap (λ (r : Bytes × Bytes). r.0 j) e ∙ ground arith,
      λ j lt. ap (λ (r : Bytes × Bytes). r.1 j) e ∙ ground arith,
    )

-- A cluster that has been found is stored.
linked : Bytes → ℕ → Option ℕ → Bytes
linked b p none = b
linked b p (some i) = put16 b (p + 26) i

named : Bytes → ℕ → Bytes → Bytes → Bytes
named rows p name ext = splice (splice rows p 8 name) (p + 8) 3 ext

fill_entry_lem :
    (rows : Bytes) (p : ℕ) (name ext : Bytes) (is_directory : Bool) (new_cluster : Option ℕ)
    → fill_entry rows p (name, ext) is_directory new_cluster
      ≡ put32
          (linked
            (write (named rows p name ext) (p + 11) (if is_directory then 0x10 else 0x20))
            p
            new_cluster)
          (p + 28)
          0
unfolding fill_entry linked named
fill_entry_lem rows p name ext is_directory none =
    rw (for_to-write_to 8 p rows name, for_to-write_to 3 (p + 8) (splice rows p 8 name) ext)
fill_entry_lem rows p name ext is_directory (some i) =
    rw (for_to-write_to 8 p rows name, for_to-write_to 3 (p + 8) (splice rows p 8 name) ext)

module _ (rows : Bytes) (p : ℕ) (name ext : Bytes) (is_directory : Bool)
    (new_cluster : Option ℕ) where
  abbrev filled : Bytes
  filled = fill_entry rows p (name, ext) is_directory new_cluster

  -- The first twelve bytes.
  fill_entry-head : (j : ℕ) → j < 11 → filled (p + j) ≡ named rows p name ext (p + j)
  unfolding put32 put16 linked write
  fill_entry-head j lt =
      ap (λ (b : Bytes). b (p + j)) (fill_entry_lem rows p name ext is_directory new_cluster)
      ∙ elim new_cluster [ none ↦ ground arith | some i ↦ ground arith ]

  pub fill_entry-name : (j : ℕ) → j < 8 → filled (p + j) ≡ name j
  unfolding named splice
  fill_entry-name j lt = fill_entry-head j (omega arith) ∙ ground arith

  pub fill_entry-ext : (j : ℕ) → j < 3 → filled (p + (8 + j)) ≡ ext j
  unfolding named splice
  fill_entry-ext j lt = fill_entry-head (8 + j) (omega arith) ∙ ground arith

  pub fill_entry-outside : (q : ℕ) → (q < p) ⊎ (p + 32 ≤ q) → filled q ≡ rows q
  unfolding put32 put16 linked write named splice
  fill_entry-outside q out =
      ap (λ (b : Bytes). b q) (fill_entry_lem rows p name ext is_directory new_cluster)
      ∙ elim new_cluster [ none ↦ ground arith | some i ↦ ground arith ]

  pub fill_entry-attribute : attribute (from filled p) ≡ (if is_directory then 0x10 else 0x20)
  unfolding put32 put16 linked write
  fill_entry-attribute =
      ap (λ (b : Bytes). b (p + 11)) (fill_entry_lem rows p name ext is_directory new_cluster)
      ∙ elim new_cluster [ none ↦ ground arith | some i ↦ ground arith ]

  pub fill_entry-file_size : file_size (from filled p) ≡ 0
  unfolding put32 write file_size get32
  fill_entry-file_size =
      ap (λ (b : Bytes). file_size (from b p))
        (fill_entry_lem rows p name ext is_directory new_cluster)
      ∙ ground arith

pub fill_entry-cluster :
    (rows : Bytes) (p : ℕ) (name ext : Bytes) (is_directory : Bool) (i : ℕ)
    → i < 65536
    → cluster (from (fill_entry rows p (name, ext) is_directory (some i)) p) ≡ i
unfolding put32 put16 linked write cluster get16
fill_entry-cluster rows p name ext is_directory i lt =
    ap (λ (b : Bytes). cluster (from b p)) (fill_entry_lem rows p name ext is_directory (some i))
    ∙ ground arith
