-- ===== src/Command/Listing.antt =====
-- What `ls` prints of the root directory.
use pios_private.Base.{
  ℕ, zero, suc, ◌<◌, ◌≡◌, refl, arith, Bool, true, not, ◌&&◌, ◌||◌, some, List, [], ◌∷◌, ◌==◌,
  if◌then◌else◌, Bool-cases, inl, inr,
}
use pios_private.Mem.{Bytes}
use pios_private.Mem.Text.{IsText}
use pios_private.Clib.Strings.{strlen-length}
use pios_private.Clib.Compare.{lex, strcmp-lex}
use pios_private.Fat.Open.{is_zero}
use pios_private.Fat.State.{root_rde, file_size}
use pios_private.Fat.Names.{entry_path}
use pios_private.Fat.Names.Entry.{entry_name, entry_path-IsText}
use pios_private.Command.{
  Shell, Scratch, Print, says, says_text, number, is_directory, is_file, list_entry, list_entries,
  ls_root, ls, root_directory,
}

-- The `n` entries from `i` on that are in use and pass the test.
unfoldable pub in_use : (passes : Bytes → Bool) → (ℕ → Bytes) → (n i : ℕ) → List Bytes
in_use passes rde zero i = []
in_use passes rde (suc n) i =
    let later = in_use passes rde n (suc i) in
    if passes (rde i) && not (rde i 0 == 0) then rde i ∷ later else later

-- What is printed of an entry in front of its name.
unfoldable pub heading : Bytes → Print
heading rde =
    if is_directory rde
    then says "Directory: "
    else record { format = "File: Size - %d, "; args = number (file_size rde) ∷ [] }

-- The calls for these entries, one after the other, take the console from `console` to `out`.
abbrev pub IsListing : List Bytes → (console out : List Print) → Type 0
IsListing [] console out = out ≡ console
IsListing (rde ∷ rdes) console out =
    (b : Bytes) × IsText b (entry_name rde)
    × IsListing rdes (says_text "%s\n" b ∷ heading rde ∷ console) out

abbrev pub is_shown : Bytes → Bool
is_shown rde = is_directory rde || is_file rde

list_entry-heading :
    (rde b : Bytes) (console : List Print)
    → is_shown rde ≡ true
    → list_entry rde b console ≡ says_text "%s\n" b ∷ heading rde ∷ console
unfolding list_entry heading
list_entry-heading rde b console shown = elim (Bool-cases (is_directory rde)) [
  | inl yes_directory ↦ rw yes_directory refl
  | inr no_directory ↦ let file : is_file rde ≡ true = ground arith in rw (no_directory, file) refl
]

skips : (a b z : Bool) → (not a && not b || z) ≡ not ((a || b) && not z)
skips a b z = ground arith

module _ (fuel : ℕ) (x : Scratch) (enough : 12 < fuel) (nul : x.locals.ext 3 ≡ 0) where
  list_entries-IsListing :
      (rde : ℕ → Bytes) (n i : ℕ) (console : List Print)
      → (out : List Print) × (list_entries
            (λ rde. not (is_directory rde) && not (is_file rde))
            (entry_path fuel x.locals x.locals.path)
            rde
            n
            i
            console
          ≡ some out)
        × IsListing (in_use is_shown rde n i) console out
  unfolding list_entries in_use
  list_entries-IsListing rde zero i console = (console, refl, refl)
  list_entries-IsListing rde (suc n) i console =
      let (b, e, text) = entry_path-IsText fuel x.locals x.locals.path (rde i) enough nul in
      elim (Bool-cases (is_shown (rde i) && not (rde i 0 == 0))) [
        | inl shown ↦
            let (out, runs, listing) =
              list_entries-IsListing rde n (suc i)
                (says_text "%s\n" b ∷ heading (rde i) ∷ console) in
            let whole : is_shown (rde i) ≡ true = ground arith in
            (
              out,
              rw
                  (
                    skips (is_directory (rde i)) (is_file (rde i)) (rde i 0 == 0),
                    shown,
                    e,
                    list_entry-heading (rde i) b console whole,
                  )
                  runs,
              rw shown (b, text, listing),
            )
        | inr passed ↦
            let (out, runs, listing) = list_entries-IsListing rde n (suc i) console in
            (
              out,
              rw (skips (is_directory (rde i)) (is_file (rde i)) (rde i 0 == 0), passed) runs,
              rw passed listing,
            )
      ]

  ls_root-IsListing :
      (steps : ℕ) (s : Shell)
      → (out : List Print) × (ls_root fuel steps x s ≡ some (record s { console = out }))
        × IsListing (in_use is_shown (root_rde s.fs) 512 0) s.console out
  unfolding ls_root
  ls_root-IsListing steps s =
      let (out, e, listing) = list_entries-IsListing (root_rde s.fs) 512 0 s.console in
      (out, rw e refl, listing)

  -- With fuel for the names and the NUL in the scratch array: `ls` with an empty path, in a working
  -- directory of one character, returns, changes nothing but the console, and has printed, for each
  -- entry of the root directory that is in use and is a file or a directory, in their order, what it
  -- is, with its size if it is a file, and then its name.
  pub ls-IsListing :
      (steps c : ℕ) (path : Bytes) (s : Shell)
      → IsText path []
      → IsText s.working_directory (c ∷ [])
      → (out : List Print) × (ls fuel steps x path s ≡ some (record s { console = out }))
        × IsListing (in_use is_shown (root_rde s.fs) 512 0) s.console out
  unfolding ls lex is_zero
  ls-IsListing steps c path s empty home =
      let (out, e, listing) = ls_root-IsListing steps s in
      let compared =
        strcmp-lex fuel [] [] root_directory s.working_directory refl home.2 (omega arith) in
      (out, rw (compared, strlen-length fuel [] path empty (omega arith)) e, listing)
