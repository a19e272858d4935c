-- ===== src/Command/Dispatch.antt =====
-- Which command a word runs.
use Prim.Native.String.{String}
use pios_private.Base.{
  ℕ, zero, suc, ◌+◌, ◌≤◌, ◌<◌, ◌≡◌, refl, arith, some, List, [], ◌∷◌, length, if◌then◌else◌, ◌≢◌,
  Bool-cases, inl, inr, get_or, ap, ◌∙◌,
}
use pios_private.Mem.{Bytes, codes, literal}
use pios_private.Mem.Text.{TextAt, IsText}
use pios_private.Clib.Compare.{lex, lex-zero, strcmp-lex}
use pios_private.Fat.Names.Entry.{rest}
use pios_private.Fat.Open.{is_zero}
use pios_private.Command.{command_names}
use pios_private.Command.Execute.{find_command}

-- The literals hold their characters.
abbrev NoNul : List ℕ → Type 0
NoNul [] = Unit {0}
NoNul (x ∷ xs) = (x ≢ 0) × NoNul xs

-- Index `i` plus the place of the first name that ends as `xs` does behind its first character.
unfoldable pub first_agreeing : List ℕ → List String → ℕ → ℕ
first_agreeing xs [] i = i
first_agreeing xs (name ∷ names) i =
    if is_zero (lex xs (rest (codes name))) then i else first_agreeing xs names (suc i)

abbrev AreTails : List String → Type 0
AreTails [] = Unit {0}
AreTails (name ∷ names) = TextAt (literal name) 1 (rest (codes name)) × AreTails names

find_command-first_agreeing :
    (fuel c : ℕ) (xs : List ℕ) (word : Bytes) (names : List String) (i : ℕ)
    → IsText word (c ∷ xs)
    → length xs < fuel
    → AreTails names
    → find_command fuel word names i ≡ some (first_agreeing xs names i)
unfolding find_command first_agreeing
find_command-first_agreeing fuel c xs word [] i h long tails = refl
find_command-first_agreeing fuel c xs word (name ∷ names) i h long tails =
    rw (strcmp-lex fuel xs (rest (codes name)) word (literal name) h.2 tails.0 long)
      (elim (Bool-cases (is_zero (lex xs (rest (codes name))))) [
        | inl hit ↦ rw hit
        | inr miss ↦
            rw miss (find_command-first_agreeing fuel c xs word names (suc i) h long tails.1)
      ])

command_names-AreTails : AreTails command_names
command_names-AreTails = ground arith

-- No name is hidden behind one in front of it.
at_place :
    (i : ℕ) → i < 8 → first_agreeing (rest (codes (get_or command_names i ""))) command_names 0 ≡ i
unfolding first_agreeing lex is_zero
at_place zero lt = refl
at_place (suc zero) lt = refl
at_place (suc (suc zero)) lt = refl
at_place (suc (suc (suc zero))) lt = refl
at_place (suc (suc (suc (suc zero)))) lt = refl
at_place (suc (suc (suc (suc (suc zero))))) lt = refl
at_place (suc (suc (suc (suc (suc (suc zero)))))) lt = refl
at_place (suc (suc (suc (suc (suc (suc (suc zero))))))) lt = refl
at_place (suc (suc (suc (suc (suc (suc (suc (suc i)))))))) lt = absurd (omega arith)

pub names-length : (i : ℕ) → i < 8 → length (rest (codes (get_or command_names i ""))) < 6
names-length zero lt = omega arith
names-length (suc zero) lt = omega arith
names-length (suc (suc zero)) lt = omega arith
names-length (suc (suc (suc zero))) lt = omega arith
names-length (suc (suc (suc (suc zero)))) lt = omega arith
names-length (suc (suc (suc (suc (suc zero))))) lt = omega arith
names-length (suc (suc (suc (suc (suc (suc zero)))))) lt = omega arith
names-length (suc (suc (suc (suc (suc (suc (suc zero))))))) lt = omega arith
names-length (suc (suc (suc (suc (suc (suc (suc (suc i)))))))) lt = absurd (omega arith)

-- With fuel for the names, a word runs the command whose name it is, and just so a word that differs
-- from the name in the first character.
pub find_command-get_or :
    (fuel i c : ℕ) (word : Bytes)
    → i < 8
    → 6 < fuel
    → IsText word (c ∷ rest (codes (get_or command_names i "")))
    → find_command fuel word command_names 0 ≡ some i
find_command-get_or fuel i c word lt enough h =
    let xs = rest (codes (get_or command_names i "")) in
    find_command-first_agreeing fuel c xs word command_names 0 h (omega (arith, names-length i lt))
      command_names-AreTails
    ∙ ap some (at_place i lt)

first_agreeing-behind :
    (n : ℕ) (xs : List ℕ) (names : List String) (i : ℕ)
    → n ≤ length names
    → ((j : ℕ) → j < n → xs ≢ rest (codes (get_or names j "")))
    → i + n ≤ first_agreeing xs names i
unfolding first_agreeing is_zero
first_agreeing-behind n xs [] i le none_agrees = omega arith
first_agreeing-behind zero xs (name ∷ names) i le none_agrees =
    let later =
      first_agreeing-behind zero xs names (suc i) (omega arith) (λ j lt. absurd (omega arith)) in
    ground (arith, later)
first_agreeing-behind (suc n) xs (name ∷ names) i le none_agrees =
    let later =
      first_agreeing-behind n xs names (suc i) (omega arith)
        (λ j lt. none_agrees (suc j) (omega arith)) in
    ground (arith, none_agrees 0 (omega arith), lex-zero xs (rest (codes name)), later)

-- A word that agrees with none of the eight names from the second character on.
pub find_command-none :
    (fuel c : ℕ) (cs : List ℕ) (word : Bytes)
    → ((i : ℕ) → i < 8 → cs ≢ rest (codes (get_or command_names i "")))
    → length cs < fuel
    → IsText word (c ∷ cs)
    → (i : ℕ) × (8 ≤ i) × (find_command fuel word command_names 0 ≡ some i)
find_command-none fuel c cs word none_agrees enough h = (
  first_agreeing cs command_names 0,
  first_agreeing-behind 8 cs command_names 0 (omega arith) none_agrees,
  find_command-first_agreeing fuel c cs word command_names 0 h enough command_names-AreTails,
)
