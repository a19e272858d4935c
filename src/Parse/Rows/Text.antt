-- ===== src/Parse/Rows/Text.antt =====
-- The rows that `bufferToArgs` fills hold the fields of the line as strings.
use pios_private.Base.{
  ℕ, zero, suc, ◌+◌, ◌*◌, ◌≤◌, ◌<◌, ◌≡◌, refl, arith, some, List, [], ◌∷◌, length, get_or, ap, ◌∙◌,
  ◌⊎◌, inl, inr,
}
use native.Mathlib.Nat.{add-zero}
use pios_private.Mem.{Bytes, write, write_ne, write_self, from}
use pios_private.Mem.Text.{TextAt, IsText, TextAt-same}
use pios_private.Clib.Strings.{strlen-length}
use pios_private.Links.Linked.{Apart}
use pios_private.Parse.{Args, buffer_to_args}
use pios_private.Parse.Rows.{fields, put, put_rows, args_loop}

put-outside :
    (xs : List ℕ) (b : Bytes) (p q : ℕ) → (q < p) ⊎ (p + length xs ≤ q) → put b p xs q ≡ b q
unfolding put write
put-outside [] b p q out = refl
put-outside (x ∷ xs) b p q out = ground (arith, put-outside xs (write b p x) (suc p) q)

put-TextAt :
    (xs : List ℕ) (b : Bytes) (p : ℕ)
    → Apart 0 xs
    → b (p + length xs) ≡ 0
    → TextAt (put b p xs) p xs
unfolding put
put-TextAt [] b p h end = rw (← add-zero p) end
put-TextAt (x ∷ xs) b p h end =
    let e : p + suc (length xs) ≡ suc p + length xs = omega arith in
    let same = put-outside xs (write b p x) (suc p) p (inl (omega arith)) in
    (
      same ∙ write_self b p x,
      h.0,
      put-TextAt xs (write b p x) (suc p) h.1
          (write_ne b p x (suc p + length xs) (omega arith) ∙ rw (← e) end),
    )

-- The strings fit their rows, and hold no NUL.
abbrev pub AreShort : List (List ℕ) → Type 0
AreShort [] = Unit {0}
AreShort (xs ∷ xss) = (length xs < 100) × AreShort xss

abbrev AreApart : List (List ℕ) → Type 0
AreApart [] = Unit {0}
AreApart (xs ∷ xss) = Apart 0 xs × AreApart xss

put_rows-below :
    (xss : List (List ℕ)) (b : Bytes) (i q : ℕ) → q < 100 * i → put_rows b i xss q ≡ b q
unfolding put_rows
put_rows-below [] b i q lt = refl
put_rows-below (xs ∷ xss) b i q lt =
    put_rows-below xss (put b (100 * i) xs) (suc i) q (omega arith)
    ∙ put-outside xs b (100 * i) q (inl lt)

put_rows-above :
    (xss : List (List ℕ)) (b : Bytes) (i q : ℕ)
    → AreShort xss
    → 100 * (i + length xss) ≤ q
    → put_rows b i xss q ≡ b q
unfolding put_rows
put_rows-above [] b i q short le = refl
put_rows-above (xs ∷ xss) b i q short le =
    put_rows-above xss (put b (100 * i) xs) (suc i) q short.1 (omega arith)
    ∙ put-outside xs b (100 * i) q (inr (omega (arith, short.0)))

put_rows-TextAt :
    (xss : List (List ℕ)) (b : Bytes) (i j : ℕ)
    → AreShort xss
    → AreApart xss
    → ((q : ℕ) → 100 * i ≤ q → q < 100 * (i + length xss) → b q ≡ 0)
    → j < length xss
    → TextAt (put_rows b i xss) (100 * (i + j)) (get_or xss j [])
unfolding put_rows
put_rows-TextAt [] b i j short apart blank lt = absurd (omega arith)
put_rows-TextAt (xs ∷ xss) b i zero short apart blank lt =
    let b' = put b (100 * i) xs in
    let row =
      put-TextAt xs b (100 * i) apart.0
        (blank (100 * i + length xs) (omega arith) (omega (arith, short.0))) in
    rw add-zero (
      TextAt-same b' (put_rows b' (suc i) xss) xs (100 * i) (100 * i)
        (λ k lt. put_rows-below xss b' (suc i) (100 * i + k) (omega (arith, short.0))) row)
put_rows-TextAt (xs ∷ xss) b i (suc j) short apart blank lt =
    let e : i + suc j ≡ suc i + j = omega arith in
    let b' = put b (100 * i) xs in
    let blank' = λ (q : ℕ) (lo : 100 * suc i ≤ q) (hi : q < 100 * (suc i + length xss)).
      put-outside xs b (100 * i) q (inr (omega (arith, short.0)))
      ∙ blank q (omega arith) (omega arith) in
    rw e (put_rows-TextAt xss b' (suc i) j short.1 apart.1 blank' (omega arith))

-- The fields hold no NUL, since the line holds none.
fields-AreApart :
    (cs : List ℕ) (buffer : Bytes) (p q : ℕ)
    → TextAt buffer p cs
    → AreApart ((fields q cs).0 ∷ (fields q cs).1)
unfolding fields
fields-AreApart [] buffer p q h = ground arith
fields-AreApart (c ∷ cs) buffer p q h =
    let rest = λ (q : ℕ). fields-AreApart cs buffer (suc p) q h.2 in
    ground (arith, h.1, rest q, rest 0, rest 1)

fields-length :
    (cs : List ℕ) (q : ℕ)
    → (length (fields q cs).0 ≤ length cs) × (length cs < 100 → AreShort (fields q cs).1)
unfolding fields
fields-length [] q = (omega arith, λ lt. ground arith)
fields-length (c ∷ cs) q = (
  ground (arith, fields-length cs q, fields-length cs 0, fields-length cs 1),
  λ lt. ground (arith, fields-length cs q, fields-length cs 0, fields-length cs 1),
)

-- The fields of a line.
abbrev pub line_fields : List ℕ → List (List ℕ)
line_fields cs = (fields 0 cs).0 ∷ (fields 0 cs).1

-- With fuel for the line, and with the arguments cleared, a line of at most 50 fields, each of at
-- most 99 characters, is split: row `j` of the arguments then is field `j` as a string, the rows
-- behind the last field are still clear, and nothing outside the array has changed.
pub buffer_to_args-line_fields :
    (fuel : ℕ) (cs : List ℕ) (args buffer : Bytes)
    → IsText buffer cs
    → length cs < fuel
    → ((q : ℕ) → q < 5000 → args q ≡ 0)
    → length (line_fields cs) ≤ 50
    → AreShort (line_fields cs)
    → (r : Bytes) × (buffer_to_args fuel args buffer ≡ some r)
      × ((j : ℕ)
          → j < length (line_fields cs)
          → IsText (from r (100 * j)) (get_or (line_fields cs) j []))
      × ((q : ℕ) → 100 * length (line_fields cs) ≤ q → r q ≡ args q)
unfolding buffer_to_args
buffer_to_args-line_fields fuel cs args buffer h enough blank few short =
    let start : Args = record { parse_arguments = args; count = 0; index = 0; quotes = 0 } in
    let r = put_rows args 0 (line_fields cs) in
    let run = args_loop cs buffer 0 start h in
    let row = λ (j : ℕ) (lt : j < length (line_fields cs)).
      put_rows-TextAt (line_fields cs) args 0 j short (fields-AreApart cs buffer 0 0 h)
        (λ q lo hi. blank q (omega arith)) lt in
    (
      r,
      rw (strlen-length fuel cs buffer h enough) (ap some (unfold put_rows in run)),
      λ j lt.
          TextAt-same r (from r (100 * j)) (get_or (line_fields cs) j []) (100 * (0 + j)) 0
            (λ i k. ap r (omega arith)) (row j lt),
      λ q le. put_rows-above (line_fields cs) args 0 q short (omega arith),
    )

-- No field of a line is longer than the line.
pub line_fields-AreShort : (cs : List ℕ) → length cs < 100 → AreShort (line_fields cs)
line_fields-AreShort cs lt = let (first, others) = fields-length cs 0 in (omega arith, others lt)

field_short : (fields : List (List ℕ)) (j : ℕ) → AreShort fields → length (get_or fields j []) < 100
field_short [] j h = omega arith
field_short (xs ∷ xss) zero h = h.0
field_short (xs ∷ xss) (suc j) h = field_short xss j h.1

pub field-length :
    (cs : List ℕ) (j : ℕ) → length cs < 100 → length (get_or (line_fields cs) j []) < 100
field-length cs j lt = field_short (line_fields cs) j (line_fields-AreShort cs lt)
