-- ===== src/Fat/Create/OthersExample.antt =====
-- A file that is made at a volume with two files.
use pios_private.Base.{ℕ, ◌<◌, ◌≡◌, ◌≢◌, refl, arith, true, false, some, map, ◌==◌, find_from-first}
use native.Mathlib.Decide.{ℕ_discrete}
use pios_private.Mem.{Bytes, zeros, literal, codes, get16, get32}
use pios_private.Mem.Copy.{splice}
use pios_private.Mem.Text.{IsText}
use pios_private.Clib.{toupper}
use pios_private.Clib.Compare.{lex}
use pios_private.Clib.Strings.{chars}
use pios_private.Fat.State.{
  Fs, File, root_rde, fat_entry, file_size, num_sectors_per_fat, num_reserved_sectors,
  num_hidden_sectors,
}
use pios_private.Fat.Sample.{locals, greeting, locals-IsClean}
use pios_private.Fat.Volume.Layout.{table_start}
use pios_private.Fat.Volume.Load.{loaded}
use pios_private.Fat.Names.Entry.{entry_name}
use pios_private.Fat.Open.{is_zero, fat_open}
use pios_private.Fat.Open.Find.{agrees}
use pios_private.Fat.Io.{fat_read}
use pios_private.Fat.Io.TwoFiles.{fs, fs-HasLayout, note-last, list-last, list-IsStored}
use pios_private.Fat.Create.{fat_create}
use pios_private.Fat.Create.Root.{is_blank, stops}
use pios_private.Fat.Create.File.{HasRoom}
use pios_private.Fat.Create.Others.{fat_create-others}

entry-zero : fat_entry (loaded fs) 0 ≡ 0xfff8
unfolding loaded splice get16 table_start num_reserved_sectors num_hidden_sectors get32
    num_sectors_per_fat
entry-zero = refl

entry-one : fat_entry (loaded fs) 1 ≡ 0xffff
unfolding loaded splice get16 table_start num_reserved_sectors num_hidden_sectors get32
    num_sectors_per_fat
entry-one = refl

entry-four : fat_entry (loaded fs) 4 ≡ 0
unfolding loaded splice get16 table_start num_reserved_sectors num_hidden_sectors get32
    num_sectors_per_fat
entry-four = refl

passes-zero : stops (map toupper (codes "ew")) (root_rde (loaded fs) 0) ≡ false
unfolding loaded splice agrees entry_name is_zero lex toupper chars
passes-zero = refl

passes-one : stops (map toupper (codes "ew")) (root_rde (loaded fs) 1) ≡ false
unfolding loaded splice agrees entry_name is_zero lex toupper chars
passes-one = refl

third_blank : is_blank (root_rde (loaded fs) 2) ≡ true
unfolding loaded splice
third_blank = refl

-- The tests for the entries of the table in front of the first free one.
taken : (k : ℕ) → k < 4 → (fat_entry (loaded fs) k == 0) ≡ false
taken k lt = elim (ℕ_discrete k 0) [
  | yes e ↦ rw (e, entry-zero) refl
  | no ne ↦ elim (ℕ_discrete k 1) [
    | yes e ↦ rw (e, entry-one) refl
    | no ne' ↦ elim (ℕ_discrete k 2) [
      | yes e ↦ rw (e, note-last) refl
      | no ne'' ↦ let e : k ≡ 3 = omega arith in rw (e, list-last) refl
    ]
  ]
]

fs-HasRoom : HasRoom fs (map toupper (codes "ew")) 2 4
unfolding num_sectors_per_fat get16
fs-HasRoom = record {
  first = record {
    lower = omega arith;
    upper = omega arith;
    holds = rw third_blank refl;
    before = λ k lo lt. elim (ℕ_discrete k 0) [
      | yes e ↦ rw e passes-zero
      | no ne ↦ let e : k ≡ 1 = omega arith in rw e passes-one
    ];
  };
  low = omega arith;
  blank = third_blank;
  unallocated =
      find_from-first 8192 0 (λ k. fat_entry (loaded fs) k == 0) 4
        (record {
          lower = omega arith;
          upper = omega arith;
          holds = rw entry-four refl;
          before = λ k lo lt. taken k lt;
        });
  on_volume = record { lower = omega arith; upper = omega arith };
  in_table = omega arith;
}

names_differ : map toupper (codes "ist") ≢ map toupper (codes "ew")
unfolding toupper
names_differ e = ground (arith, e)

fat_create-others_example :
    (u : Fs) × (g : File) × (v : Fs) × (r : Bytes) × (v' : Fs) × (fat_create 20 locals
        (literal "new")
        false
        fs
      ≡ some (0, u))
    × (fat_open 20 locals greeting (literal "list") u ≡ some (0, g, v))
    × (file_size g.rde ≡ 3)
    × (fat_read 9 locals zeros g 3 v ≡ some (r, v'))
    × IsText r (codes "ok")
fat_create-others_example =
    fat_create-others 20 locals (literal "new") false b'n' (codes "ew") fs 2 4 (omega arith)
      locals-IsClean (omega arith) (ground arith) (ground arith) (ground arith) fs-HasLayout
      fs-HasRoom 1 b'l' (codes "ist") (codes "ok") (literal "list") zeros locals greeting 9
      list-IsStored names_differ (λ e. absurd (omega (arith, e))) (ground arith) (ground arith)
      (omega arith) locals-IsClean
