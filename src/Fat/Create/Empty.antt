-- ===== src/Fat/Create/Empty.antt =====
-- A small volume with nothing in it, for the examples.
use pios_private.Base.{ℕ, List, ◌≡◌, true, refl, arith, ◌==◌, if◌then◌else◌, find_from-first}
use native.Mathlib.Decide.{ℕ_discrete}
use pios_private.Mem.{Bytes, get16, get32}
use pios_private.Mem.Copy.{splice}
use pios_private.Fat.State.{
  Fs, root_rde, fat_entry, num_sectors_per_fat, num_reserved_sectors, num_hidden_sectors,
}
use pios_private.Fat.Sample.{volume, volume-HasLayout}
use pios_private.Fat.Volume.Load.{loaded}
use pios_private.Fat.Volume.Layout.{HasLayout, table_start}
use pios_private.Fat.Flush.{HasLayout-disk}
use pios_private.Fat.Create.Root.{is_blank}
use pios_private.Fat.Create.File.{HasRoom}

-- The first two entries of the table are reserved, and everything else is free.
abbrev pub disk : Bytes
disk j =
    if j == 2048
    then 0xf8
    else if j == 2049
    then 0xff
    else if j == 2050
    then 0xff
    else if j == 2051
    then 0xff
    else 0

abbrev pub fs : Fs
fs = record volume { disk = disk }

pub fs-HasLayout : HasLayout fs
fs-HasLayout = HasLayout-disk volume disk volume-HasLayout

entry-zero : fat_entry (loaded fs) 0 ≡ 0xfff8
unfolding loaded splice get16 table_start num_reserved_sectors num_hidden_sectors get32
    num_sectors_per_fat
entry-zero = refl

entry-one : fat_entry (loaded fs) 1 ≡ 0xffff
unfolding loaded splice get16 table_start num_reserved_sectors num_hidden_sectors get32
    num_sectors_per_fat
entry-one = refl

entry-two : fat_entry (loaded fs) 2 ≡ 0
unfolding loaded splice get16 table_start num_reserved_sectors num_hidden_sectors get32
    num_sectors_per_fat
entry-two = refl

first_blank : is_blank (root_rde (loaded fs) 0) ≡ true
unfolding loaded splice
first_blank = refl

pub fs-HasRoom : (ys : List ℕ) → HasRoom fs ys 0 2
unfolding num_sectors_per_fat get16
fs-HasRoom ys = record {
  first = record {
    lower = omega arith;
    upper = omega arith;
    holds = rw first_blank refl;
    before = λ k lo lt. absurd (omega arith);
  };
  low = omega arith;
  blank = first_blank;
  unallocated =
      find_from-first 8192 0 (λ k. fat_entry (loaded fs) k == 0) 2
        (record {
          lower = omega arith;
          upper = omega arith;
          holds = rw entry-two refl;
          before = λ k lo lt. elim (ℕ_discrete k 0) [
            | yes e ↦ rw (e, entry-zero) refl
            | no ne ↦ let e : k ≡ 1 = omega arith in rw (e, entry-one) refl
          ];
        });
  on_volume = record { lower = omega arith; upper = omega arith };
  in_table = omega arith;
}
