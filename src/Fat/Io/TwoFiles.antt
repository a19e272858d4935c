-- ===== src/Fat/Io/TwoFiles.antt =====
-- A small volume with two files in the root directory, for the examples.
use pios_private.Base.{◌≡◌, true, false, refl, arith, ◌==◌, if◌then◌else◌, map}
use pios_private.Mem.{Bytes, codes, get16, get32}
use pios_private.Clib.{toupper}
use pios_private.Clib.Compare.{lex}
use pios_private.Clib.Strings.{chars}
use pios_private.Mem.Copy.{splice}
use pios_private.Fat.Open.{is_zero}
use pios_private.Fat.Names.Entry.{entry_name}
use pios_private.Fat.State.{
  Fs, file_size, root_rde, cluster, attribute, fat_entry, num_sectors_per_fat, num_reserved_sectors,
  num_hidden_sectors,
}
use pios_private.Fat.Sample.{volume, image, volume-HasLayout}
use pios_private.Fat.Volume.Load.{loaded}
use pios_private.Fat.Volume.Layout.{HasLayout, table_start}
use pios_private.Fat.Flush.{HasLayout-disk}
use pios_private.Fat.Open.Find.{agrees}
use pios_private.Fat.Io.RootFile.{IsRootFile}
use pios_private.Fat.Io.Stored.{IsStored}

-- The root directory has the files NOTE, with cluster 2, and LIST, with cluster 3, which holds "ok".
abbrev pub disk : Bytes
disk j =
    if j == 34816
    then b'N'
    else if j == 34817
    then b'O'
    else if j == 34818
    then b'T'
    else if j == 34819
    then b'E'
    else if j == 34827
    then 0x20
    else if j == 34842
    then 2
    else if j == 34848
    then b'L'
    else if j == 34849
    then b'I'
    else if j == 34850
    then b'S'
    else if j == 34851
    then b'T'
    else if j == 34859
    then 0x20
    else if j == 34874
    then 3
    else if j == 34876
    then 3
    else if j == 2048
    then 0xf8
    else if j == 2049
    then 0xff
    else if j == 2050
    then 0xff
    else if j == 2051
    then 0xff
    else if j == 2054
    then 0xf8
    else if j == 2055
    then 0xff
    else if j == 53248
    then b'o'
    else if j == 53249
    then b'k'
    else image j

abbrev pub fs : Fs
fs = record volume { disk = disk }

pub fs-HasLayout : HasLayout fs
fs-HasLayout = HasLayout-disk volume disk volume-HasLayout

note-agrees : agrees (map toupper (codes "ote")) (root_rde (loaded fs) 0) ≡ true
unfolding loaded splice agrees entry_name is_zero lex toupper chars
note-agrees = refl

note-has_name : entry_name (root_rde (loaded fs) 0) ≡ codes "NOTE"
unfolding loaded splice entry_name chars
note-has_name = refl

pub note-cluster : cluster (root_rde (loaded fs) 0) ≡ 2
unfolding loaded splice cluster get16
note-cluster = refl

note-used : root_rde (loaded fs) 0 0 ≡ b'N'
unfolding loaded splice
note-used = refl

note-kind : attribute (root_rde (loaded fs) 0) ≡ 0x20
unfolding loaded splice
note-kind = refl

pub note-last : fat_entry (loaded fs) 2 ≡ 0xfff8
unfolding loaded splice get16 table_start num_reserved_sectors num_hidden_sectors get32
    num_sectors_per_fat
note-last = refl

pub note-IsRootFile : IsRootFile fs (map toupper (codes "ote")) 0
unfolding num_sectors_per_fat get16
note-IsRootFile = record {
  layout = fs-HasLayout;
  first = record {
    lower = omega arith;
    upper = omega arith;
    holds = note-agrees;
    before = λ k lo lt. absurd (omega arith);
  };
  has_name = λ e. absurd (ground (arith, e, note-has_name));
  low = omega arith;
  used = λ e. absurd (omega (arith, e, note-used));
  kind = note-kind;
  on_volume = rw note-cluster (record { lower = omega arith; upper = omega arith });
  in_table = rw note-cluster (omega arith);
  last = rw (note-cluster, note-last) (omega arith);
}

list-agrees : agrees (map toupper (codes "ist")) (root_rde (loaded fs) 1) ≡ true
unfolding loaded splice agrees entry_name is_zero lex toupper chars
list-agrees = refl

list-first : agrees (map toupper (codes "ist")) (root_rde (loaded fs) 0) ≡ false
unfolding loaded splice agrees entry_name is_zero lex toupper chars
list-first = refl

list-has_name : entry_name (root_rde (loaded fs) 1) ≡ codes "LIST"
unfolding loaded splice entry_name chars
list-has_name = refl

pub list-cluster : cluster (root_rde (loaded fs) 1) ≡ 3
unfolding loaded splice cluster get16
list-cluster = refl

list-kind : attribute (root_rde (loaded fs) 1) ≡ 0x20
unfolding loaded splice
list-kind = refl

list-size : file_size (root_rde (loaded fs) 1) ≡ 3
unfolding loaded splice file_size get32
list-size = refl

pub list-last : fat_entry (loaded fs) 3 ≡ 0xfff8
unfolding loaded splice get16 table_start num_reserved_sectors num_hidden_sectors get32
    num_sectors_per_fat
list-last = refl

pub list-IsStored : IsStored fs (map toupper (codes "ist")) 1 (codes "ok")
unfolding num_sectors_per_fat get16
list-IsStored = record {
  layout = fs-HasLayout;
  first = record {
    lower = omega arith;
    upper = omega arith;
    holds = list-agrees;
    before = λ k lo lt. let e : k ≡ 0 = omega arith in rw e list-first;
  };
  has_name = λ e. absurd (ground (arith, e, list-has_name));
  kind = list-kind;
  size = list-size;
  fits = omega arith;
  on_volume = rw list-cluster (record { lower = omega arith; upper = omega arith });
  in_table = rw list-cluster (omega arith);
  last = rw (list-cluster, list-last) (omega arith);
  text = rw list-cluster (ground arith);
}
