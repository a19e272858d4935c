-- ===== src/Command/Examples.antt =====
-- The commands at the small volume of Fat/Sample, with a directory in its root.
use pios_private.Base.{◌≡◌, refl, arith, ◌==◌, if◌then◌else◌, some, [], map, find_from}
use pios_private.Mem.{Bytes, zeros, literal, codes}
use pios_private.Mem.Text.{IsText}
use pios_private.Clib.{toupper}
use pios_private.Fat.State.{root_rde}
use pios_private.Fat.Sample.{volume, image, locals, greeting, volume-HasLayout, locals-IsClean}
use pios_private.Fat.Volume.Load.{loaded}
use pios_private.Fat.Flush.{HasLayout-disk}
use pios_private.Fat.Open.Find.{stands}
use pios_private.Base.{List, ◌+◌, ◌*◌, find_from-first}
use pios_private.Mem.{from}
use pios_private.Fat.Volume.Closed.{cluster_at}
use pios_private.Fat.Io.TwoFiles
use pios_private.Fat.Create.Empty
use pios_private.Command.{Print, ls}
use pios_private.Command.Files.{mkdir}
use pios_private.Command.Listing.{in_use, is_shown, IsListing, ls-IsListing}
use pios_private.Command.Dots.{HasDots}
use pios_private.Command.Made.{mkdir-cd}
use pios_private.Command.{Shell, Scratch, cd}
use pios_private.Command.Directory.{cd_root_code, cd-root}

-- The first entry of the root directory is the directory DOCS, with cluster 2.
abbrev disk : Bytes
disk j =
    if j == 34816
    then b'D'
    else if j == 34817
    then b'O'
    else if j == 34818
    then b'C'
    else if j == 34819
    then b'S'
    else if j == 34827
    then 0x10
    else if j == 34842
    then 2
    else image j

abbrev shell : Shell
shell = record {
  fs = record volume { disk = disk };
  parse_arguments = zeros;
  working_directory = literal "/";
  console = [];
}

abbrev scratch : Scratch
scratch = record { locals = locals; temp_file = greeting; buffer = zeros }

cd-root_example :
    let found = find_from 512 0 (stands (map toupper (codes "ocs")) (root_rde (loaded shell.fs))) in
    let code = cd_root_code shell found in
    (s' : Shell) × (wd : Bytes) × (cd 20 9 scratch (literal "docs") shell ≡ some (code, s'))
    × IsText wd (codes "docs")
    × (s'.working_directory ≡ (if code == 0 then wd else shell.working_directory))
cd-root_example =
    cd-root 20 9 scratch (literal "docs") b'd' (codes "ocs") shell (ground arith) (ground arith)
      (omega arith) (omega arith) locals-IsClean (HasLayout-disk volume disk volume-HasLayout)

-- A shell at a volume with two files, whose tables have been loaded.
ls-IsListing_example :
    let sh = record shell { fs = loaded TwoFiles.fs } in
    (out : List Print) × (ls 20 9 scratch zeros sh ≡ some (record sh { console = out }))
    × IsListing (in_use is_shown (root_rde sh.fs) 512 0) [] out
ls-IsListing_example =
    ls-IsListing 20 scratch (omega arith) refl 9 b'/' zeros
      (record shell { fs = loaded TwoFiles.fs }) refl (ground arith)

free_row : find_from 63 0 (λ r. Empty.disk (cluster_at Empty.fs 2 + 32 * r) == 0) ≡ some 0
free_row =
    find_from-first 63 0 (λ r. Empty.disk (cluster_at Empty.fs 2 + 32 * r) == 0) 0
      (record {
        lower = omega arith;
        upper = omega arith;
        holds = refl;
        before = λ j lo lt. absurd (omega arith);
      })

mkdir-cd_example :
    let sh = record shell { fs = Empty.fs } in
    (s₁ : Shell) × (s₂ : Shell) × (wd : Bytes) × (mkdir 20 9 scratch (literal "docs") sh
      ≡ some (0, s₁))
    × HasDots (from s₁.fs.disk (cluster_at Empty.fs 2)) 0
    × (cd 20 9 scratch (literal "docs") s₁ ≡ some (0, s₂))
    × (s₂.working_directory ≡ wd)
    × IsText wd (codes "docs")
mkdir-cd_example =
    mkdir-cd 20 9 scratch (literal "docs") b'd' (codes "ocs") Empty.fs 0 2 0 (omega arith)
      locals-IsClean (omega arith) (ground arith) (ground arith) (ground arith) Empty.fs-HasLayout
      (Empty.fs-HasRoom (map toupper (codes "ocs"))) free_row scratch
      (record shell { fs = Empty.fs }) refl locals-IsClean
