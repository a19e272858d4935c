-- ===== src/Fat/Io/Examples.antt =====
-- Writing and reading at a volume with two files.
use pios_private.Base.{◌*◌, ◌≡◌, refl, arith, some, none, find_from}
use pios_private.Mem.{Bytes, from, zeros, literal, codes, get16}
use pios_private.Mem.Text.{IsText}
use pios_private.Fat.State.{Fs, File, cluster, file_size}
use pios_private.Fat.Sample.{locals, greeting, locals-IsClean, locals-IsCleanIo}
use pios_private.Base.{ℕ, ◌≤◌, ◌==◌, if◌then◌else◌, [], ◌∷◌}
use pios_private.Mem.{get32}
use pios_private.Mem.Copy.{splice}
use pios_private.Fat.State.{
  root_rde, fat_entry, num_sectors_per_fat, num_reserved_sectors, num_hidden_sectors,
}
use pios_private.Fat.Sample.{volume, volume-HasLayout}
use pios_private.Fat.Flush.{HasLayout-disk}
use pios_private.Fat.Volume.Layout.{table_start, IsCluster}
use pios_private.Fat.Volume.Load.{loaded}
use pios_private.Fat.Io.Read.{chain_bytes, fat_read-chain_bytes}
use pios_private.Fat.Open.{fat_open, is_zero}
use pios_private.Fat.Open.Find.{stands, left_at}
use pios_private.Fat.Names.Entry.{entry_name, left_by}
use pios_private.Clib.Compare.{lex}
use pios_private.Clib.Strings.{chars}
use pios_private.Fat.Io.{set_length, fat_read, fat_write}
use pios_private.Fat.Io.Size.{named, sized, set_length-sized}
use pios_private.Fat.Io.ByName.{fat_write-others}
use pios_private.Fat.Io.TwoFiles.{
  disk, fs, note-cluster, note-IsRootFile, list-cluster, list-IsStored,
}

-- The free entry behind LIST is not taken for a name of one character: `path` still holds "IST".
free_passed : find_from 3 0 (stands [] (root_rde (loaded fs))) ≡ none
unfolding find_from loaded splice stands left_at left_by entry_name is_zero lex chars
free_passed = refl

set_length-sized_example :
    set_length 20 locals (literal "XIST") 9 64 0 (from disk 34816)
    ≡ some (
        sized 9
          (from disk 34816)
          (find_from 64 0 (λ k. named (codes "IST") (from (from disk 34816) (32 * k)))))
set_length-sized_example =
    set_length-sized 20 locals (omega arith) locals-IsCleanIo refl (literal "XIST") (codes "IST") 9
      64 0 (from disk 34816) (ground arith)

fat_write-others_example :
    (f : File) × (t : Fs) × (f' : File) × (u : Fs) × (g : File) × (v : Fs) × (r : Bytes) × (v' : Fs)
    × (fat_open 20 locals greeting (literal "note") fs ≡ some (0, f, t))
    × (fat_write 20 10 locals f (literal "hello") t ≡ some (0, f', u))
    × (fat_open 20 locals greeting (literal "list") u ≡ some (0, g, v))
    × (file_size g.rde ≡ 3)
    × (fat_read 9 locals zeros g 3 v ≡ some (r, v'))
    × IsText r (codes "ok")
unfolding cluster get16
fat_write-others_example =
    fat_write-others 20 9 locals greeting (literal "note") (literal "hello") b'n' (codes "ote")
      (codes "hello") (omega arith) (omega arith) locals-IsClean locals-IsCleanIo (omega arith)
      (ground arith) (ground arith) (ground arith) (omega arith) fs 0 1 b'l' (codes "ist")
      (codes "ok") (literal "list") zeros locals note-IsRootFile refl list-IsStored (omega arith)
      (λ e. absurd (omega (arith, e))) (λ e. absurd (omega (arith, e, note-cluster, list-cluster)))
      (ground arith) (ground arith) (omega arith) locals-IsClean

-- Clusters 2 and 3 of the volume are a chain.
abbrev linked : Fs
linked = record fs { disk = λ j. if j == 2052 then 3 else if j == 2053 then 0 else disk j }

linked-first : fat_entry (loaded linked) 2 ≡ 3
unfolding loaded splice get16 table_start num_reserved_sectors num_hidden_sectors get32
    num_sectors_per_fat
linked-first = refl

linked-last : fat_entry (loaded linked) 3 ≡ 0xfff8
unfolding loaded splice get16 table_start num_reserved_sectors num_hidden_sectors get32
    num_sectors_per_fat
linked-last = refl

linked-IsCluster : (n : ℕ) → 2 ≤ n → n ≤ 3 → IsCluster (loaded linked) n
unfolding loaded
linked-IsCluster n lo hi = record { lower = lo; upper = omega arith }

fat_read-chain_bytes_example :
    fat_read 9 locals zeros greeting 3000 linked
    ≡ some (splice zeros 0 3000 (chain_bytes (loaded linked) 2 (3 ∷ [])), loaded linked)
fat_read-chain_bytes_example =
    fat_read-chain_bytes 9 locals linked greeting (3 ∷ []) 3000 zeros
      (HasLayout-disk volume linked.disk volume-HasLayout)
      (
        linked-IsCluster 2 (omega arith) (omega arith),
        linked-first,
        omega arith,
        (linked-IsCluster 3 (omega arith) (omega arith), rw linked-last (omega arith)),
      )
      (omega arith) (omega arith)
