-- ===== src/Kernel/Start.antt =====
-- From the card to the main loop.
use pios_private.Base.{ℕ, ◌<◌, ◌≤◌, ◌≡◌, refl, arith, some}
use pios_private.Mem.{Bytes, codes}
use pios_private.Mem.Copy.{splice}
use pios_private.Mem.Text.{IsText}
use pios_private.Clib.Strings.{strlen-length}
use pios_private.Str.Copies.{char_arr_cpy-splice}
use pios_private.Fat.State.{total_sectors}
use pios_private.Fat.Volume.{SdCard}
use pios_private.Fat.Volume.Mount.{IsVolume}
use pios_private.Fat.Volume.Card.{IsCard, IsMounted, init_fat-IsMounted}
use pios_private.Parse.Clear.{init_parse_arguments-zero}
use pios_private.Command.{root_directory}
use pios_private.Kernel.{Kernel, init_environment, start}

-- One character is copied; its terminator is what the array held.
init_environment-IsText :
    (fuel : ℕ) (wd : Bytes)
    → 1 < fuel
    → wd 1 ≡ 0
    → (wd' : Bytes) × (init_environment fuel wd ≡ some wd') × IsText wd' (codes "/")
unfolding init_environment splice
init_environment-IsText fuel wd enough clear =
    let len = strlen-length fuel (codes "/") root_directory (ground arith) enough in
    rw (len, char_arr_cpy-splice wd root_directory 1)
      (splice wd 0 1 root_directory, refl, ground arith)

-- With fuel for the name of the root directory, with a card whose blocks can be read and hold a
-- volume with all of its sectors, and with a working directory whose second byte is NUL, as after
-- `clear_bss`, `kernel_main` gets to its loop. The volume is then mounted: it has a layout, the boot
-- sector, the image of the disk, `rootEntries`, the root directory and the first file allocation
-- table hold the bytes that stand in their places on the card, and the root directory has cluster
-- 0. The root directory is the working directory, and all arguments are clear.
pub start-IsMounted :
    (fuel : ℕ) (sd : SdCard) (n : ℕ) (blocks : Bytes) (k : Kernel)
    → 1 < fuel
    → IsCard sd n blocks
    → IsVolume blocks
    → total_sectors blocks ≤ n
    → k.shell.working_directory 1 ≡ 0
    → (k' : Kernel) × (start fuel sd k ≡ some k')
      × IsMounted blocks k'.shell.fs
      × IsText k'.shell.working_directory (codes "/")
      × ((j : ℕ) → j < 5000 → k'.shell.parse_arguments j ≡ 0)
unfolding start
start-IsMounted fuel sd n blocks k enough card v large clear =
    let (wd, e, t) = init_environment-IsText fuel k.shell.working_directory enough clear in
    rw e (
      _,
      refl,
      (init_fat-IsMounted sd n blocks k.shell.fs card v large).1,
      t,
      λ j lt. init_parse_arguments-zero k.shell.parse_arguments j lt,
    )
