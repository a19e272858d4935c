-- ===== src/Lib.antt =====
-- Verification of a small operating system for the Raspberry Pi 3: a shell on the serial line over
-- a FAT16 file system on an SD card.
--
-- The program. `kernel_main` (src/kernel_main.c) mounts the volume with `initFat`, then reads
-- lines, splits them (src/parse.c) and runs commands (src/command.c), which call the file system
-- (src/fat.c). The file system keeps an image of the whole volume in memory, reads directory
-- entries as structures laid over its bytes, and keeps copies of the file allocation table and of
-- the root directory that `initFatStructs` cuts into rows; `fatOpen`, `fatCreate` and `fatWrite`
-- load the tables from the image, change them and write them back to it. It stands on the routines
-- of src/clibfuncs.c and src/string.c.
--
-- The files and what they model.
--   Base, Mem: shared names, Boolean tests, lists and loops; memory, fields of structures, copies
--     of bytes in closed form and NUL-terminated strings.
--   Clib: src/clibfuncs.c, and `strlen`, `tolower` and `isdig` of src/rprintf.c. Clib/Strings and
--     Clib/Compare are about copying and comparing strings, Clib/Letters about characters.
--   Str: src/string.c; Str/Copies has the closed forms of its copies.
--   Fat/State: the structures of src/fat.h and the variables of src/fat.c.
--   Fat/Rows: the nested loops that cut an array into rows, pack the rows and flatten them.
--   Fat/Volume: `initFat`, `initFatStructs`, `readFromCluster`, `writeToCluster`,
--     `writeFatTable`, `writeRootDirectory`, `writeDataEntries`, `unallocatedFatTableIndex`;
--     Fat/Volume/Layout says when the regions of a volume do not overlap, Fat/Volume/Mount which
--     boot sectors are those of such a volume, Fat/Volume/Card what is read of the card, and
--     Fat/Volume/Keeps what no operation changes; Fat/Flush, Fat/Cluster and Fat/Table are about
--     what is stored and read again.
--   Fat/Names: `pathToFileName`, `extension`, `isSeparator`, `hasSeparator`,
--     `rootDirectoryToFilename`, `nullCharArray`, `spaceCharArray`.
--   Fat/Open: `fatOpen`; Fat/Open/Find is about the search of a directory, Fat/Open/Root and Fat/Open/Path are about paths of one part and of
--     several. Fat/Create: `fatCreate`; Fat/Create/Root,
--     Fat/Create/RoundTrip, Fat/Create/File and Fat/Create/Others are about the root directory.
--   Fat/Io: `writeFileLength`, `fatRead`, `fatWrite`. Fat/Io/Length, Fat/Io/Size and Fat/Io/Root are
--     about `writeFileLength`, Fat/Io/Chain and Fat/Io/Read about chains of clusters, Fat/Io/Settled
--     and Fat/Io/RoundTrip about a write and a read by the same structure, and the other files
--     about files of the root directory that are opened by name: Fat/Io/Stored and Fat/Io/RootFile
--     say what such a file is, Fat/Io/Written and Fat/Io/After what a write leaves behind.
--   Links, Links/Linked: elements with two links on a heap, and lists of them. ListElement:
--     src/list.c. Page: src/page.c, whose pages have the addresses 1 to 128 in the model.
--   Parse: src/parse.c, with what `bufferToArgs` makes of a line in Parse/Rows; what `getc` of
--     the serial line returns is a list of characters.
--   Command: src/command.c, with `touch`, `cat` and `mkdir` in Command/Files, and `help`,
--     `echo` and `executeCommand` in Command/Execute.
--     Command/Keeps says what no command changes, Command/Dispatch which
--     command a word runs, Command/Directory what `cd` does, Command/EchoCat what `echo` with a
--     redirection and `cat` do, Command/Listing what `ls` prints of the root directory, and
--     Command/Made what `mkdir` does, with the entries of the new directory in Command/Dots.
--   Kernel: `initEnvironment` of src/environment.c, and src/kernel_main.c: what is done before the
--     main loop, a round of it, and `clear_bss`. Kernel/Start is about the former, Kernel/Steps is
--     the loop as a step relation, Kernel/Run a round from the line to its command,
--     Kernel/Entered a whole round with `cd`, Kernel/EchoCat a round with `echo` and one with
--     `cat`, and Kernel/NewFile these behind a round with `touch`.
--   Delay: src/delay.c.
--   Examples in these directories: runs, and the theorems at concrete inputs, such as the volumes of
--     Fat/Sample, Fat/Io/TwoFiles and Fat/Create/Empty.
-- A definition has the name of its C function in lower case with underscores. A loop is a
-- definition of its own, with the suffix `_loop`, `_round` or `_walk` or the name of what it does.
--
-- Memory. An array is a function from offsets to bytes, and an assignment changes it at one
-- offset; `char` is unsigned, as on ARM. The rows of an array of arrays lie one behind the other.
-- Each array is a memory of its own without an end: that an access beyond the end of an array hits
-- another object is not modelled. The structures are read in place from their bytes, little
-- endian. `Fs` holds the variables of src/fat.c, and `Locals` what the uninitialised local arrays
-- of its functions hold when a function begins, the same for each call within one operation. The
-- hypotheses IsClean and IsCleanIo say which of these bytes must be NUL. The array `path` of the loops
-- over the root directory keeps, from one entry to the next, what the entry before has left in it, as
-- it has one place on the stack; the loops over other directories clear it.
--
-- The console. What a command prints is the list of its calls of `esp_printf`, each with its format
-- and arguments; the formatter of src/rprintf.c is another author's. `Scratch` holds what the
-- uninitialised local variables of a command hold. The main loop takes what the serial line will
-- bring as a list; a round that still waits for the end of a line is `none`.
--
-- Numbers. `unsigned int` offsets wrap at 2 ^ 32; 16-bit fields are cut to 16 bits.
--
-- Fuel. Scans for a terminator take as fuel the number of bytes that they may look at, and return
-- `none` if there is no terminator among them; the theorems ask for more fuel than the string has
-- characters. A directory entry's name has at most 12. The loops along a chain of clusters take the
-- number of clusters that they may visit. `none` also stands for the use of an index that the
-- source leaves unset and the use of a link of NULL. The walk to the end of a list of pages takes
-- the number of pages that it may visit, and the delay loop the number of readings of the clock. A
-- command has the two of them as `fuel` and `steps`. All other loops have the source's bounds.
--
-- Parameters. The driver of the SD card, src/sd.c, is another project's; `initFat` takes its
-- `sd_readblock` as the argument SdCard, of which IsCard says what its comment promises. The clock that `delay` reads is a function from the number
-- of the reading.
--
-- Not modelled: the formatter of src/rprintf.c, the card's driver src/sd.c, and the hardware:
-- serial line (src/serial.c), timers (src/delays.c), GPIO, start-up code. These are volatile reads and
-- writes of the peripherals' registers, or assembly.
pub mod Base
pub mod Mem
pub mod Clib
pub mod Str
pub mod Links
pub mod ListElement
pub mod Page
pub mod Parse
pub mod Command
pub mod Kernel
pub mod Delay
pub mod Fat
