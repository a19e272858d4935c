-- ===== src/Fat/Volume/Card.antt =====
-- What `initFat` and `initFatStructs` of src/fat.c have read from the card.
use pios_private.Base.{ℕ, ◌+◌, ◌*◌, ◌≤◌, ◌<◌, ◌≡◌, refl, arith, ap, ◌∙◌, eq→==}
use pios_private.Mem.{Bytes, from, get16, get32, put16, write}
use pios_private.Mem.Copy.{splice, splice_head}
use pios_private.Fat.State.{
  u32, Fs, num_reserved_sectors, num_fat_tables, num_root_dir_entries, total_sectors,
  num_sectors_per_fat, num_hidden_sectors, fs_type, boot_signature, cluster, fat_entry, root_rde,
}
use pios_private.Fat.Volume.{SdCard, is_fat16, init_fat, init_fat_structs}
use pios_private.Fat.Volume.Layout.{table_start, HasLayout}
use pios_private.Fat.Volume.Load.{loaded, init_fat_structs-loaded}
use pios_private.Fat.Volume.Mount.{IsVolume, product}
use pios_private.Fat.Volume.Keeps.{HasLayout-Keeps}

-- A card of `n` blocks that can be read, with these bytes: as its comment says, `sd_readblock` returns
-- the number of bytes, which stand in the buffer then.
pub record IsCard (sd : SdCard) (n : ℕ) (blocks : Bytes) : Type 0 where
  pub reads :
      (lba : ℕ) (buffer : Bytes) (num : ℕ)
      → 0 < num
      → lba + num ≤ n
      → sd.readblock lba buffer num
        ≡ (512 * num, splice buffer 0 (512 * num) (from blocks (512 * lba)))

-- The first sector of the root directory.
unfoldable pub root_of : Bytes → ℕ
root_of blocks =
    num_fat_tables blocks * num_sectors_per_fat blocks
    + num_reserved_sectors blocks
    + num_hidden_sectors blocks

-- The volume of that card is mounted: the boot sector, the image of the disk and the tables hold the
-- bytes of the card, and the root directory has cluster 0.
pub record IsMounted (blocks : Bytes) (s : Fs) : Type 0 where
  pub layout : HasLayout s
  pub boot : (j : ℕ) → j < 512 → s.bs j ≡ blocks j
  pub root_sector : s.root_sector ≡ root_of blocks
  pub disk : (j : ℕ) → j < 512 * total_sectors blocks → s.disk j ≡ blocks j
  pub root_entries : (j : ℕ) → j < 16384 → s.root_entries j ≡ blocks (512 * root_of blocks + j)
  pub root_cluster : cluster s.root_entry ≡ 0
  pub root :
      (i j : ℕ) → i < 512 → j < 32 → root_rde s i j ≡ blocks (512 * root_of blocks + (32 * i + j))
  pub table :
      (c : ℕ)
      → c < 256 * num_sectors_per_fat blocks
      → fat_entry s c
        ≡ get16 blocks (512 * (num_reserved_sectors blocks + num_hidden_sectors blocks) + 2 * c)

-- The fields of two boot sectors with the same bytes.
module _ (b c : Bytes) (same : (j : ℕ) → j < 512 → b j ≡ c j) where
  same_16 : (p : ℕ) → p + 1 < 512 → get16 b p ≡ get16 c p
  unfolding get16
  same_16 p lt = rw (same p (omega arith), same (p + 1) lt) refl

  same_32 : (p : ℕ) → p + 3 < 512 → get32 b p ≡ get32 c p
  unfolding get32
  same_32 p lt =
      rw
        (
          same p (omega arith),
          same (p + 1) (omega arith),
          same (p + 2) (omega arith),
          same (p + 3) lt,
        )
        refl

  same_type : is_fat16 (fs_type b) ≡ is_fat16 (fs_type c)
  unfolding is_fat16 fs_type
  same_type =
      rw
        (
          same 54 (omega arith),
          same 55 (omega arith),
          same 56 (omega arith),
          same 57 (omega arith),
          same 58 (omega arith),
          same 59 (omega arith),
        )
        refl

  IsVolume-same : IsVolume c → IsVolume b
  unfolding boot_signature num_root_dir_entries num_sectors_per_fat num_fat_tables total_sectors
      num_reserved_sectors num_hidden_sectors
  IsVolume-same v = record {
    signature = same_16 510 (omega arith) ∙ v.signature;
    fat16 = same_type ∙ v.fat16;
    entries = same_16 17 (omega arith) ∙ v.entries;
    some_table = rw (same_16 22 (omega arith)) v.some_table;
    tables = rw (same 16 (omega arith)) v.tables;
    on_disk =
        rw
          (
            same 16 (omega arith),
            same_16 22 (omega arith),
            same_16 14 (omega arith),
            same_32 28 (omega arith),
            same_16 19 (omega arith),
          )
          v.on_disk;
    table_rows = rw (same_16 22 (omega arith)) v.table_rows;
    image = rw (same_16 19 (omega arith)) v.image;
  }

  root_of-same : root_of b ≡ root_of c
  unfolding root_of num_sectors_per_fat num_fat_tables num_reserved_sectors num_hidden_sectors
  root_of-same =
      rw
        (
          same 16 (omega arith),
          same_16 22 (omega arith),
          same_16 14 (omega arith),
          same_32 28 (omega arith),
        )
        refl

-- The boot sector, as it has been read.
abbrev pub boot_read : Bytes → Bytes → Bytes
boot_read blocks bs = splice bs 0 512 (from blocks 0)

-- The state behind `initFat`.
unfoldable mounted : Bytes → Fs → Fs
mounted blocks s =
    let bs = boot_read blocks s.bs in
    record s {
      bs = bs;
      root_sector = root_of bs;
      data_sector = root_of bs + 32;
      root_entries_size = 32;
      root_entries = splice s.root_entries 0 16384 (from blocks (512 * root_of bs));
      disk = splice s.disk 0 (512 * total_sectors bs) (from blocks 0);
      root_entry = put16 s.root_entry 26 0;
    }

module _ (sd : SdCard) (n : ℕ) (blocks : Bytes) (s : Fs) (card : IsCard sd n blocks)
    (v : IsVolume blocks) (large : total_sectors blocks ≤ n) where
  boot_same : (j : ℕ) → j < 512 → boot_read blocks s.bs j ≡ blocks j
  boot_same j lt = splice_head s.bs 512 (from blocks 0) j lt ∙ ap blocks (omega arith)

  volume : IsVolume (boot_read blocks s.bs)
  volume = IsVolume-same (boot_read blocks s.bs) blocks boot_same v

  sectors_same : total_sectors (boot_read blocks s.bs) ≡ total_sectors blocks
  unfolding total_sectors
  sectors_same = same_16 (boot_read blocks s.bs) blocks boot_same 19 (omega arith)

  u32_small : (m : ℕ) → m < 4294967296 → u32 m ≡ m
  u32_small m lt = omega arith

  init_fat-mounted : init_fat sd s ≡ (1, mounted blocks s)
  unfolding init_fat mounted root_of
  init_fat-mounted =
      let bs = boot_read blocks s.bs in
      let root = root_of bs in
      let below : root + 32 < total_sectors bs = unfold root_of in volume.on_disk in
      let small = volume.image in
      let limit = sectors_same in
      let boot = card.reads 0 s.bs 1 (omega arith) (omega (arith, below, limit, large)) in
      let entries =
        card.reads root s.root_entries 32 (omega arith) (omega (arith, below, limit, large)) in
      let image =
        card.reads 0 s.disk (total_sectors bs) (omega (arith, below))
          (omega (arith, limit, large)) in
      rw
        (
          boot,
          eq→== (boot_signature bs) 0xaa55 volume.signature,
          volume.fat16,
          volume.entries,
          u32_small (root_of bs) (unfold root_of in omega (arith, below, small)),
          u32_small (root_of bs + 32) (unfold root_of in omega (arith, below, small)),
          entries,
          image,
        )
        refl

  abbrev m : Fs
  m = mounted blocks s

  mounted-HasLayout : HasLayout m
  unfolding mounted table_start root_of
  mounted-HasLayout =
      let bs = boot_read blocks s.bs in
      let more = product (num_fat_tables bs) (num_sectors_per_fat bs) volume.tables in
      record {
        entries = volume.entries;
        entries_size = refl;
        some_table = volume.some_table;
        table_rows = volume.table_rows;
        table = omega (arith, more);
        clusters = refl;
        on_disk = omega (arith, volume.on_disk, volume.image);
      }

  disk_read : (j : ℕ) → j < 512 * total_sectors blocks → m.disk j ≡ blocks j
  unfolding mounted
  disk_read j lt =
      splice_head s.disk (512 * total_sectors (boot_read blocks s.bs)) (from blocks 0) j
        (omega (arith, lt, sectors_same))
      ∙ ap blocks (omega arith)

  boot_root : root_of (boot_read blocks s.bs) ≡ root_of blocks
  boot_root = root_of-same (boot_read blocks s.bs) blocks boot_same

  -- The tables lie within the volume.
  root_below : root_of blocks + 32 < total_sectors blocks
  unfolding root_of
  root_below = v.on_disk

  table_below :
      num_reserved_sectors blocks + num_hidden_sectors blocks + num_sectors_per_fat blocks
      ≤ root_of blocks
  unfolding root_of
  table_below =
      let more = product (num_fat_tables blocks) (num_sectors_per_fat blocks) v.tables in
      omega (arith, more)

  start_same : table_start m ≡ num_reserved_sectors blocks + num_hidden_sectors blocks
  unfolding mounted table_start num_reserved_sectors num_hidden_sectors
  start_same =
      let bs = boot_read blocks s.bs in
      rw
        (same_16 bs blocks boot_same 14 (omega arith), same_32 bs blocks boot_same 28 (omega arith))
        refl

  size_same : num_sectors_per_fat m.bs ≡ num_sectors_per_fat blocks
  unfolding mounted num_sectors_per_fat
  size_same = same_16 (boot_read blocks s.bs) blocks boot_same 22 (omega arith)

  root_read :
      (k : ℕ) → k < 16384 → (loaded m).root_directory_chars k ≡ blocks (512 * root_of blocks + k)
  unfolding loaded mounted
  root_read k lt =
      splice_head s.root_directory_chars 16384 (from m.disk (512 * m.root_sector)) k lt
      ∙ disk_read (512 * m.root_sector + k) (omega (arith, lt, boot_root, root_below))
      ∙ ap (λ (r : ℕ). blocks (512 * r + k)) boot_root

  table_read :
      (k : ℕ)
      → k < 512 * num_sectors_per_fat blocks
      → (loaded m).fat_table_chars k
        ≡ blocks (512 * (num_reserved_sectors blocks + num_hidden_sectors blocks) + k)
  unfolding loaded
  table_read k lt =
      splice_head m.fat_table_chars (512 * num_sectors_per_fat m.bs)
        (from m.disk (512 * table_start m)) k (omega (arith, lt, size_same))
      ∙ disk_read (512 * table_start m + k) (omega (arith, lt, start_same, table_below, root_below))
      ∙ ap (λ (r : ℕ). blocks (512 * r + k)) start_same

  loaded-IsMounted : IsMounted blocks (loaded m)
  unfolding loaded mounted
  loaded-IsMounted = record {
    layout =
        HasLayout-Keeps m (loaded m)
          (record { bs = refl; root_sector = refl; data_sector = refl; root_entries_size = refl })
          mounted-HasLayout;
    boot = boot_same;
    root_sector = boot_root;
    disk = disk_read;
    root_entries = λ j lt.
        splice_head s.root_entries 16384 (from blocks (512 * m.root_sector)) j lt
        ∙ ap (λ (r : ℕ). blocks (512 * r + j)) boot_root;
    root_cluster = unfold cluster in unfold get16 in unfold put16 in unfold write in refl;
    root = λ i j low lt. root_read (32 * i + j) (omega arith);
    table = λ c lt.
        let start = 512 * (num_reserved_sectors blocks + num_hidden_sectors blocks) in
        unfold get16 in
        rw (table_read (2 * c) (omega arith), table_read (2 * c + 1) (omega arith))
          (ap (λ p. blocks (start + 2 * c) + 256 * blocks p) (omega arith));
  }

  -- On a card with a volume, which has all of its sectors, `initFat` returns 1, and with
  -- `initFatStructs` behind it the volume is mounted.
  pub init_fat-IsMounted :
      ((init_fat sd s).0 ≡ 1) × IsMounted blocks (init_fat_structs (init_fat sd s).1).1
  init_fat-IsMounted =
      rw (init_fat-mounted, init_fat_structs-loaded m mounted-HasLayout) (refl, loaded-IsMounted)
