-- ===== src/Fat/Io/RootFile.antt =====
-- A file of the root directory: its entry, its name, and its size.
use pios_private.Base.{
  ℕ, ◌+◌, ◌*◌, ◌≤◌, ◌<◌, ◌≡◌, ◌≢◌, refl, arith, true, false, List, length, ap, ◌∙◌, sym, IsFirst,
  [], ◌⊎◌, inl, inr, Bool-cases,
}
use pios_private.Mem.{Bytes, from, get32, put32, write}
use pios_private.Fat.State.{
  Fs, Locals, root_rde, attribute, file_size, cluster, fat_entry, num_sectors_per_fat,
}
use pios_private.Fat.Volume.Layout.{HasLayout, IsCluster}
use pios_private.Fat.Volume.Load.{loaded}
use pios_private.Fat.Names.Entry.{entry_name, rest}
use pios_private.Fat.Open.Find.{agrees, agrees_iff}
use pios_private.Fat.Open.Same.{entry_name-same}
use pios_private.Fat.Io.Size.{take, take-all, take-short, named, named_iff}

-- Entry `i` of the root directory is the first one that agrees with `ys`; it is among the first 32, is
-- in use, has a name, and is the entry of a file of one cluster.
pub record IsRootFile (s : Fs) (ys : List ℕ) (i : ℕ) : Type 0 where
  pub layout : HasLayout s
  pub first : IsFirst 512 0 (λ k. agrees ys (root_rde (loaded s) k)) i
  pub has_name : entry_name (root_rde (loaded s) i) ≢ []
  pub low : i < 32
  pub used : root_rde (loaded s) i 0 ≢ 0
  pub kind : attribute (root_rde (loaded s) i) ≡ 0x20
  pub on_volume : IsCluster s (cluster (root_rde (loaded s) i))
  pub in_table : cluster (root_rde (loaded s) i) < 256 * num_sectors_per_fat s.bs
  pub last : 0xfff8 ≤ fat_entry (loaded s) (cluster (root_rde (loaded s) i))

-- A write of the string `xs` to that file, which has been opened with the entry `rde`.
pub record RootWrite : Type 0 where
  pub l : Locals
  pub s : Fs
  pub ys : List ℕ
  pub i : ℕ
  pub h : IsRootFile s ys i
  pub short : length ys < 10
  pub parent : Bytes
  pub rde : Bytes
  pub root : cluster parent ≡ 0
  pub same : (j : ℕ) → j < 32 → rde j ≡ root_rde (loaded s) i j
  pub buffer : Bytes
  pub xs : List ℕ
  pub small : length xs < 2047

-- A size that is stored is read, and all else is as it was.
pub size_stored :
    (b : Bytes) (p n : ℕ) → n < 4294967296 → file_size (from (put32 b (p + 28) n) p) ≡ n
unfolding file_size get32 put32 write
size_stored b p n lt = ground arith

pub size_outside : (b : Bytes) (p n q : ℕ) → (q < p) ⊎ (p + 4 ≤ q) → put32 b p n q ≡ b q
unfolding put32 write
size_outside b p n q out = ground arith

-- Names that are short are compared whole.
agrees-named :
    (ys : List ℕ) (rde : Bytes) → length ys < 10 → named ys rde ≡ true → agrees ys rde ≡ true
agrees-named ys rde short h =
    let (used, e) = (named_iff ys rde).0 h in
    (agrees_iff ys rde).1 (sym e ∙ take-short 10 (rest (entry_name rde)) (rw e short))

pub named-agrees :
    (ys : List ℕ) (rde : Bytes)
    → length ys < 10
    → rde 0 ≢ 0
    → agrees ys rde ≡ true
    → named ys rde ≡ true
named-agrees ys rde short used h =
    let e = (agrees_iff ys rde).0 h in
    (named_iff ys rde).1 (used, ap (take 10) (sym e) ∙ take-all 10 ys (omega arith))

pub not_named :
    (ys : List ℕ) (rde : Bytes) → length ys < 10 → agrees ys rde ≡ false → named ys rde ≡ false
not_named ys rde short h = elim (Bool-cases (named ys rde)) [
  | inl hit ↦ let no_hit = agrees-named ys rde short hit in cc
  | inr miss ↦ miss
]

pub named-same :
    (ys : List ℕ) (r r' : Bytes) → ((j : ℕ) → j < 11 → r j ≡ r' j) → named ys r ≡ named ys r'
unfolding named
named-same ys r r' same = rw (same 0 (omega arith), entry_name-same r r' same) refl
