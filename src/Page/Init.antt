-- ===== src/Page/Init.antt =====
-- `init_pfa_list` makes the list of all pages.
use pios_private.Base.{
  ℕ, zero, suc, ◌+◌, ◌-◌, ◌*◌, ◌≤◌, ◌<◌, ◌≡◌, refl, arith, ◌&&◌, ltb, leb, if◌then◌else◌, some,
  List, [], ◌∷◌, ◌++◌, length, length-append, sym,
}
use mathlib.Core.List.{append_assoc, append-nil}
use std.Path.{subst}
use pios_private.Mem.{write}
use pios_private.Links.{Links}
use pios_private.Links.Linked.{Apart, AreDistinct, IsLinked}
use pios_private.Page.{Pages, ppage_add, init_loop, init_pfa_list}
use pios_private.Page.Distinct.{AreDistinct-front, AreApart-behind}
use pios_private.Page.Frame.{AreLinkedNowhere, AreLinkedNowhere-Keeps}
use pios_private.Page.Lists.{ppage_add-IsLinked}

-- The `n` pages from `i` on.
unfoldable pub seq : ℕ → ℕ → List ℕ
seq i zero = []
seq i (suc n) = i ∷ seq (suc i) n

Apart-seq : (j i n : ℕ) → j < i → Apart j (seq i n)
unfolding seq
Apart-seq j i zero lt = tt
Apart-seq j i (suc n) lt = ((λ e. omega arith), Apart-seq j (suc i) n (omega arith))

AreDistinct-seq : (i n : ℕ) → AreDistinct (seq i n)
unfolding seq
AreDistinct-seq i zero = tt
AreDistinct-seq i (suc n) = (Apart-seq i (suc i) n (omega arith), AreDistinct-seq (suc i) n)

AreLinkedNowhere-seq :
    (h : Links) (i n : ℕ) → ((j : ℕ) → h.next j ≡ 0) → AreLinkedNowhere h (seq i n)
unfolding seq AreLinkedNowhere
AreLinkedNowhere-seq h i zero clear = tt
AreLinkedNowhere-seq h i (suc n) clear = (clear i, AreLinkedNowhere-seq h (suc i) n clear)

init_loop_lem :
    (fuel n i pages_address : ℕ) (s : Pages) (xs : List ℕ)
    → s.free_pages_list ≡ 1
    → IsLinked s.links 1 xs
    → AreDistinct (1 ∷ xs ++ seq (suc i) n)
    → AreLinkedNowhere s.links (seq (suc i) n)
    → length xs + n < fuel
    → (s' : Pages) × (init_loop fuel n i pages_address s ≡ some s')
      × (s'.free_pages_list ≡ 1)
      × IsLinked s'.links 1 (xs ++ seq (suc i) n)
      × ((j : ℕ)
          → s'.physical_addr j ≡ (
              if ltb i j && leb j (i + n)
              then pages_address + 0x200000 * (j - suc i)
              else s.physical_addr j))
unfolding init_loop seq AreLinkedNowhere write
init_loop_lem fuel zero i pages_address s xs head k d loose enough =
    (s, refl, head, subst (IsLinked s.links 1) (sym (append-nil xs)) k, λ j. ground arith)
init_loop_lem fuel (suc n) i pages_address s xs head k d loose enough =
    let rest = seq (suc (suc i)) n in
    let e = append_assoc xs (suc i ∷ []) rest in
    let d' : AreDistinct (1 ∷ (xs ++ suc i ∷ []) ++ rest) =
      subst (λ zs. AreDistinct (1 ∷ zs)) (sym e) d in
    let (h, added, k', keeps) =
      ppage_add-IsLinked fuel s.links 1 (suc i) xs [] k loose.0
        (AreDistinct-front (1 ∷ xs ++ suc i ∷ []) rest d') (omega arith) (omega arith)
        (omega (arith, enough)) in
    let added' : ppage_add fuel s.links s.free_pages_list (suc i) ≡ some h = rw head added in
    let s₁ : Pages = record s {
      links = h;
      physical_addr = write s.physical_addr (suc i) pages_address;
    } in
    let (s', run, head', k'', addresses) =
      init_loop_lem fuel n (suc i) (pages_address + 0x200000) s₁ (xs ++ suc i ∷ []) head k' d'
        (AreLinkedNowhere-Keeps s.links h _ rest keeps
          (AreApart-behind (1 ∷ xs ++ suc i ∷ []) rest d') loose.1)
        (omega (arith, enough, length-append xs (suc i ∷ []))) in
    (s', rw added' run, head', subst (IsLinked s'.links 1) e k'', λ j. ground (arith, addresses j))

-- From pages without links, with fuel for all pages, `init_pfa_list` returns: the free list has all
-- 128 pages in the order of the array, and page j of 1 to 128 has the physical address j * 2 MB.
pub init_pfa_list-IsLinked :
    (fuel : ℕ) (s : Pages)
    → 128 < fuel
    → ((j : ℕ) → s.links.next j ≡ 0)
    → (s' : Pages) × (init_pfa_list fuel s ≡ some s')
      × (s'.free_pages_list ≡ 1)
      × IsLinked s'.links 1 (seq 2 127)
      × ((j : ℕ) → 1 ≤ j → j ≤ 128 → s'.physical_addr j ≡ 0x200000 * j)
unfolding init_pfa_list write
init_pfa_list-IsLinked fuel s enough clear =
    let s₁ : Pages = record s {
      free_pages_list = 1;
      physical_addr = write s.physical_addr 1 0x200000;
    } in
    let (s', run, head, k, addresses) =
      init_loop_lem fuel 127 1 0x400000 s₁ [] refl (clear 1)
        (Apart-seq 1 2 127 (omega arith), AreDistinct-seq 2 127)
        (AreLinkedNowhere-seq s.links 2 127 clear) (omega (arith, enough)) in
    (s', run, head, k, λ j lo hi. ground (arith, addresses j))
