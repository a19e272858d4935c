-- ===== src/ListElement/Laws.antt =====
-- Adding and removing elements keeps the list linked.
use pios_private.Base.{
  ℕ, ◌≡◌, ◌≢◌, refl, arith, some, List, [], ◌∷◌, ◌++◌, ◌==◌, if◌then◌else◌, Bool-cases, inl, inr,
  ne→==, sym, ◌∙◌,
}
use std.Path.{subst}
use pios_private.Mem.{write}
use pios_private.Links.{Links, set_next, set_prev}
use pios_private.Links.Linked.{
  Apart, AreDistinct, IsLinked, last_of, first_of, IsLinked-set_next, IsLinked-set_prev,
  Apart-append, last_of-ne, prev_last, next_first, IsLinked-drop, first_of-ne, last_of-nonzero,
  IsLinked-ne, AreDistinct-drop,
}
use pios_private.ListElement.{list_add, list_remove, relink_next}

-- After the three assignments of `listAdd`.
added : Links → ℕ → ℕ → Links
added h head a = set_next (set_prev (set_next h a (h.next head)) a head) head a

added_first :
    (h : Links) (head a x : ℕ)
    → head ≢ a
    → x ≢ a
    → x ≢ head
    → let h' = set_prev (added h head a) x a in
      (h'.next head ≡ a) × (h'.prev a ≡ head) × (h'.next a ≡ h.next head) × (h'.prev x ≡ a)
unfolding added set_next set_prev write
added_first h head a x ne n2 n3 = (ground arith, ground arith, ground arith, ground arith)

added_rest :
    (h : Links) (head a x : ℕ) (xs : List ℕ)
    → IsLinked h x xs
    → AreDistinct (head ∷ x ∷ xs)
    → Apart a (x ∷ xs)
    → IsLinked (set_prev (added h head a) x a) x xs
unfolding added
added_rest h head a x xs k distinct out =
    let k₁ = IsLinked-set_next h a (h.next head) x xs out k in
    let k₂ = IsLinked-set_prev (set_next h a (h.next head)) a head x xs out.1 k₁ in
    let k₃ = IsLinked-set_next _ head a x xs distinct.0 k₂ in
    IsLinked-set_prev (added h head a) x a x xs distinct.1.0 k₃

added_next : (h : Links) (head a : ℕ) → head ≢ a → (added h head a).next a ≡ h.next head
unfolding added set_next set_prev write
added_next h head a ne = ground arith

list_add_lem :
    (h : Links) (head a x : ℕ)
    → head ≢ a
    → h.next head ≡ x
    → x ≢ 0
    → list_add h head a ≡ set_prev (added h head a) x a
unfolding list_add added
list_add_lem h head a x ne e nn = rw (added_next h head a ne, e, ne→== x 0 nn)

-- `listAdd` puts an element that is not NULL and not in the list in front of the elements that
-- follow the head, which are distinct.
pub list_add-IsLinked :
    (h : Links) (head a : ℕ) (xs : List ℕ)
    → IsLinked h head xs
    → AreDistinct (head ∷ xs)
    → Apart a (head ∷ xs)
    → a ≢ 0
    → IsLinked (list_add h head a) head (a ∷ xs)
unfolding list_add set_next set_prev write
list_add-IsLinked h head a [] k distinct out nn = (ground arith, nn, ground arith, ground arith)
list_add-IsLinked h head a (x ∷ xs) k distinct out nn =
    let (first, second, third, fourth) = added_first h head a x out.0 out.1.0 distinct.0.0 in
    let made : IsLinked (set_prev (added h head a) x a) head (a ∷ x ∷ xs) = (
      first,
      nn,
      second,
      (third ∙ k.0, k.1, fourth, added_rest h head a x xs k.3 distinct out.1),
    ) in
    subst (λ h'. IsLinked h' head (a ∷ x ∷ xs)) (sym (list_add_lem h head a x out.0 k.0 k.1)) made

-- The heap without the element `b` that stands behind `q` and in front of `n`.
relinked : Links → (q n : ℕ) → Links
relinked h q n = if n == 0 then h else set_prev h n q

unlinked : Links → (q b n : ℕ) → Links
unfolding relinked
unlinked h q b n = set_prev (set_next (set_next (relinked h q n) q n) b 0) b 0

relinked_next : (h : Links) (q n j : ℕ) → (relinked h q n).next j ≡ h.next j
unfolding relinked set_prev
relinked_next h q n j = elim (Bool-cases (n == 0)) [ inl e ↦ rw e | inr e ↦ rw e ]

relinked_prev :
    (h : Links) (q n j : ℕ)
    → (relinked h q n).prev j ≡ (if n == 0 then h.prev j else if j == n then q else h.prev j)
unfolding relinked set_prev write
relinked_prev h q n j = elim (Bool-cases (n == 0)) [ inl e ↦ rw e | inr e ↦ rw e ]

unlinked_next :
    (h : Links) (q b n j : ℕ)
    → (unlinked h q b n).next j ≡ (if j == b then 0 else if j == q then n else h.next j)
unfolding unlinked set_next set_prev write
unlinked_next h q b n j = ground (arith, relinked_next h q n j)

unlinked_prev :
    (h : Links) (q b n j : ℕ)
    → (unlinked h q b n).prev j
      ≡ (if j == b then 0 else if n == 0 then h.prev j else if j == n then q else h.prev j)
unfolding unlinked set_next set_prev write
unlinked_prev h q b n j = ground (arith, relinked_prev h q n j)

list_remove_lem :
    (h : Links) (q b n : ℕ)
    → h.prev b ≡ q
    → h.next b ≡ n
    → q ≢ 0
    → n ≢ b
    → list_remove h b ≡ some (unlinked h q b n)
unfolding list_remove unlinked relink_next
list_remove_lem h q b n e e' nn ne =
    let p : (relinked h q n).prev b ≡ q = ground (arith, relinked_prev h q n b) in
    let m : (relinked h q n).next b ≡ n = relinked_next h q n b ∙ e' in
    let same : relink_next h b ≡ relinked h q n = unfold relinked in rw (e, e') refl in
    rw (same, p, m, ne→== q 0 nn)

-- The elements in front of the neighbours, and behind them, do not change.
IsLinked-unlinked :
    (h : Links) (q b n x : ℕ) (xs : List ℕ)
    → IsLinked h x xs
    → Apart b (x ∷ xs)
    → Apart q (x ∷ xs)
    → Apart n xs
    → IsLinked (unlinked h q b n) x xs
IsLinked-unlinked h q b n x [] k out_b out_q out_n = ground (arith, unlinked_next h q b n x)
IsLinked-unlinked h q b n x (y ∷ xs) k out_b out_q out_n = (
  ground (arith, unlinked_next h q b n x),
  k.1,
  ground (arith, unlinked_prev h q b n y),
  IsLinked-unlinked h q b n y xs k.3 out_b.1 out_q.1 out_n.1,
)

unlinked-IsLinked :
    (h : Links) (p b : ℕ) (xs ys : List ℕ)
    → IsLinked h p (xs ++ b ∷ ys)
    → AreDistinct (p ∷ xs ++ b ∷ ys)
    → IsLinked (unlinked h (last_of p xs) b (first_of ys)) p (xs ++ ys)
unlinked-IsLinked h p b [] [] k distinct = ground (arith, unlinked_next h p b 0 p)
unlinked-IsLinked h p b [] (y ∷ ys) k distinct = (
  ground (arith, unlinked_next h p b y p),
  k.3.1,
  ground (arith, unlinked_prev h p b y y),
  IsLinked-unlinked h p b y y ys k.3.3 distinct.1.0 distinct.0.1 distinct.1.1.0,
)
unlinked-IsLinked h p b (x ∷ xs) ys k distinct =
    let q = last_of x xs in
    let (p_out, p_rest) = Apart-append p (x ∷ xs) (b ∷ ys) distinct.0 in
    let (x_out, x_rest) = Apart-append x xs (b ∷ ys) distinct.1.0 in
    let pq = last_of-ne p x xs p_out in
    let xn = first_of-ne x ys x_rest.1 k.1 in
    (
      ground (arith, unlinked_next h q b (first_of ys) p, p_rest.0),
      k.1,
      ground (arith, unlinked_prev h q b (first_of ys) x, x_rest.0),
      unlinked-IsLinked h x b xs ys k.3 distinct.1,
    )

-- `listRemove` of any element in a list of distinct elements that follow a head which is not NULL:
-- the other elements stay linked in their order, and both links of the element are NULL.
pub list_remove-IsLinked :
    (h : Links) (head b : ℕ) (xs ys : List ℕ)
    → IsLinked h head (xs ++ b ∷ ys)
    → AreDistinct (head ∷ xs ++ b ∷ ys)
    → head ≢ 0
    → (h' : Links) × (list_remove h b ≡ some h')
      × IsLinked h' head (xs ++ ys)
      × (h'.next b ≡ 0)
      × (h'.prev b ≡ 0)
list_remove-IsLinked h head b xs ys k distinct nn =
    let q = last_of head xs in
    let n = first_of ys in
    (
      unlinked h q b n,
      list_remove_lem h q b n (prev_last h head b xs ys k)
          (next_first h b ys (IsLinked-drop h head b xs ys k))
          (last_of-nonzero h head xs (b ∷ ys) k nn)
          (first_of-ne b ys (AreDistinct-drop (head ∷ xs) (b ∷ ys) distinct).0
            (IsLinked-ne h head b xs ys k)),
      unlinked-IsLinked h head b xs ys k distinct,
      ground (arith, unlinked_next h q b n b),
      ground (arith, unlinked_prev h q b n b),
    )
