-- ===== src/Heap/Merge.antt =====
-- The loops of `heap_free`: merging the free nodes above, and the walk to the node.
use light_loader.Common.{
  ℕ, zero, suc, ◌+◌, ◌≤◌, ◌<◌, ◌≡◌, refl, ◌∙◌, inl, inr, Bool, true, false, some, List, [], ◌∷◌,
  ◌==◌, length, w32, w64, add32, arith, ==_refl, lt→==_false, gt→==_false,
}
use light_loader.Common.Bytes.{Mem}
use light_loader.Heap.{set_size, set_next, merge_next, find_node}
use light_loader.Heap.Blocks.{Block, block, span, absorb, absorb_at, At, pred_of}
use light_loader.Heap.Header.{
  Header, link, Chain, Header-SameOn, Chain-SameOn, set_size-Header, set_next-Header, Outside,
  set_size_frame, set_next_frame,
}
use light_loader.Heap.Fit.{is_used-eq}

-- A memory that differs from `m` at most in the header at `x`.
abbrev pub SameBut : Mem → Mem → ℕ → Type 0
SameBut m m' x = (y : ℕ) → Outside x y → m' y ≡ m y

pub link-lt : (a : ℕ) (bs : List Block) → a < w64 → link a bs < w64
link-lt a [] h = omega arith
link-lt a (b ∷ bs) h = h

-- One merge: the block above is free and becomes part of this one.
module _ {m : Mem} {a s t : ℕ} {used : Bool} (bs : List Block) (h : Header m a s used (a + s))
    (g : Header m (a + s) t false (link (a + s + t) bs)) where
  merged : Mem
  merged = set_next a (link (a + s + t) bs) (set_size a (s + t) m)

  merged_frame : SameBut m merged a
  unfolding merged
  merged_frame y o = set_next_frame _ a _ y o ∙ set_size_frame m a (s + t) y o

  merged-Header :
      16 ≤ s → s + t < w32 → a + s + t < w64 → Header merged a (s + t) used (link (a + s + t) bs)
  unfolding merged
  merged-Header min word top =
      set_next-Header _ a _ (set_size-Header m a (s + t) h word) (link-lt _ bs top)

  merge_next-step :
      (fuel : ℕ)
      → 0 < a
      → 16 ≤ s
      → s + t < w32
      → merge_next (suc fuel) m a ≡ merge_next fuel merged a
  unfolding merge_next merged
  merge_next-step fuel pos min word =
      let sum : add32 s t ≡ s + t = omega arith in
      let above : (a + s == 0) ≡ false = ground arith in
      let low = set_size-Header m a (s + t) h word in
      let high =
        Header-SameOn {m = m} {m' = set_size a (s + t) m}
          (λ x l u. set_size_frame m a (s + t) x (inr (omega arith))) g in
      rw (h.next_eq, above, is_used-eq g, h.size_eq, g.size_eq, sum, low.next_eq, high.next_eq)

abbrev Absorbed : ℕ → Mem → ℕ → List Block → Type 0
Absorbed fuel m a bs = (m' : Mem) × (merge_next fuel m a ≡ some m') × Chain m' a bs × SameBut m m' a

-- The round at a block `t` above, from what the rounds after a merge do.
absorb_round :
    (fuel : ℕ) (m : Mem) (a s t : ℕ) (used above : Bool) (bs : List Block)
    → Chain m a (block s used ∷ block t above ∷ bs)
    → 0 < a
    → s + t < w32
    → a + s + t < w64
    → ((m1 : Mem)
        → Chain m1 a (block (s + t) used ∷ bs)
        → Absorbed fuel m1 a (absorb used (s + t) bs))
    → Absorbed (suc fuel) m a (absorb used s (block t above ∷ bs))
unfolding absorb
absorb_round fuel m a s t used true bs (h, min, (g, gmin, c)) pos word top ih =
    (m, stop, (h, min, (g, gmin, c)), λ y o. refl)
  where
    stop : merge_next (suc fuel) m a ≡ some m
    stop =
        let above : (a + s == 0) ≡ false = ground arith in
        unfold merge_next in rw (h.next_eq, above, is_used-eq g)
absorb_round fuel m a s t used false bs (h, min, (g, gmin, c)) pos word top ih =
    let frame = merged_frame bs h g in
    let sum : a + (s + t) ≡ a + s + t = omega arith in
    let chain : Chain (merged bs h g) a (block (s + t) used ∷ bs) = (
      rw sum (merged-Header bs h g min word top),
      omega arith,
      rw sum (Chain-SameOn (a + s + t) bs (λ x l u. frame x (inr (omega arith))) c),
    ) in
    let (m', e, c', same) = ih (merged bs h g) chain in
    (m', merge_next-step bs h g fuel pos min word ∙ e, c', λ y o. same y o ∙ frame y o)

merge_next-absorb :
    (fuel : ℕ) (m : Mem) (a s : ℕ) (used : Bool) (bs : List Block)
    → Chain m a (block s used ∷ bs)
    → 0 < a
    → s + span bs < w32
    → a + s + span bs < w64
    → length bs < fuel
    → Absorbed fuel m a (absorb used s bs)
merge_next-absorb zero m a s used bs c pos word top f = absurd (omega arith)
merge_next-absorb (suc fuel) m a s used [] (h, min, c) pos word top f =
    unfold absorb merge_next in (m, rw h.next_eq refl, (h, min, c), λ y o. refl)
merge_next-absorb (suc fuel) m a s used (b ∷ bs) c pos word top f =
    absorb_round fuel m a s b.size used b.used bs c pos (omega arith) (omega arith) (λ m1 c1.
      merge_next-absorb fuel m1 a (s + b.size) used bs c1 pos (omega arith) (omega arith)
        (omega arith))

absorb-link : (a : ℕ) (used : Bool) (s : ℕ) (bs : List Block) → link a (absorb used s bs) ≡ a
unfolding absorb
absorb-link a used s [] = refl
absorb-link a used s (b ∷ bs) = ground (arith, absorb-link a used (s + b.size) bs)

-- The first address stays.
pub absorb_at-link : (x a : ℕ) (bs : List Block) → link a (absorb_at x a bs) ≡ link a bs
unfolding absorb_at
absorb_at-link x a [] = refl
absorb_at-link x a (b ∷ bs) = ground (arith, absorb-link a b.used b.size bs)

pub At-le : (x a : ℕ) (bs : List Block) → At x a bs → a ≤ x
At-le x a [] at = absurd at
At-le x a (b ∷ bs) (inl e) = omega arith
At-le x a (b ∷ bs) (inr at) = omega (arith, At-le x (a + b.size) bs at)

-- At the address of a block the loop merges the free blocks above it into it.
pub merge_next-absorb_at :
    (fuel x : ℕ) (m : Mem) (a : ℕ) (bs : List Block)
    → Chain m a bs
    → At x a bs
    → 0 < a
    → span bs < w32
    → a + span bs < w64
    → length bs < fuel
    → (m' : Mem) × (merge_next fuel m x ≡ some m') × Chain m' a (absorb_at x a bs) × SameBut m m' x
unfolding absorb_at
merge_next-absorb_at fuel x m a [] c at pos word top f = absurd at
merge_next-absorb_at fuel x m a (b ∷ bs) c (inl e) pos word top f =
    rw (e, ==_refl a)
      (merge_next-absorb fuel m a b.size b.used bs c pos (omega arith) (omega arith) (omega arith))
merge_next-absorb_at fuel x m a (b ∷ bs) (h, min, c) (inr at) pos word top f =
    let le = At-le x (a + b.size) bs at in
    let apart = lt→==_false a x (omega arith) in
    let (m', e, c', same) =
      merge_next-absorb_at fuel x m (a + b.size) bs c at (omega arith) (omega arith) (omega arith)
        (omega arith) in
    let head : Header m' a b.size b.used (link (a + b.size) (absorb_at x (a + b.size) bs)) =
      rw (absorb_at-link x (a + b.size) bs)
        (Header-SameOn (λ y l u. same y (inl (omega arith))) h) in
    rw apart (m', e, (head, min, c'), same)

-- The walk from `a` ends at the block `x`, with the address of the block below it.
pub find_node-pred_of :
    (fuel x below : ℕ) (m : Mem) (a : ℕ) (bs : List Block)
    → Chain m a bs
    → At x a bs
    → 0 < a
    → length bs < fuel
    → find_node fuel m x below a ≡ some (pred_of x below a bs, x)
unfolding find_node pred_of
find_node-pred_of fuel x below m a [] c at pos f = absurd at
find_node-pred_of zero x below m a (b ∷ bs) c at pos f = absurd (omega arith)
find_node-pred_of (suc fuel) x below m a (b ∷ bs) c (inl e) pos f =
    let nonnull = gt→==_false a 0 pos in rw (e, nonnull, ==_refl a)
find_node-pred_of (suc fuel) x below m a (b ∷ c' ∷ bs) (h, min, c) (inr at) pos f =
    let le = At-le x (a + b.size) (c' ∷ bs) at in
    let nonnull = gt→==_false a 0 pos in
    let apart = lt→==_false a x (omega arith) in
    rw (nonnull, apart, h.next_eq)
      (find_node-pred_of fuel x a m (a + b.size) (c' ∷ bs) c at (omega arith) (omega arith))
find_node-pred_of (suc fuel) x below m a (b ∷ []) c (inr at) pos f = absurd at
