-- ===== src/Heap/Allocate.antt =====
-- `heap_allocate` refines first fit on the blocks.
use light_loader.Common.{
  ℕ, zero, suc, ◌+◌, ◌-◌, ◌≤◌, ◌<◌, ◌≡◌, refl, ap, inl, inr, Bool, true, false, not, ◌&&◌, Option,
  none, some, List, [], ◌∷◌, if◌then◌else◌, ◌==◌, leb, length, w32, w64, add64, arith, Bool-cases,
  ==_iff, leb→le,
}
use light_loader.Common.Bytes.{Mem}
use light_loader.Heap.{align_up, take_node, allocate_loop, mark_used}
use light_loader.Heap.Blocks.{Block, block, span, needed, first_fit, Leaves}
use light_loader.Heap.Header.{Header, link, Chain, Header-SameOn}
use light_loader.Heap.Fit.{
  needed_bounds, can_take-eq, mark_used-eq, Grants, perfect_fit, split_mem, split_node-eq,
  split_fit,
}

-- What the tests on the first block decide, for a block that is taken.
module _ {m : Mem} {a size : ℕ} (n : ℕ) (bs : List Block)
    (h : Header m a size false (link (a + size) bs)) (c : Chain m (a + size) bs) (min : 16 ≤ size)
    (fits : n + 16 ≤ size) (word : size < w32) (top : a + size < w64) where
  request : align_up (add64 n 16) 8 ≡ needed n
  unfolding needed
  request = let e : add64 n 16 ≡ n + 16 = omega arith in rw e

  take_whole :
      (needed n == size) ≡ true
      → Grants m a
          (block size false ∷ bs)
          (some (block size true ∷ bs, a + 16))
          (some (take_node m a n))
  unfolding take_node
  take_whole e =
      let addr : add64 a 16 ≡ a + 16 = omega arith in
      (
        mark_used a m,
        rw (request, h.size_eq, e, addr),
        rw (mark_used-eq h) (perfect_fit bs h min c),
      )

  take_split :
      (needed n == size) ≡ false
      → needed n + 16 ≤ size
      → Grants m a
          (block size false ∷ bs)
          (some (
            block (size - needed n) false ∷ block (needed n) true ∷ bs,
            a + (size - needed n) + 16,
          ))
          (some (take_node m a n))
  unfolding take_node
  take_split e room =
      let min' : 16 ≤ needed n = omega (arith, needed_bounds n) in
      (
        split_mem m a size (needed n) (link (a + size) bs),
        rw (request, h.size_eq, e) (ap some (split_node-eq (needed n) bs h min' room word top)),
        split_fit (needed n) bs h min' room word top c,
      )

-- A block that is passed over keeps its place in front of what the rest of the search does.
module _ {m : Mem} {a : ℕ} {b : Block} (bs : List Block)
    (h : Header m a b.size b.used (link (a + b.size) bs)) (min : 16 ≤ b.size) where
  pass_over :
      (spec : Option (List Block × ℕ)) (run : Option (Mem × ℕ))
      → Grants m (a + b.size) bs spec run
      → Grants m a (b ∷ bs) (elim spec [ none ↦ none | some (bs', p) ↦ some (b ∷ bs', p) ]) run
  pass_over none run g = g
  pass_over (some (bs', p)) run (m', e, al) = (
    m',
    e,
    record {
      chain = (
        rw al.start (Header-SameOn (λ x l u. al.outside x (inl (omega arith))) h),
        min,
        al.chain,
      );
      outside = λ x o. al.outside x (grind arith);
      kept = (λ _ x l u. al.outside x (inl u), al.kept);
      start = refl;
    },
  )

-- One round of the loop, from what the rounds behind it do.
loop_step :
    (n : ℕ) (m : Mem) (a size : ℕ) (used : Bool) (bs : List Block)
    → Chain m a (block size used ∷ bs)
    → Leaves n (block size used ∷ bs)
    → size < w32
    → a + size < w64
    → (run : Option (Mem × ℕ)) → Grants m (a + size) bs (first_fit n (a + size) bs) run
    → Grants m a
        (block size used ∷ bs)
        (first_fit n a (block size used ∷ bs))
        (if not used && leb (n + 16) size then some (take_node m a n) else run)
unfolding first_fit
loop_step n m a size true bs (h, min, c) (here, l) word top run g = pass_over bs h min _ run g
loop_step n m a size false bs (h, min, c) (here, l) word top run g =
    elim (Bool-cases (leb (n + 16) size)) [
      | inl fits ↦
          let fit = leb→le (n + 16) size fits in
          elim (here refl fit) [
            | inl whole ↦
                let e = (==_iff (needed n) size).1 whole in
                rw (fits, e) (take_whole n bs h c min fit word top e)
            | inr room ↦
                let e : (needed n == size) ≡ false = ground arith in
                rw (fits, e) (take_split n bs h c min fit word top e room)
          ]
      | inr tight ↦ rw tight (pass_over bs h min _ run g)
    ]

pub allocate_loop-Grants :
    (fuel n : ℕ) (m : Mem) (a : ℕ) (bs : List Block)
    → Chain m a bs
    → Leaves n bs
    → 0 < a
    → span bs < w32
    → a + span bs < w64
    → length bs < fuel
    → Grants m a bs (first_fit n a bs) (allocate_loop fuel n m (link a bs))
unfolding allocate_loop first_fit
allocate_loop-Grants zero n m a bs c l pos word top f = absurd (omega arith)
allocate_loop-Grants (suc fuel) n m a [] c l pos word top f = refl
allocate_loop-Grants (suc fuel) n m a (b ∷ bs) (h, min, c) (here, l) pos word top f =
    let nonnull : (a == 0) ≡ false = ground arith in
    let rest =
      allocate_loop-Grants fuel n m (a + b.size) bs c l (omega arith) (omega arith) (omega arith)
        (omega arith) in
    rw (nonnull, can_take-eq h n min (omega arith), h.next_eq)
      (loop_step n m a b.size b.used bs (h, min, c) (here, l) (omega arith) (omega arith) _ rest)
