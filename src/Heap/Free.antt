-- ===== src/Heap/Free.antt =====
-- The end of `heap_free`: the node is marked free, or joins the free node below it.
use light_loader.Common.{
  ℕ, ◌+◌, ◌-◌, ◌%◌, ◌≤◌, ◌<◌, ◌≡◌, refl, ◌∙◌, inr, Bool, true, false, List, ◌∷◌, w32, w64, add32,
  arith, ==_refl, gt→==_false,
}
use light_loader.Common.Bytes.{Mem}
use light_loader.Heap.{set_size, set_next, mark_free, merge_prev}
use light_loader.Heap.Blocks.{Block, block}
use light_loader.Heap.Header.{
  flag, Header, link, Chain, Header-SameOn, Chain-SameOn, set_size-Header, set_next-Header,
  set_flags-Header, Outside, set_size_frame, set_next_frame, set_flags_frame,
}
use light_loader.Heap.Fit.{is_used-eq}
use light_loader.Heap.Merge.{link-lt}

flag-clear : (used : Bool) → flag used - flag used % 2 ≡ flag false
flag-clear true = refl
flag-clear false = refl

-- The block at `x` is only marked: there is no free block below.
module _ (m : Mem) (x : ℕ) where
  pub mark_free_frame : (y : ℕ) → Outside x y → mark_free x m y ≡ m y
  unfolding mark_free
  mark_free_frame y o = set_flags_frame m x _ y o

  mark_free-Header :
      {s n : ℕ} {used : Bool} → Header m x s used n → Header (mark_free x m) x s false n
  unfolding mark_free
  mark_free-Header {used} h = rw (h.flags_eq, flag-clear used) (set_flags-Header m x false h)

  pub mark_free-Chain :
      (b : Block) (bs : List Block)
      → Chain m x (b ∷ bs)
      → Chain (mark_free x m) x (block b.size false ∷ bs)
  mark_free-Chain b bs (h, min, c) = (
    mark_free-Header h,
    min,
    Chain-SameOn (x + b.size) bs (λ y l u. mark_free_frame y (inr (omega arith))) c,
  )

  pub merge_prev-first : 0 < x → merge_prev m x (0, x) ≡ mark_free x m
  unfolding merge_prev
  merge_prev-first pos = rw (gt→==_false x 0 pos)

  pub merge_prev-used :
      {p s n : ℕ} → Header m p s true n → 0 < x → 0 < p → merge_prev m x (p, x) ≡ mark_free x m
  unfolding merge_prev
  merge_prev-used {p} h pos ppos = rw (gt→==_false x 0 pos, gt→==_false p 0 ppos, is_used-eq h)

-- The block below, at `a`, is free: it takes the block above it.
module _ {m : Mem} {a s t : ℕ} {used : Bool} (bs : List Block) (h : Header m a s false (a + s))
    (g : Header m (a + s) t used (link (a + s + t) bs)) where
  pub joined : Mem
  joined = mark_free a (set_next a (link (a + s + t) bs) (set_size a (s + t) m))

  pub joined_frame : (y : ℕ) → Outside a y → joined y ≡ m y
  unfolding joined
  joined_frame y o =
      mark_free_frame _ a y o ∙ set_next_frame _ a _ y o ∙ set_size_frame m a (s + t) y o

  pub merge_prev-free : 0 < a → 16 ≤ s → s + t < w32 → merge_prev m (a + s) (a, a + s) ≡ joined
  unfolding merge_prev joined
  merge_prev-free pos min word =
      let sum : add32 s t ≡ s + t = omega arith in
      let high =
        Header-SameOn {m = m} {m' = set_size a (s + t) m}
          (λ y l u. set_size_frame m a (s + t) y (inr (omega arith))) g in
      rw (
        gt→==_false (a + s) 0 (omega arith),
        gt→==_false a 0 pos,
        is_used-eq h,
        h.next_eq,
        ==_refl (a + s),
        h.size_eq,
        g.size_eq,
        sum,
        high.next_eq,
      )

  pub joined-Chain :
      16 ≤ s
      → s + t < w32
      → a + s + t < w64
      → Chain m (a + s + t) bs
      → Chain joined a (block (s + t) false ∷ bs)
  unfolding joined
  joined-Chain min word top c =
      let sum : a + (s + t) ≡ a + s + t = omega arith in
      (
        rw sum (
            mark_free-Header _ a
              (set_next-Header _ a _ (set_size-Header m a (s + t) h word) (link-lt _ bs top))),
        omega arith,
        rw sum (Chain-SameOn (a + s + t) bs (λ y l u. joined_frame y (inr (omega arith))) c),
      )
