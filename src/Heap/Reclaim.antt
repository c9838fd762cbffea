-- ===== src/Heap/Reclaim.antt =====
-- `heap_free` on the heap, as `release` on the blocks.
use light_loader.Common.{
  ℕ, ◌+◌, ◌≤◌, ◌<◌, ◌≡◌, refl, ◌∙◌, inl, inr, not, ◌||◌, Option, some, List, [], ◌∷◌, ◌==◌, length,
  w64, sub64, arith, Bool-cases, gt→==_false, ge→ltb, lt→leb_false, lt→ltb, le→leb, le-or-lt,
}
use light_loader.Common.Bytes.{Mem}
use light_loader.Heap.{
  Heap, heap_node_signature, node_signature, is_used, node_next, merge_prev, node_from_address,
  free_node, heap_free, merge_next, find_node, init_heap, initial_heap_limit,
}
use light_loader.Heap.Blocks.{Block, span, absorb_at, release, At, pred_of}
use light_loader.Heap.Header.{Chain, Outside, set_size_frame, set_next_frame}
use light_loader.Heap.Merge.{At-le, absorb_at-link, merge_next-absorb_at, find_node-pred_of}
use light_loader.Heap.Free.{mark_free_frame}
use light_loader.Heap.Release.{
  merge_prev-Freed, span-absorb_at, span-free_at, At-absorb_at, length-absorb_at, free_at-link,
}
use light_loader.Heap.Contract.{Represents}

At-signature :
    (m : Mem) (x a : ℕ) (bs : List Block)
    → Chain m a bs
    → At x a bs
    → node_signature m x ≡ heap_node_signature
At-signature m x a [] c at = absurd at
At-signature m x a (b ∷ bs) c (inl e) = rw e c.0.signature_eq
At-signature m x a (b ∷ bs) c (inr at) = At-signature m x (a + b.size) bs c.2 at

At-room : (m : Mem) (x a : ℕ) (bs : List Block) → Chain m a bs → At x a bs → x + 16 ≤ a + span bs
At-room m x a [] c at = absurd at
At-room m x a (b ∷ bs) c (inl e) = omega (arith, c.1)
At-room m x a (b ∷ bs) c (inr at) = omega (arith, At-room m x (a + b.size) bs c.2 at)

node_from_address-At :
    (m : Mem) (x : ℕ)
    → node_signature m x ≡ heap_node_signature
    → x + 16 < w64
    → node_from_address m (x + 16) ≡ x
unfolding node_from_address
node_from_address-At m x sig top =
    let back : sub64 (x + 16) 16 ≡ x = omega arith in
    rw (gt→==_false (x + 16) 0 (omega arith), back, sig)

merge_prev_frame : (m : Mem) (x p y : ℕ) → Outside x y → Outside p y → merge_prev m x (p, x) y ≡ m y
unfolding merge_prev
merge_prev_frame m x p y ox op =
    elim (Bool-cases (x == 0 || p == 0 || is_used m p || not (node_next m p == x))) [
      | inl e ↦ rw e (mark_free_frame m x y ox)
      | inr e ↦
          rw e (mark_free_frame _ p y op ∙ set_next_frame _ p _ y op ∙ set_size_frame m p _ y op)
    ]

-- What `heap_free` leaves as it was: every byte outside the headers of the freed block and of the
-- block below it.
abbrev pub FreeFrame : Heap → Heap → ℕ → List Block → Type 0
FreeFrame h h' x bs =
    (y : ℕ)
    → Outside x y
    → Outside (pred_of x 0 h.heap_start (absorb_at x h.heap_start bs)) y
    → h'.mem y ≡ h.mem y

free_node-eq :
    (fuel x : ℕ) (h : Heap) {m : Mem} {found : ℕ × ℕ}
    → merge_next fuel h.mem x ≡ some m
    → find_node fuel m x 0 h.heap_start ≡ some found
    → free_node fuel h x ≡ some (record h { mem = merge_prev m x found })
unfolding free_node
free_node-eq fuel x h e walk = ground arith

abbrev pub FreesTo : Heap → ℕ → List Block → Option Heap → Type 0
FreesTo h x bs run =
    (h' : Heap) × (run ≡ some h') × Represents h' (release x h.heap_start bs) × FreeFrame h h' x bs

free_node-release :
    (fuel x : ℕ) (h : Heap) (bs : List Block)
    → Represents h bs
    → At x h.heap_start bs
    → length bs < fuel
    → FreesTo h x bs (free_node fuel h x)
unfolding release
free_node-release fuel x h bs r at f =
    let a = h.heap_start in
    let (m, e, c, same) =
      merge_next-absorb_at fuel x h.mem a bs r.chain at r.start_pos (omega (arith, r.total))
        (omega (arith, r.total, r.top)) f in
    let cs = absorb_at x a bs in
    let at' = At-absorb_at x a bs at in
    let few = length-absorb_at x a bs in
    let size = span-absorb_at x a bs in
    let walk = find_node-pred_of fuel x 0 m a cs c at' r.start_pos (omega arith) in
    let (c', below) =
      merge_prev-Freed m x 0 a cs c at' r.start_pos (omega (arith, r.total))
        (omega (arith, r.total, r.top)) (inl refl) in
    (
      record h { mem = merge_prev m x (pred_of x 0 a cs, x) },
      free_node-eq fuel x h e walk,
      record {
        chain = c';
        first = free_at-link x a cs ∙ absorb_at-link x a bs ∙ r.first;
        start_pos = r.start_pos;
        total = span-free_at x a cs ∙ size ∙ r.total;
        top = r.top;
      },
      λ y ox op. merge_prev_frame m x (pred_of x 0 a cs) y ox op ∙ same y ox,
    )

-- For the address of a block in a heap that represents `bs`, below `heap_limit` and with fuel for all
-- blocks, `heap_free` gives a heap that represents `bs` with that block freed and merged with its free
-- neighbours, and changes no byte outside the headers of that block and of the block below it.
pub heap_free-release :
    (fuel x : ℕ) (h : Heap) (bs : List Block)
    → Represents h bs
    → At x h.heap_start bs
    → x + 16 < h.heap_limit
    → length bs < fuel
    → FreesTo h x bs (heap_free fuel h (x + 16))
unfolding heap_free
heap_free-release fuel x h bs r at low f =
    let above = At-le x h.heap_start bs at in
    let pos : 0 < x = omega arith in
    let (h', e, r', frame) = free_node-release fuel x h bs r at f in
    (
      h',
      rw
          (
            ge→ltb (x + 16) h.heap_start (omega arith),
            lt→leb_false h.heap_limit (x + 16) low,
            node_from_address-At h.mem x (At-signature h.mem x h.heap_start bs r.chain at)
                (omega (arith, At-room h.mem x h.heap_start bs r.chain at, r.total, r.top)),
            gt→==_false x 0 pos,
          )
          e,
      r',
      frame,
    )

-- A heap that is set up at 128 MiB or above never takes a block back: the address is compared with
-- the size of the heap.
heap_free-init_heap :
    (fuel start size addr : ℕ) (m : Mem)
    → initial_heap_limit ≤ start
    → heap_free fuel (init_heap start size m) addr ≡ some (init_heap start size m)
unfolding heap_free init_heap
heap_free-init_heap fuel start size addr m high = elim (le-or-lt start addr) [
  | inl above ↦ rw (ge→ltb addr start above, le→leb initial_heap_limit addr (omega arith))
  | inr below ↦ rw (lt→ltb addr start below)
]
