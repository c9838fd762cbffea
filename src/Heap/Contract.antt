-- ===== src/Heap/Contract.antt =====
-- The heap represents a list of blocks, and its operations are those of the list.
use light_loader.Common.{
  ℕ, ◌+◌, ◌-◌, ◌%◌, ◌≤◌, ◌<◌, ◌≡◌, refl, sym, ap, ◌∙◌, ◌≢◌, ◌⊎◌, inl, inr, Bool, true, false,
  Option, none, some, List, [], ◌∷◌, if◌then◌else◌, ◌==◌, leb, length, w32, w64, arith, Bool-cases,
  leb→le, leb→gt, ==_iff, lt→==_false,
}
use light_loader.Common.Bytes.{Mem, store, load-store_ne, load-store_self}
use light_loader.Heap.{
  Heap, heap_node_signature, node_signature, initial_heap_limit, init_heap, heap_allocate,
  allocate_loop, set_signature, set_size, set_next, set_flags, node_size, node_flags, node_next,
}
use light_loader.Heap.Blocks.{Block, block, span, first_fit, Leaves, needed}
use light_loader.Heap.Header.{Header, link, Chain}
use light_loader.Heap.Fit.{UsedSame, Grants, needed_bounds}
use light_loader.Heap.Allocate.{allocate_loop-Grants}

-- `bs` are the blocks of the heap from `heap_start`, and they fill the initial 128 MiB.
pub record Represents (h : Heap) (bs : List Block) : Type 0 where
  pub chain : Chain h.mem h.heap_start bs
  pub first : link h.heap_start bs ≡ h.heap_start
  pub start_pos : 0 < h.heap_start
  pub total : span bs ≡ initial_heap_limit
  pub top : h.heap_start + initial_heap_limit < w64

-- Where a request of `n` bytes got the address `p`: a used block with room for it.
abbrev pub GrantedAt : ℕ → ℕ → ℕ → List Block → Type 0
GrantedAt n p a [] = ⊥
GrantedAt n p a (b ∷ bs) =
    ((p ≡ a + 16) × (b.used ≡ true) × (n + 16 ≤ b.size)) ⊎ GrantedAt n p (a + b.size) bs

-- Every free block is too small for `n` bytes.
abbrev pub NoRoom : ℕ → List Block → Type 0
NoRoom n [] = Unit {0}
NoRoom n (b ∷ bs) = ((b.used ≡ false) → b.size < n + 16) × NoRoom n bs

-- What first fit promises.
abbrev pub Serves : ℕ → ℕ → List Block → Option (List Block × ℕ) → Type 0
Serves n a bs none = NoRoom n bs
Serves n a bs (some (bs', p)) = (span bs' ≡ span bs) × GrantedAt n p a bs'

Serves-cons :
    (n a : ℕ) (b : Block) (bs : List Block) (r : Option (List Block × ℕ))
    → ((b.used ≡ false) → b.size < n + 16)
    → Serves n (a + b.size) bs r
    → Serves n a (b ∷ bs) (elim r [ none ↦ none | some (bs', p) ↦ some (b ∷ bs', p) ])
Serves-cons n a b bs none small s = (small, s)
Serves-cons n a b bs (some (bs', p)) small (sp, g) = (omega arith, inr g)

Serves-round :
    (n a s : ℕ) (used : Bool) (bs : List Block)
    → s < w32
    → Leaves n (block s used ∷ bs)
    → Serves n (a + s) bs (first_fit n (a + s) bs)
    → Serves n a (block s used ∷ bs) (first_fit n a (block s used ∷ bs))
unfolding first_fit
Serves-round n a s true bs h l ih = Serves-cons n a (block s true) bs _ (λ e. cc) ih
Serves-round n a s false bs h (here, l) ih = elim (Bool-cases (leb (n + 16) s)) [
  | inl e ↦ rw e (taken (leb→le (n + 16) s e))
  | inr e ↦ rw e (Serves-cons n a (block s false) bs _ (λ _. leb→gt (n + 16) s e) ih)
]
  where
    taken :
        n + 16 ≤ s
        → Serves n a (block s false ∷ bs) (
            if needed n == s
            then some (block s true ∷ bs, a + 16)
            else some
                (block (s - needed n) false ∷ block (needed n) true ∷ bs, a + (s - needed n) + 16))
    taken fit = elim (here refl fit) [
      | inl whole ↦ rw ((==_iff (needed n) s).1 whole) (refl, inl (refl, refl, fit))
      | inr room ↦
          rw (lt→==_false (needed n) s (omega arith))
            (omega arith, inr (inl (refl, refl, (needed_bounds n (omega arith)).0)))
    ]

pub first_fit-Serves :
    (n a : ℕ) (bs : List Block) → span bs < w32 → Leaves n bs → Serves n a bs (first_fit n a bs)
first_fit-Serves n a [] h l = unfold first_fit in tt
first_fit-Serves n a (b ∷ bs) h l =
    Serves-round n a b.size b.used bs (omega arith) l
      (first_fit-Serves n (a + b.size) bs (omega arith) l.1)

-- The four writes of `init_heap`.
init_Header :
    (m : Mem) (a : ℕ)
    → Header
        (set_flags a 0
          (set_next a 0 (set_size a initial_heap_limit (set_signature a heap_node_signature m))))
        a
        initial_heap_limit
        false
        0
unfolding set_size set_signature set_flags set_next node_size node_signature node_flags node_next
init_Header m a =
    let m1 = store 2 m (a + 4) heap_node_signature in
    let m2 = store 4 m1 a (initial_heap_limit % w32) in
    let m3 = store 8 m2 (a + 8) 0 in
    record {
      size_eq =
          load-store_ne 4 2 m3 a (a + 6) 0 (inl (omega arith))
          ∙ load-store_ne 4 8 m2 a (a + 8) 0 (inl (omega arith))
          ∙ load-store_self 4 m1 a (initial_heap_limit % w32) (omega arith);
      signature_eq =
          load-store_ne 2 2 m3 (a + 4) (a + 6) 0 (inl (omega arith))
          ∙ load-store_ne 2 8 m2 (a + 4) (a + 8) 0 (inl (omega arith))
          ∙ load-store_ne 2 4 m1 (a + 4) a (initial_heap_limit % w32) (inr (omega arith))
          ∙ load-store_self 2 m (a + 4) heap_node_signature (omega arith);
      flags_eq = load-store_self 2 m3 (a + 6) 0 (omega arith);
      next_eq =
          load-store_ne 8 2 m3 (a + 8) (a + 6) 0 (inr (omega arith))
          ∙ load-store_self 8 m2 (a + 8) 0 (omega arith);
    }

-- If the start address is positive and the initial 128 MiB do not reach the end of the address space,
-- `init_heap` gives a heap that represents one free block of 128 MiB.
pub init_heap-Represents :
    (start size : ℕ) (m : Mem)
    → 0 < start
    → start + initial_heap_limit < w64
    → Represents (init_heap start size m) (block initial_heap_limit false ∷ [])
unfolding init_heap
init_heap-Represents start size m pos top = record {
  chain = (init_Header m start, omega arith, tt);
  first = refl;
  start_pos = pos;
  total = omega arith;
  top = top;
}

-- What `heap_allocate` gives, from what first fit gives.
abbrev pub Allocates : Heap → ℕ → List Block → Option (List Block × ℕ) → Option (Heap × ℕ) → Type 0
Allocates h n bs none run = (run ≡ some (h, 0)) × NoRoom n bs
Allocates h n bs (some (bs', p)) run =
    (h' : Heap) × (run ≡ some (h', p))
    × Represents h' bs'
    × GrantedAt n p h.heap_start bs'
    × UsedSame h.mem h'.mem h.heap_start bs

finish :
    (h : Heap) (bs : List Block)
    → Represents h bs
    → (n : ℕ) (spec : Option (List Block × ℕ)) (run : Option (Mem × ℕ))
    → Grants h.mem h.heap_start bs spec run
    → Serves n h.heap_start bs spec
    → Allocates h n bs spec
        (elim run [ none ↦ none | some (m, addr) ↦ some (record h { mem = m }, addr) ])
finish h bs r n none run e s = rw e (refl, s)
finish h bs r n (some (bs', p)) run (m', e, al) (sp, gr) = (
  record h { mem = m' },
  rw e,
  record {
    chain = al.chain;
    first = al.start ∙ r.first;
    start_pos = r.start_pos;
    total = sp ∙ r.total;
    top = r.top;
  },
  gr,
  al.kept,
)

-- For a nonempty request in a heap that represents `bs`, where no free block would be left with a
-- remainder too small for a header, and with fuel for all blocks, `heap_allocate` does what first
-- fit does on `bs`: a new list that fills the same memory and has a used block with room for the
-- request at the returned address, with the data of used blocks unchanged; or NULL and an unchanged
-- heap, and then every free block is too small.
pub heap_allocate-first_fit :
    (fuel n : ℕ) (h : Heap) (bs : List Block)
    → Represents h bs
    → n ≢ 0
    → Leaves n bs
    → length bs < fuel
    → Allocates h n bs (first_fit n h.heap_start bs) (heap_allocate fuel h n)
unfolding heap_allocate
heap_allocate-first_fit fuel n h bs r nz l f =
    let nonzero : (n == 0) ≡ false = ground arith in
    let g =
      allocate_loop-Grants fuel n h.mem h.heap_start bs r.chain l r.start_pos (omega arith)
        (omega arith) f in
    let s = first_fit-Serves n h.heap_start bs (omega arith) l in
    let e = ap (allocate_loop fuel n h.mem) (sym r.first) in
    rw nonzero (finish h bs r n (first_fit n h.heap_start bs) _ (rw e g) s)
