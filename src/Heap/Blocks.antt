-- ===== src/Heap/Blocks.antt =====
-- What the heap stands for: its blocks in address order, each with its whole size (the header
-- included) and whether it is in use. The block operations are the contract of heap.c.
use light_loader.Common.{
  ℕ, ◌+◌, ◌-◌, ◌≤◌, ◌==◌, leb, if◌then◌else◌, Bool, true, false, not, ◌&&◌, Option, none, some,
  List, [], ◌∷◌, ◌⊎◌, ◌≡◌,
}
use light_loader.Heap.{align_up}

pub record Block : Type 0 where
  pub size : ℕ
  pub used : Bool

abbrev pub block : ℕ → Bool → Block
block s u = record { size = s; used = u }

abbrev pub span : List Block → ℕ
span [] = 0
span (b ∷ bs) = b.size + span bs

-- The whole size of the block that a request of `n` bytes is given.
unfoldable pub needed : ℕ → ℕ
unfolding align_up
needed n = align_up (n + 16) 8

-- First fit: the new blocks and the address handed out. The remainder of a split stays in front.
unfoldable pub first_fit : ℕ → ℕ → List Block → Option (List Block × ℕ)
unfolding needed
first_fit n a [] = none
first_fit n a (b ∷ bs) =
    if not b.used && leb (n + 16) b.size
    then if needed n == b.size
      then some (block b.size true ∷ bs, a + 16)
      else some (
        block (b.size - needed n) false ∷ block (needed n) true ∷ bs,
        a + (b.size - needed n) + 16,
      )
    else elim (first_fit n (a + b.size) bs) [ none ↦ none | some (bs', p) ↦ some (b ∷ bs', p) ]

-- A free block that can take the request is used up, or leaves room for a header.
abbrev pub Leaves : ℕ → List Block → Type 0
Leaves n [] = Unit {0}
Leaves n (b ∷ bs) =
    ((b.used ≡ false) → n + 16 ≤ b.size → (needed n ≡ b.size) ⊎ (needed n + 16 ≤ b.size))
    × Leaves n bs

-- The block of size `s` with the free blocks right above it merged into it.
unfoldable pub absorb : Bool → ℕ → List Block → List Block
absorb used s [] = block s used ∷ []
absorb used s (b ∷ bs) =
    let rest = absorb used (s + b.size) bs in if b.used then block s used ∷ b ∷ bs else rest

unfoldable pub absorb_at : ℕ → ℕ → List Block → List Block
unfolding absorb
absorb_at x a [] = []
absorb_at x a (b ∷ bs) = if a == x then absorb b.used b.size bs else b ∷ absorb_at x (a + b.size) bs

-- The block at `x` becomes free, and joins the block below it if that one is free.
unfoldable pub free_at : ℕ → ℕ → List Block → List Block
free_at x a [] = []
free_at x a (b ∷ []) = if a == x then block b.size false ∷ [] else b ∷ []
free_at x a (b ∷ c ∷ cs) =
    if a == x
    then block b.size false ∷ c ∷ cs
    else if a + b.size == x && not b.used
    then block (b.size + c.size) false ∷ cs
    else b ∷ free_at x (a + b.size) (c ∷ cs)

-- What `heap_free` does to the blocks.
unfoldable pub release : ℕ → ℕ → List Block → List Block
unfolding absorb_at free_at
release x a bs = free_at x a (absorb_at x a bs)

-- `x` is the address of a block.
abbrev pub At : ℕ → ℕ → List Block → Type 0
At x a [] = ⊥
At x a (b ∷ bs) = (x ≡ a) ⊎ At x (a + b.size) bs

-- The address of the block below the one at `x`; `below` if that one comes first.
unfoldable pub pred_of : ℕ → ℕ → ℕ → List Block → ℕ
pred_of x below a [] = below
pred_of x below a (b ∷ bs) = if a == x then below else pred_of x a (a + b.size) bs
