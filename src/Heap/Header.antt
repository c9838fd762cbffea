-- ===== src/Heap/Header.antt =====
-- The headers in memory: what each write of heap.c leaves in them, and the chain of blocks that
-- they form.
use light_loader.Common.{
  ℕ, ◌+◌, ◌%◌, ◌≤◌, ◌<◌, ◌≡◌, ◌∙◌, ◌⊎◌, inl, inr, Bool, true, List, [], ◌∷◌, if◌then◌else◌, w32,
  w64, arith,
}
use light_loader.Common.Bytes.{
  Mem, SameOn, store, store_frame, load-SameOn, load-store_ne, load-store_self,
}
use light_loader.Heap.{
  heap_node_signature, node_size, node_signature, node_flags, node_next, set_size, set_signature,
  set_flags, set_next,
}
use light_loader.Heap.Blocks.{Block, span}

abbrev pub flag : Bool → ℕ
flag used = if used then 1 else 0

pub record Header (m : Mem) (a size : ℕ) (used : Bool) (next : ℕ) : Type 0 where
  pub size_eq : node_size m a ≡ size
  pub signature_eq : node_signature m a ≡ heap_node_signature
  pub flags_eq : node_flags m a ≡ flag used
  pub next_eq : node_next m a ≡ next

-- The `next` pointer of a block: the block above, or `NULL`.
abbrev pub link : ℕ → List Block → ℕ
link a [] = 0
link a (b ∷ bs) = a

abbrev pub Chain : Mem → ℕ → List Block → Type 0
Chain m a [] = Unit {0}
Chain m a (b ∷ bs) =
    Header m a b.size b.used (link (a + b.size) bs) × (16 ≤ b.size) × Chain m (a + b.size) bs

module _ {m m' : Mem} where
  pub Header-SameOn :
      {a size next : ℕ} {used : Bool}
      → SameOn m m' a (a + 16)
      → Header m a size used next
      → Header m' a size used next
  unfolding node_size node_signature node_flags node_next
  Header-SameOn {a} s h = record {
    size_eq = load-SameOn 4 m m' a (a + 16) (omega arith) s ∙ h.size_eq;
    signature_eq =
        load-SameOn 2 m m' (a + 4) (a + 16) (omega arith) (λ x l u. s x (omega arith) u)
        ∙ h.signature_eq;
    flags_eq =
        load-SameOn 2 m m' (a + 6) (a + 16) (omega arith) (λ x l u. s x (omega arith) u)
        ∙ h.flags_eq;
    next_eq =
        load-SameOn 8 m m' (a + 8) (a + 16) (omega arith) (λ x l u. s x (omega arith) u)
        ∙ h.next_eq;
  }

  pub Chain-SameOn :
      (a : ℕ) (bs : List Block) → SameOn m m' a (a + span bs) → Chain m a bs → Chain m' a bs
  Chain-SameOn a [] s c = tt
  Chain-SameOn a (b ∷ bs) s (h, min, c) = (
    Header-SameOn (λ x l u. s x l (omega arith)) h,
    min,
    Chain-SameOn (a + b.size) bs (λ x l u. s x (omega arith) (omega arith)) c,
  )

-- Each write to a header changes one field, and no byte outside the header.
module _ (m : Mem) (a v : ℕ) {size next : ℕ} {used : Bool} (h : Header m a size used next) where
  pub set_size-Header : v < w32 → Header (set_size a v m) a v used next
  unfolding set_size node_size node_signature node_flags node_next
  set_size-Header lt = record {
    size_eq = load-store_self 4 m a (v % w32) (omega arith) ∙ omega arith;
    signature_eq = load-store_ne 2 4 m (a + 4) a (v % w32) (inr (omega arith)) ∙ h.signature_eq;
    flags_eq = load-store_ne 2 4 m (a + 6) a (v % w32) (inr (omega arith)) ∙ h.flags_eq;
    next_eq = load-store_ne 8 4 m (a + 8) a (v % w32) (inr (omega arith)) ∙ h.next_eq;
  }

  pub set_next-Header : v < w64 → Header (set_next a v m) a size used v
  unfolding set_next node_size node_signature node_flags node_next
  set_next-Header lt = record {
    size_eq = load-store_ne 4 8 m a (a + 8) v (inl (omega arith)) ∙ h.size_eq;
    signature_eq = load-store_ne 2 8 m (a + 4) (a + 8) v (inl (omega arith)) ∙ h.signature_eq;
    flags_eq = load-store_ne 2 8 m (a + 6) (a + 8) v (inl (omega arith)) ∙ h.flags_eq;
    next_eq = load-store_self 8 m (a + 8) v (omega arith);
  }

pub set_flags-Header :
    (m : Mem) (a : ℕ) {size next : ℕ} {used : Bool} (used' : Bool)
    → Header m a size used next
    → Header (set_flags a (flag used') m) a size used' next
unfolding set_flags node_size node_signature node_flags node_next
set_flags-Header m a used' h = record {
  size_eq = load-store_ne 4 2 m a (a + 6) (flag used') (inl (omega arith)) ∙ h.size_eq;
  signature_eq =
      load-store_ne 2 2 m (a + 4) (a + 6) (flag used') (inl (omega arith)) ∙ h.signature_eq;
  flags_eq = load-store_self 2 m (a + 6) (flag used') (ground arith);
  next_eq = load-store_ne 8 2 m (a + 8) (a + 6) (flag used') (inr (omega arith)) ∙ h.next_eq;
}

-- The four writes that make a fresh header, in the order of `heap_allocate`.
abbrev pub fresh_header : ℕ → ℕ → ℕ → Mem → Mem
fresh_header a size next m =
    set_flags a 1 (set_signature a heap_node_signature (set_size a size (set_next a next m)))

pub fresh_header-Header :
    (m : Mem) (a size next : ℕ)
    → size < w32
    → next < w64
    → Header (fresh_header a size next m) a size true next
unfolding set_size set_signature set_flags set_next node_size node_signature node_flags node_next
fresh_header-Header m a size next ls ln =
    let m1 = store 8 m (a + 8) next in
    let m2 = store 4 m1 a (size % w32) in
    let m3 = store 2 m2 (a + 4) heap_node_signature in
    record {
      size_eq =
          load-store_ne 4 2 m3 a (a + 6) 1 (inl (omega arith))
          ∙ load-store_ne 4 2 m2 a (a + 4) heap_node_signature (inl (omega arith))
          ∙ load-store_self 4 m1 a (size % w32) (omega arith)
          ∙ omega arith;
      signature_eq =
          load-store_ne 2 2 m3 (a + 4) (a + 6) 1 (inl (omega arith))
          ∙ load-store_self 2 m2 (a + 4) heap_node_signature (omega arith);
      flags_eq = load-store_self 2 m3 (a + 6) 1 (omega arith);
      next_eq =
          load-store_ne 8 2 m3 (a + 8) (a + 6) 1 (inr (omega arith))
          ∙ load-store_ne 8 2 m2 (a + 8) (a + 4) heap_node_signature (inr (omega arith))
          ∙ load-store_ne 8 4 m1 (a + 8) a (size % w32) (inr (omega arith))
          ∙ load-store_self 8 m (a + 8) next (omega arith);
    }

-- The bytes outside a header that is written.
abbrev pub Outside : ℕ → ℕ → Type 0
Outside a x = (x < a) ⊎ (a + 16 ≤ x)

module _ (m : Mem) (a v x : ℕ) (o : Outside a x) where
  pub set_size_frame : set_size a v m x ≡ m x
  unfolding set_size
  set_size_frame = store_frame 4 m a (v % w32) x (grind arith)

  pub set_next_frame : set_next a v m x ≡ m x
  unfolding set_next
  set_next_frame = store_frame 8 m (a + 8) v x (grind arith)

  pub set_flags_frame : set_flags a v m x ≡ m x
  unfolding set_flags
  set_flags_frame = store_frame 2 m (a + 6) v x (grind arith)

  pub set_signature_frame : set_signature a v m x ≡ m x
  unfolding set_signature
  set_signature_frame = store_frame 2 m (a + 4) v x (grind arith)
