-- ===== src/Heap/Fit.antt =====
-- The two ways in which `heap_allocate` takes a free block: whole, and by a split.
use light_loader.Common.{
  ℕ, ◌+◌, ◌-◌, ◌%◌, ◌≤◌, ◌<◌, ◌≡◌, refl, ◌∙◌, ◌⊎◌, inl, inr, Bool, true, false, not, ◌&&◌, Option,
  none, some, List, [], ◌∷◌, ◌==◌, leb, w32, w64, add64, sub64, arith,
}
use light_loader.Common.Bytes.{Mem, SameOn}
use light_loader.Heap.{
  heap_node_signature, sizeof_heap_node, set_size, set_next, set_flags, set_signature, mark_used,
  is_used, can_take, split_node,
}
use light_loader.Heap.Blocks.{Block, block, span, needed}
use light_loader.Heap.Header.{
  flag, Header, link, Chain, Header-SameOn, Chain-SameOn, set_size-Header, set_next-Header,
  set_flags-Header, fresh_header, fresh_header-Header, Outside, set_size_frame, set_next_frame,
  set_flags_frame, set_signature_frame,
}

pub needed_bounds :
    (n : ℕ) → n + 24 < w64 → (n + 16 ≤ needed n) × (needed n < n + 24) × (needed n % 8 ≡ 0)
unfolding needed
needed_bounds n h = ground arith

flag-test : (used : Bool) → (flag used % 2 == 1) ≡ used
flag-test true = refl
flag-test false = refl

flag-mark : (used : Bool) → flag used - flag used % 2 + 1 ≡ flag true
flag-mark true = refl
flag-mark false = refl

module _ {m : Mem} {a size next : ℕ} {used : Bool} (h : Header m a size used next) where
  pub is_used-eq : is_used m a ≡ used
  unfolding is_used
  is_used-eq = rw h.flags_eq (flag-test used)

  pub can_take-eq :
      (n : ℕ) → 16 ≤ size → size < w32 → can_take m a n ≡ (not used && leb (n + 16) size)
  unfolding can_take
  can_take-eq n min max =
      let e : sub64 size sizeof_heap_node ≡ size - 16 = omega arith in
      rw (is_used-eq, h.size_eq, e) (ground arith)

  pub mark_used-eq : mark_used a m ≡ set_flags a (flag true) m
  unfolding mark_used
  mark_used-eq = rw (h.flags_eq, flag-mark used)

-- What an allocation in the blocks `bs` from address `a` does to memory.
abbrev pub SameOutside : Mem → Mem → ℕ → ℕ → Type 0
SameOutside m m' a b = (x : ℕ) → (x < a) ⊎ (b ≤ x) → m' x ≡ m x

-- The bytes of the blocks in use, headers included, are what they were.
abbrev pub UsedSame : Mem → Mem → ℕ → List Block → Type 0
UsedSame m m' a [] = Unit {0}
UsedSame m m' a (b ∷ bs) =
    ((b.used ≡ true) → SameOn m m' a (a + b.size)) × UsedSame m m' (a + b.size) bs

pub record Allocated (m m' : Mem) (a : ℕ) (bs bs' : List Block) : Type 0 where
  pub chain : Chain m' a bs'
  pub outside : SameOutside m m' a (a + span bs)
  pub kept : UsedSame m m' a bs
  pub start : link a bs' ≡ link a bs

abbrev pub Grants : Mem → ℕ → List Block → Option (List Block × ℕ) → Option (Mem × ℕ) → Type 0
Grants m a bs none run = run ≡ some (m, 0)
Grants m a bs (some (bs', p)) run = (m' : Mem) × (run ≡ some (m', p)) × Allocated m m' a bs bs'

UsedSame-of_outside :
    (m m' : Mem) (a b : ℕ) (bs : List Block)
    → b ≤ a
    → ((x : ℕ) → b ≤ x → m' x ≡ m x)
    → UsedSame m m' a bs
UsedSame-of_outside m m' a b [] le s = tt
UsedSame-of_outside m m' a b (c ∷ bs) le s =
    (λ _ x l u. s x (omega arith), UsedSame-of_outside m m' (a + c.size) b bs (omega arith) s)

-- A free block that is used up.
module _ {m : Mem} {a size : ℕ} (bs : List Block) (h : Header m a size false (link (a + size) bs))
    (min : 16 ≤ size) (c : Chain m (a + size) bs) where
  pub perfect_fit :
      Allocated m (set_flags a (flag true) m) a (block size false ∷ bs) (block size true ∷ bs)
  perfect_fit =
      let frame = λ (x : ℕ) (o : Outside a x). set_flags_frame m a (flag true) x o in
      record {
        chain = (
          set_flags-Header m a true h,
          min,
          Chain-SameOn (a + size) bs (λ x l u. frame x (inr (omega arith))) c,
        );
        outside = λ x o. frame x (grind arith);
        kept = (
          λ e. cc,
          UsedSame-of_outside m (set_flags a (flag true) m) (a + size) (a + size) bs (omega arith)
              (λ x l. frame x (inr (omega arith))),
        );
        start = refl;
      }

-- The memory behind a split at `a + (size - r)`.
unfoldable pub split_mem : Mem → ℕ → ℕ → ℕ → ℕ → Mem
split_mem m a size r next =
    let c = a + (size - r) in set_size a (size - r) (set_next a c (fresh_header c r next m))

-- A free block that is split at `a + (size - r)`, with room for a header in front.
module _ {m : Mem} {a size : ℕ} (r : ℕ) (bs : List Block)
    (h : Header m a size false (link (a + size) bs)) (min : 16 ≤ r) (room : r + 16 ≤ size)
    (word : size < w32) (top : a + size < w64) where
  upper_frame :
      (x : ℕ)
      → Outside (a + (size - r)) x
      → fresh_header (a + (size - r)) r (link (a + size) bs) m x ≡ m x
  upper_frame x o =
      let c = a + (size - r) in
      let m1 = set_next c (link (a + size) bs) m in
      let m2 = set_size c r m1 in
      set_flags_frame (set_signature c heap_node_signature m2) c 1 x o
      ∙ set_signature_frame m2 c heap_node_signature x o
      ∙ set_size_frame m1 c r x o
      ∙ set_next_frame m c (link (a + size) bs) x o

  split_frame :
      (x : ℕ)
      → Outside a x
      → Outside (a + (size - r)) x
      → split_mem m a size r (link (a + size) bs) x ≡ m x
  unfolding split_mem
  split_frame x oa oc =
      let c = a + (size - r) in
      let m4 = fresh_header c r (link (a + size) bs) m in
      set_size_frame (set_next a c m4) a (size - r) x oa
      ∙ set_next_frame m4 a c x oa
      ∙ upper_frame x oc

  lower_Header :
      Header
        (set_next a (a + (size - r)) (fresh_header (a + (size - r)) r (link (a + size) bs) m))
        a
        size
        false
        (a + (size - r))
  lower_Header =
      let c = a + (size - r) in
      set_next-Header _ a c (Header-SameOn (λ x l u. upper_frame x (inl (omega arith))) h)
        (omega arith)

  link-lt : link (a + size) bs < w64
  link-lt = link_lt bs
    where
      link_lt : (cs : List Block) → link (a + size) cs < w64
      link_lt [] = omega arith
      link_lt (b ∷ cs) = top

  pub split_node-eq :
      split_node m a r ≡ (split_mem m a size r (link (a + size) bs), a + (size - r) + 16)
  unfolding split_node split_mem
  split_node-eq =
      let at : sub64 (add64 a size) r ≡ a + (size - r) = omega arith in
      let left : sub64 size r ≡ size - r = omega arith in
      let addr : add64 (a + (size - r)) 16 ≡ a + (size - r) + 16 = omega arith in
      rw (h.size_eq, h.next_eq, at, lower_Header.size_eq, left, addr)

  pub split_fit :
      Chain m (a + size) bs
      → Allocated m
          (split_mem m a size r (link (a + size) bs))
          a
          (block size false ∷ bs)
          (block (size - r) false ∷ block r true ∷ bs)
  unfolding split_mem
  split_fit c =
      let up : a + (size - r) + r ≡ a + size = omega arith in
      let frame = split_frame in
      record {
        chain = (
          set_size-Header _ a (size - r) lower_Header (omega arith),
          omega arith,
          (
            Header-SameOn
                (λ x l u.
                  set_size_frame _ a (size - r) x (inr (omega arith))
                  ∙ set_next_frame _ a (a + (size - r)) x (inr (omega arith)))
                (rw up (
                  fresh_header-Header m (a + (size - r)) r (link (a + size) bs) (omega arith)
                    link-lt)),
            min,
            rw up (
                Chain-SameOn (a + size) bs
                  (λ x l u. split_frame x (inr (omega arith)) (inr (omega arith))) c),
          ),
        );
        outside = λ x o. split_frame x (grind arith) (grind arith);
        kept = (
          λ e. cc,
          UsedSame-of_outside m (split_mem m a size r (link (a + size) bs)) (a + size) (a + size) bs
              (omega arith) (λ x l. split_frame x (inr (omega arith)) (inr (omega arith))),
        );
        start = refl;
      }
