-- ===== src/Heap/Release.antt =====
-- `heap_free` refines `release`.
use light_loader.Common.{
  ℕ, suc, ◌+◌, ◌≤◌, ◌<◌, ◌≡◌, refl, sym, ap, ◌⊎◌, inl, inr, Bool, true, false, List, [], ◌∷◌,
  if◌then◌else◌, ◌==◌, length, w32, w64, arith, Bool-cases, ==_iff, ==_refl, lt→==_false,
}
use mathlib.Core.Path.{subst, subst₂}
use light_loader.Common.Bytes.{Mem}
use light_loader.Heap.{merge_prev}
use light_loader.Heap.Blocks.{Block, block, span, absorb, absorb_at, free_at, At, pred_of}
use light_loader.Heap.Header.{link, Chain, Header-SameOn}
use light_loader.Heap.Merge.{At-le}
use light_loader.Heap.Free.{
  mark_free_frame, mark_free-Chain, merge_prev-first, merge_prev-used, joined_frame,
  merge_prev-free, joined-Chain,
}

pub free_at-link : (x a : ℕ) (bs : List Block) → link a (free_at x a bs) ≡ link a bs
unfolding free_at
free_at-link x a [] = refl
free_at-link x a (b ∷ []) = ground arith
free_at-link x a (b ∷ c ∷ cs) = ground arith

pub span-free_at : (x a : ℕ) (bs : List Block) → span (free_at x a bs) ≡ span bs
unfolding free_at
span-free_at x a [] = refl
span-free_at x a (b ∷ []) = ground arith
span-free_at x a (b ∷ c ∷ cs) = ground (arith, span-free_at x (a + b.size) (c ∷ cs))

span-absorb : (used : Bool) (s : ℕ) (bs : List Block) → span (absorb used s bs) ≡ s + span bs
unfolding absorb
span-absorb used s [] = refl
span-absorb used s (b ∷ bs) = ground (arith, span-absorb used (s + b.size) bs)

pub span-absorb_at : (x a : ℕ) (bs : List Block) → span (absorb_at x a bs) ≡ span bs
unfolding absorb_at
span-absorb_at x a [] = refl
span-absorb_at x a (b ∷ bs) =
    ground (arith, span-absorb b.used b.size bs, span-absorb_at x (a + b.size) bs)

length-absorb :
    (used : Bool) (s : ℕ) (bs : List Block) → length (absorb used s bs) ≤ suc (length bs)
unfolding absorb
length-absorb used s [] = omega arith
length-absorb used s (b ∷ bs) = ground (arith, length-absorb used (s + b.size) bs)

pub length-absorb_at : (x a : ℕ) (bs : List Block) → length (absorb_at x a bs) ≤ length bs
unfolding absorb_at
length-absorb_at x a [] = omega arith
length-absorb_at x a (b ∷ bs) =
    ground (arith, length-absorb b.used b.size bs, length-absorb_at x (a + b.size) bs)

At-absorb : (used : Bool) (s a : ℕ) (bs : List Block) → At a a (absorb used s bs)
unfolding absorb
At-absorb used s a [] = inl refl
At-absorb used s a (b ∷ bs) = elim (Bool-cases b.used) [
  | inl u ↦ rw u (inl refl)
  | inr u ↦ rw u (At-absorb used (s + b.size) a bs)
]

pub At-absorb_at : (x a : ℕ) (bs : List Block) → At x a bs → At x a (absorb_at x a bs)
unfolding absorb_at
At-absorb_at x a [] at = at
At-absorb_at x a (b ∷ bs) (inl p) = rw (p, ==_refl a) (At-absorb b.used b.size a bs)
At-absorb_at x a (b ∷ bs) (inr q) = elim (Bool-cases (a == x)) [
  | inl e ↦ rw (e, (==_iff a x).0 e) (At-absorb b.used b.size x bs)
  | inr e ↦ rw e (inr (At-absorb_at x (a + b.size) bs q))
]

-- Memory `m'` holds the blocks `bs`, and is `m` below `a`.
abbrev pub Holds : Mem → ℕ → List Block → Mem → Type 0
Holds m a bs m' = Chain m' a bs × ((y : ℕ) → y < a → m' y ≡ m y)

Holds-of_eq :
    (m : Mem) (a : ℕ) {bs bs' : List Block} {m' m'' : Mem}
    → m' ≡ m''
    → bs ≡ bs'
    → Holds m a bs' m''
    → Holds m a bs m'
Holds-of_eq m a p q h = subst₂ (λ cs n. Holds m a cs n) (sym q) (sym p) h

-- The end of `heap_free` turns the chain into one where the block at `x` is free.
abbrev pub Freed : Mem → ℕ → ℕ → ℕ → List Block → Type 0
Freed m x below a bs = Holds m a (free_at x a bs) (merge_prev m x (pred_of x below a bs, x))

free_at-first :
    (a : ℕ) (b : Block) (bs : List Block) → free_at a a (b ∷ bs) ≡ block b.size false ∷ bs
unfolding free_at
free_at-first a b [] = rw (==_refl a)
free_at-first a b (c ∷ cs) = rw (==_refl a)

pred_of-first : (a below : ℕ) (b : Block) (bs : List Block) → pred_of a below a (b ∷ bs) ≡ below
unfolding pred_of
pred_of-first a below b bs = rw (==_refl a)

Freed-first :
    (m : Mem) (a : ℕ) (b : Block) (bs : List Block)
    → Chain m a (b ∷ bs)
    → 0 < a
    → Freed m a 0 a (b ∷ bs)
Freed-first m a b bs c pos =
    Holds-of_eq m a (rw (pred_of-first a 0 b bs) (merge_prev-first m a pos)) (free_at-first a b bs)
      (mark_free-Chain m a b bs c, λ y l. mark_free_frame m a y (inl l))

pred_of-second :
    (a below s : ℕ) (used : Bool) (d : Block) (bs : List Block)
    → 0 < s
    → pred_of (a + s) below a (block s used ∷ d ∷ bs) ≡ a
unfolding pred_of
pred_of-second a below s used d bs pos = rw (lt→==_false a (a + s) (omega arith), ==_refl (a + s))

free_at-second :
    (a s : ℕ) (used : Bool) (d : Block) (bs : List Block)
    → 0 < s
    → free_at (a + s) a (block s used ∷ d ∷ bs)
      ≡ (if used then block s true ∷ block d.size false ∷ bs else block (s + d.size) false ∷ bs)
free_at-second a s true d bs pos =
    unfold free_at in
    rw (lt→==_false a (a + s) (omega arith), ==_refl (a + s))
      (ap (λ cs. block s true ∷ cs) (free_at-first (a + s) d bs))
free_at-second a s false d bs pos =
    unfold free_at in rw (lt→==_false a (a + s) (omega arith), ==_refl (a + s))

-- The block at `a + s` is freed above the block at `a`.
Freed-second :
    (m : Mem) (a below s : ℕ) (used : Bool) (d : Block) (bs : List Block)
    → Chain m a (block s used ∷ d ∷ bs)
    → 0 < a
    → s + d.size < w32
    → a + s + d.size < w64
    → Freed m (a + s) below a (block s used ∷ d ∷ bs)
Freed-second m a below s true d bs (h, min, c) pos word top =
    Holds-of_eq m a
      (rw (pred_of-second a below s true d bs (omega arith))
        (merge_prev-used m (a + s) h (omega arith) pos))
      (free_at-second a s true d bs (omega arith))
      (
        (
          Header-SameOn (λ y l u. mark_free_frame m (a + s) y (inl (omega arith))) h,
          min,
          mark_free-Chain m (a + s) d bs c,
        ),
        λ y l. mark_free_frame m (a + s) y (inl (omega arith)),
      )
Freed-second m a below s false d bs (h, min, (g, gmin, c)) pos word top =
    Holds-of_eq m a
      (rw (pred_of-second a below s false d bs (omega arith)) (merge_prev-free bs h g pos min word))
      (free_at-second a s false d bs (omega arith))
      (joined-Chain bs h g min word top c, λ y l. joined_frame bs h g y (inl l))

-- A block further up is freed: the first block stays.
Freed-later :
    (m : Mem) (x below a : ℕ) (b d : Block) (bs : List Block)
    → Chain m a (b ∷ d ∷ bs)
    → a + b.size < x
    → Freed m x a (a + b.size) (d ∷ bs)
    → Freed m x below a (b ∷ d ∷ bs)
Freed-later m x below a b d bs (h, min, c) lt (c', frame) =
    Holds-of_eq m a (ap (λ p. merge_prev m x (p, x)) pred_later) free_later (
      (
        rw (free_at-link x (a + b.size) (d ∷ bs))
            (Header-SameOn (λ y l u. frame y (omega arith)) h),
        min,
        c',
      ),
      λ y l. frame y (omega arith),
    )
  where
    pred_later : pred_of x below a (b ∷ d ∷ bs) ≡ pred_of x a (a + b.size) (d ∷ bs)
    pred_later = unfold pred_of in rw (lt→==_false a x (omega arith))

    free_later : free_at x a (b ∷ d ∷ bs) ≡ b ∷ free_at x (a + b.size) (d ∷ bs)
    free_later = unfold free_at in rw (lt→==_false a x (omega arith), lt→==_false (a + b.size) x lt)

pub merge_prev-Freed :
    (m : Mem) (x below a : ℕ) (bs : List Block)
    → Chain m a bs
    → At x a bs
    → 0 < a
    → span bs < w32
    → a + span bs < w64
    → (below ≡ 0) ⊎ (a < x)
    → Freed m x below a bs
merge_prev-Freed m x below a [] c at pos word top o = absurd at
merge_prev-Freed m x below a (b ∷ bs) c (inl e) pos word top (inl z) =
    subst₂ (λ k l. Freed m k l a (b ∷ bs)) (sym e) (sym z) (Freed-first m a b bs c pos)
merge_prev-Freed m x below a (b ∷ bs) c (inl e) pos word top (inr lt) = absurd (omega arith)
merge_prev-Freed m x below a (b ∷ []) c (inr at) pos word top o = absurd at
merge_prev-Freed m x below a (b ∷ d ∷ bs) c (inr (inl e)) pos word top o =
    subst (λ k. Freed m k below a (b ∷ d ∷ bs)) (sym e)
      (Freed-second m a below b.size b.used d bs c pos (omega arith) (omega arith))
merge_prev-Freed m x below a (b ∷ d ∷ bs) c (inr (inr at)) pos word top o =
    let le = At-le x (a + b.size + d.size) bs at in
    let min = c.1 in
    let gmin = c.2.1 in
    Freed-later m x below a b d bs c (omega arith) (
      merge_prev-Freed m x a (a + b.size) (d ∷ bs) c.2 (inr at) (omega arith) (omega arith)
        (omega arith) (inr (omega arith)))
