-- ===== src/Boot/Tags.antt =====
-- The tags of the boot information that add_multiboot_tag puts behind one another.
use light_loader.Common.{
  ℕ, ◌+◌, ◌-◌, ◌%◌, ◌≤◌, ◌<◌, ◌≡◌, sym, ◌∙◌, inl, inr, List, [], ◌∷◌, ◌++◌, add64, w32, w64, arith,
}
use mathlib.Core.Path.{subst, ap}
use light_loader.Common.Bytes.{
  Mem, load, store, SameOn, load-SameOn, load-store_self, load-store_ne, store_frame,
}
use light_loader.Fat.Write.{align_up32}
use light_loader.Memory.{memset}
use light_loader.Memory.Copy.{memset_lem}
use light_loader.Boot.{TagBuffer, add_multiboot_tag}

-- The tags with the given types and sizes lie in memory from `a` up to `e`, each at the next multiple
-- of 8 behind the one before.
abbrev pub TagsAt : Mem → ℕ → List (ℕ × ℕ) → ℕ → Type 0
TagsAt m a [] e = a ≡ e
TagsAt m a (t ∷ ts) e =
    (8 ≤ t.1)
    × (t.1 + 8 < w32)
    × (load 4 m a ≡ t.0)
    × (load 4 m (a + 4) ≡ t.1)
    × TagsAt m (a + align_up32 t.1 8) ts e

pub align_up32_eight :
    (s : ℕ)
    → s + 8 < w32
    → (s ≤ align_up32 s 8) × (align_up32 s 8 < s + 8) × (align_up32 s 8 % 8 ≡ 0)
unfolding align_up32
align_up32_eight s h = (ground arith, ground arith, ground arith)

TagsAt-end : (m : Mem) (a : ℕ) (ts : List (ℕ × ℕ)) (e : ℕ) → TagsAt m a ts e → a ≤ e
TagsAt-end m a [] e h = omega arith
TagsAt-end m a (t ∷ ts) e (l, u, x, y, h) =
    omega (arith, TagsAt-end m (a + align_up32 t.1 8) ts e h)

-- They stay when the bytes up to their end do.
TagsAt-frame :
    (m m' : Mem) (a : ℕ) (ts : List (ℕ × ℕ)) (e : ℕ)
    → SameOn m m' a e
    → TagsAt m a ts e
    → TagsAt m' a ts e
TagsAt-frame m m' a [] e s h = h
TagsAt-frame m m' a (t ∷ ts) e s (l, u, x, y, h) =
    let r = align_up32_eight t.1 u in
    let le = TagsAt-end m (a + align_up32 t.1 8) ts e h in
    (
      l,
      u,
      load-SameOn 4 m m' a e (omega (arith, r.0)) s ∙ x,
      load-SameOn 4 m m' (a + 4) e (omega (arith, r.0)) (λ k lo hi. s k (omega arith) hi) ∙ y,
      TagsAt-frame m m' (a + align_up32 t.1 8) ts e (λ k lo hi. s k (omega arith) hi) h,
    )

TagsAt-append :
    (m : Mem) (a : ℕ) (ts : List (ℕ × ℕ)) (e : ℕ) (t : ℕ × ℕ) (e' : ℕ)
    → TagsAt m a ts e
    → TagsAt m e (t ∷ []) e'
    → TagsAt m a (ts ++ (t ∷ [])) e'
TagsAt-append m a [] e t e' h g = subst (λ k. TagsAt m k (t ∷ []) e') (sym h) g
TagsAt-append m a (s ∷ ts) e t e' (l, u, x, y, h) g =
    (l, u, x, y, TagsAt-append m (a + align_up32 s.1 8) ts e t e' h g)

-- The place of the next tag.
abbrev pub next_tag : TagBuffer → ℕ
next_tag b = b.multiboot_buffer + b.current_multiboot_tag

-- A tag's header lies where it was written, and nothing before it changes.
add_multiboot_tag_memory :
    (b : TagBuffer) (type size : ℕ)
    → 8 ≤ size
    → size + 8 < w32
    → type < w32
    → next_tag b + size + 8 < w64
    → (let new = (add_multiboot_tag b type size).0 in
        (load 4 new.memory (next_tag b) ≡ type)
        × (load 4 new.memory (next_tag b + 4) ≡ size)
        × ((x : ℕ) → x < next_tag b → new.memory x ≡ b.memory x)
        × ((x : ℕ) → next_tag b + 8 ≤ x → x < next_tag b + size → new.memory x ≡ 0)
        × (next_tag new ≡ next_tag b + align_up32 size 8))
unfolding add_multiboot_tag
add_multiboot_tag_memory b type size l u t w =
    let at : add64 b.multiboot_buffer b.current_multiboot_tag ≡ next_tag b = omega arith in
    let m0 = memset b.memory (next_tag b) 0 size in
    let m1 = store 4 m0 (next_tag b) type in
    let zeroed = memset_lem b.memory (next_tag b) 0 size (omega arith) in
    rw at (
      load-store_ne 4 4 m1 (next_tag b) (next_tag b + 4) size (inl (omega arith))
          ∙ load-store_self 4 m0 (next_tag b) type t,
      load-store_self 4 m1 (next_tag b + 4) size (omega arith),
      λ x h.
          store_frame 4 m1 (next_tag b + 4) size x (inl (omega arith))
          ∙ store_frame 4 m0 (next_tag b) type x (inl (omega arith))
          ∙ zeroed.1 x (inl h),
      λ x lo hi.
          store_frame 4 m1 (next_tag b + 4) size x (inr (omega arith))
          ∙ store_frame 4 m0 (next_tag b) type x (inr (omega arith))
          ∙ ap m0 (omega arith)
          ∙ zeroed.0 (x - next_tag b) (omega arith),
      omega (arith, align_up32_eight size u),
    )

add_multiboot_tag_place :
    (b : TagBuffer) (type size : ℕ)
    → next_tag b < w64
    → (add_multiboot_tag b type size).1 ≡ next_tag b
unfolding add_multiboot_tag
add_multiboot_tag_place b type size w = omega arith

-- For a tag of at least 8 bytes whose size is below 2 ^ 32 - 8 and whose type has 32 bits, at a place
-- that does not wrap around, also with the tag and 8 bytes more: if tags fill the memory from an
-- address up to that place, they and the new tag fill it up to the next place, also in a memory in
-- which the caller has written behind the new tag's first 8 bytes; the bytes before the tag stay, and
-- the rest of the tag is cleared.
pub add_multiboot_tag-TagsAt :
    (b : TagBuffer) (type size a : ℕ) (ts : List (ℕ × ℕ)) (m : Mem)
    → 8 ≤ size
    → size + 8 < w32
    → type < w32
    → next_tag b + size + 8 < w64
    → TagsAt b.memory a ts (next_tag b)
    → SameOn (add_multiboot_tag b type size).0.memory m a ((add_multiboot_tag b type size).1 + 8)
    → (let (new, tag) = add_multiboot_tag b type size in
        (tag ≡ next_tag b)
        × TagsAt m a (ts ++ ((type, size) ∷ [])) (next_tag new)
        × SameOn b.memory new.memory 0 tag
        × SameOn (λ x. 0) new.memory (tag + 8) (tag + size))
add_multiboot_tag-TagsAt b type size a ts m l u t w h s =
    let new = (add_multiboot_tag b type size).0 in
    let place = add_multiboot_tag_place b type size (omega arith) in
    let (ht, hs, below, rest, next) = add_multiboot_tag_memory b type size l u t w in
    let start = TagsAt-end b.memory a ts (next_tag b) h in
    let old =
      TagsAt-frame b.memory m a ts (next_tag b)
        (λ x lo hi. s x lo (omega (arith, place)) ∙ below x hi) h in
    let header : TagsAt m (next_tag b) ((type, size) ∷ []) (next_tag new) = (
      l,
      u,
      load-SameOn 4 new.memory m (next_tag b) (next_tag b + 8) (omega arith)
            (λ x lo hi. s x (omega arith) (omega (arith, place)))
          ∙ ht,
      load-SameOn 4 new.memory m (next_tag b + 4) (next_tag b + 8) (omega arith)
            (λ x lo hi. s x (omega arith) (omega (arith, place)))
          ∙ hs,
      sym next,
    ) in
    (
      place,
      TagsAt-append m a ts (next_tag b) (type, size) (next_tag new) old header,
      λ x lo hi. below x (omega (arith, place)),
      λ x lo hi. rest x (omega (arith, place)) (omega (arith, place)),
    )
