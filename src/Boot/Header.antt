-- ===== src/Boot/Header.antt =====
-- The multiboot header of a kernel, and the tags in it.
use light_loader.Common.{
  ℕ, zero, suc, ◌+◌, ◌*◌, ◌≤◌, ◌<◌, ◌≡◌, ◌≢◌, ◌↔◌, refl, sym, ◌∙◌, ap, ◌⊎◌, inl, inr, ◌==◌,
  gt→==_false, ge→ltb, lt→ltb, if◌then◌else◌, Bool, true, false, Option, none, some, List, [], ◌∷◌,
  length, add64, add32, w64, arith,
}
use mathlib.Core.Path.{subst}
use light_loader.Common.Bytes.{Mem, load}
use light_loader.Fat.Write.{align_up32}
use light_loader.Boot.{search_header, find_mb_header, header_tag_loop, get_multiboot_header_tag}

-- The magic number stands at the address.
abbrev pub IsMagic : Mem → ℕ → Type 0
IsMagic m h = load 4 m h ≡ 0xe85250d6

-- The four fields of a header at the address add up to 0.
abbrev pub IsValid : Mem → ℕ → Type 0
IsValid m h =
    add32 (add32 (add32 (load 4 m h) (load 4 m (h + 8))) (load 4 m (h + 4))) (load 4 m (h + 12)) ≡ 0

-- `h` is the first of `n` places from `i` on with the magic number, and a valid header.
abbrev pub FirstHeader : ℕ → Mem → ℕ → ℕ → ℕ → Type 0
FirstHeader n m buffer i h =
    (k : ℕ) × (k < n)
    × (h ≡ add64 buffer (i + 8 * k))
    × IsMagic m h
    × IsValid m h
    × ((j : ℕ) → j < k → load 4 m (add64 buffer (i + 8 * j)) ≢ 0xe85250d6)

search_header_step :
    (n : ℕ) (m : Mem) (buffer i : ℕ)
    → ((load 4 m (add64 buffer i) ≢ 0xe85250d6)
        × (search_header (suc n) m buffer i ≡ search_header n m buffer (i + 8)))
      ⊎ ((IsMagic m (add64 buffer i)
            × IsValid m (add64 buffer i)
            × (search_header (suc n) m buffer i ≡ some (add64 buffer i)))
          ⊎ (IsMagic m (add64 buffer i)
              × (IsValid m (add64 buffer i) → ⊥)
              × (search_header (suc n) m buffer i ≡ none)))
unfolding search_header
search_header_step n m buffer i = grind arith

none-some : {A : Type 0} {x : A} {o : Option A} → o ≡ none → o ≡ some x → ⊥
none-some p q = cc

some-some : {A : Type 0} {x y : A} {o : Option A} → o ≡ some x → o ≡ some y → x ≡ y
some-some p q = cc

-- A first header at the first place, and one behind it.
FirstHeader-here :
    (n : ℕ) (m : Mem) (buffer i : ℕ)
    → IsMagic m (add64 buffer i)
    → IsValid m (add64 buffer i)
    → FirstHeader (suc n) m buffer i (add64 buffer i)
FirstHeader-here n m buffer i g v =
    (0, omega arith, ap (add64 buffer) (omega arith), g, v, λ j l e. omega arith)

FirstHeader-later :
    (n : ℕ) (m : Mem) (buffer i h : ℕ)
    → load 4 m (add64 buffer i) ≢ 0xe85250d6
    → FirstHeader n m buffer (i + 8) h ↔ FirstHeader (suc n) m buffer i h
FirstHeader-later n m buffer i h d = (there, back)
  where
    shift : (k : ℕ) → add64 buffer ((i + 8) + 8 * k) ≡ add64 buffer (i + 8 * suc k)
    shift k = ap (add64 buffer) (omega arith)

    there : FirstHeader n m buffer (i + 8) h → FirstHeader (suc n) m buffer i h
    there (k, l, e, g, v, none_) = (suc k, omega arith, e ∙ shift k, g, v, before)
      where
        before : (j : ℕ) → j < suc k → load 4 m (add64 buffer (i + 8 * j)) ≢ 0xe85250d6
        before zero lt e' = d (ap (λ x. load 4 m (add64 buffer x)) (omega arith) ∙ e')
        before (suc j) lt e' = none_ j (omega arith) (ap (load 4 m) (shift j) ∙ e')

    back : FirstHeader (suc n) m buffer i h → FirstHeader n m buffer (i + 8) h
    back (zero, l, e, g, v, none_) =
        absurd (d (ap (load 4 m) (ap (add64 buffer) (omega arith) ∙ sym e) ∙ g))
    back (suc k, l, e, g, v, none_) = (
      k,
      omega arith,
      e ∙ sym (shift k),
      g,
      v,
      λ j lt e'. none_ (suc j) (omega arith) (ap (load 4 m) (sym (shift j)) ∙ e'),
    )

FirstHeader-first :
    (n : ℕ) (m : Mem) (buffer i h : ℕ)
    → IsMagic m (add64 buffer i)
    → FirstHeader (suc n) m buffer i h
    → (h ≡ add64 buffer i) × IsValid m (add64 buffer i)
FirstHeader-first n m buffer i h g (zero, l, e, g', v, none_) =
    let here : h ≡ add64 buffer i = e ∙ ap (add64 buffer) (omega arith) in
    (here, subst (IsValid m) here v)
FirstHeader-first n m buffer i h g (suc k, l, e, g', v, none_) =
    absurd (none_ 0 (omega arith) (ap (λ x. load 4 m (add64 buffer x)) (omega arith) ∙ g))

search_header_iff :
    (n : ℕ) (m : Mem) (buffer i h : ℕ)
    → (search_header n m buffer i ≡ some h) ↔ FirstHeader n m buffer i h
unfolding search_header
search_header_iff zero m buffer i h =
    ((λ e. absurd (none-some refl e)), λ f. absurd (omega (arith, f.1)))
search_header_iff (suc n) m buffer i h = elim (search_header_step n m buffer i) [
  | inl (d, e) ↦
      let rest = search_header_iff n m buffer (i + 8) h in
      let later = FirstHeader-later n m buffer i h d in
      ((λ p. later.0 (rest.0 (sym e ∙ p))), λ f. e ∙ rest.1 (later.1 f))
  | inr (inl (g, v, e)) ↦ (
    λ p. subst (FirstHeader (suc n) m buffer i) (some-some e p) (FirstHeader-here n m buffer i g v),
    λ f. e ∙ ap some (sym (FirstHeader-first n m buffer i h g f).0),
  )
  | inr (inr (g, v, e)) ↦
      (λ p. absurd (none-some e p), λ f. absurd (v (FirstHeader-first n m buffer i h g f).1))
]

-- The search gives an address exactly when it is the first of the 4096 places, 8 bytes apart, with
-- the magic number, and the fields of the header there add up to 0.
pub find_mb_header_iff :
    (m : Mem) (buffer h : ℕ) → (find_mb_header m buffer ≡ some h) ↔ FirstHeader 4096 m buffer 0 h
unfolding find_mb_header
find_mb_header_iff m buffer h = search_header_iff 4096 m buffer 0 h

-- The tags with the given types and sizes lie in a header from `tag` on, below the limit, and behind
-- them an end tag or the limit.
abbrev pub HeaderTags : Mem → ℕ → ℕ → List (ℕ × ℕ) → Type 0
HeaderTags m limit tag [] = (limit ≤ tag) ⊎ (load 2 m tag ≡ 0)
HeaderTags m limit tag (t ∷ ts) =
    (tag < limit)
    × (0 < t.0)
    × (load 2 m tag ≡ t.0)
    × (load 4 m (tag + 4) ≡ t.1)
    × HeaderTags m limit (add64 tag (align_up32 t.1 8)) ts

-- The address of the first tag with the type.
abbrev pub first_tag : ℕ → ℕ → List (ℕ × ℕ) → Option ℕ
first_tag type tag [] = none
first_tag type tag (t ∷ ts) =
    let rest = first_tag type (add64 tag (align_up32 t.1 8)) ts in
    if t.0 == type then some tag else rest

if_some :
    {o : Option (Option ℕ)} {r : Option ℕ} (b : Bool) (a : ℕ)
    → o ≡ some r
    → (if b then some (some a) else o) ≡ some (if b then some a else r)
if_some true a e = refl
if_some false a e = e

header_tag_loop_lem :
    (n : ℕ) (m : Mem) (limit type tag : ℕ) (ts : List (ℕ × ℕ))
    → length ts ≤ n
    → HeaderTags m limit tag ts
    → header_tag_loop (suc n) m limit type tag ≡ some (first_tag type tag ts)
unfolding header_tag_loop
header_tag_loop_lem n m limit type tag [] l (inl h) = rw (ge→ltb tag limit h) refl
header_tag_loop_lem n m limit type tag [] l (inr h) = ground (arith, h)
header_tag_loop_lem zero m limit type tag (t ∷ ts) l h = absurd (omega arith)
header_tag_loop_lem (suc n) m limit type tag (t ∷ ts) l (b, p, x, y, h) =
    rw (lt→ltb tag limit b, x, gt→==_false t.0 0 p, y)
      (if_some (t.0 == type) tag
        (header_tag_loop_lem n m limit type (add64 tag (align_up32 t.1 8)) ts (omega arith) h))

-- For a header whose tags lie below its end, with an end tag or the end behind them: with more rounds
-- than tags, the result is the first tag with the type, or null if there is none.
pub get_multiboot_header_tag-first_tag :
    (n : ℕ) (m : Mem) (header type : ℕ) (ts : List (ℕ × ℕ))
    → length ts < n
    → HeaderTags m (add64 header (load 4 m (header + 8))) (add64 header 16) ts
    → get_multiboot_header_tag n m header type ≡ some (first_tag type (add64 header 16) ts)
unfolding get_multiboot_header_tag
get_multiboot_header_tag-first_tag zero m header type ts l h = absurd (omega arith)
get_multiboot_header_tag-first_tag (suc n) m header type ts l h =
    header_tag_loop_lem n m (add64 header (load 4 m (header + 8))) type (add64 header 16) ts
      (omega arith) h

still : (tag : ℕ) → tag < w64 → add64 tag (align_up32 0 8) ≡ tag
unfolding align_up32
still tag w = omega arith

header_tag_loop_endless :
    (n : ℕ) (m : Mem) (limit type tag : ℕ)
    → tag < limit
    → load 2 m tag ≢ 0
    → load 2 m tag ≢ type
    → load 4 m (tag + 4) ≡ 0
    → tag < w64
    → header_tag_loop n m limit type tag ≡ none
unfolding header_tag_loop
header_tag_loop_endless zero m limit type tag l z d s w = refl
header_tag_loop_endless (suc n) m limit type tag l z d s w =
    let stay : add64 tag (align_up32 (load 4 m (tag + 4)) 8) ≡ tag =
      ap (λ k. add64 tag (align_up32 k 8)) s ∙ still tag w in
    rw stay (ground (arith, header_tag_loop_endless n m limit type tag l z d s w))

-- A tag of size 0 that is not the one looked for keeps the search at its place: no number of rounds
-- is enough.
get_multiboot_header_tag_endless :
    (n : ℕ) (m : Mem) (header type : ℕ)
    → add64 header 16 < add64 header (load 4 m (header + 8))
    → load 2 m (add64 header 16) ≢ 0
    → load 2 m (add64 header 16) ≢ type
    → load 4 m (add64 header 16 + 4) ≡ 0
    → get_multiboot_header_tag n m header type ≡ none
unfolding get_multiboot_header_tag
get_multiboot_header_tag_endless n m header type l z d s =
    header_tag_loop_endless n m (add64 header (load 4 m (header + 8))) type (add64 header 16) l z d
      s (omega arith)
