-- ===== src/Boot/Collapse.antt =====
-- The collapse of a multiboot memory map, in which different types of the loader have become one.
use light_loader.Common.{
  ℕ, ◌+◌, ◌<◌, ◌≡◌, ◌≢◌, sym, ◌∙◌, le-or-lt, ◌⊎◌, ◌↔◌, inl, inr, List, [], ◌∷◌, add64, w64, arith,
}
use mathlib.Core.Path.{subst}
use light_loader.Boot.{MultibootEntry, collapse_loop, collapse_mmap}
use light_loader.Boot.Merge.{MultibootCovered, both, chain}

-- No entry wraps around, and there is no gap between two of the same type in a row.
abbrev pub MultibootFollows : MultibootEntry → List MultibootEntry → Type 0
MultibootFollows e [] = Unit {0}
MultibootFollows e (n ∷ es) = (e.mb_type ≡ n.mb_type) → n.addr ≡ e.addr + e.len

abbrev pub MultibootSeamless : List MultibootEntry → Type 0
MultibootSeamless [] = Unit {0}
MultibootSeamless (e ∷ es) = (e.addr + e.len < w64) × MultibootFollows e es × MultibootSeamless es

-- No two entries in a row have the same type.
abbrev pub Differs : MultibootEntry → List MultibootEntry → Type 0
Differs e [] = Unit {0}
Differs e (n ∷ es) = e.mb_type ≢ n.mb_type

abbrev pub Alternates : List MultibootEntry → Type 0
Alternates [] = Unit {0}
Alternates (e ∷ es) = Differs e es × Alternates es

-- The entry at hand, when it has taken the next one.
abbrev joined : MultibootEntry → MultibootEntry → MultibootEntry
joined e n = record e { len = add64 e.len n.len }

joined-Covered :
    (a t : ℕ) (e n : MultibootEntry) (es : List MultibootEntry)
    → e.mb_type ≡ n.mb_type
    → n.addr ≡ e.addr + e.len
    → n.addr + n.len < w64
    → MultibootCovered a t (joined e n ∷ es) ↔ MultibootCovered a t (e ∷ n ∷ es)
joined-Covered a t e n es y f w = (there, back)
  where
    there : MultibootCovered a t (joined e n ∷ es) → MultibootCovered a t (e ∷ n ∷ es)
    there (inr h) = inr (inr h)
    there (inl h) = elim (le-or-lt (e.addr + e.len) a) [
      | inl l ↦ inr (inl (omega arith, omega arith, omega arith))
      | inr l ↦ inl (h.0, h.1, l)
    ]

    back : MultibootCovered a t (e ∷ n ∷ es) → MultibootCovered a t (joined e n ∷ es)
    back (inl h) = inl (h.0, h.1, omega arith)
    back (inr (inl h)) = inl (omega arith, omega arith, omega arith)
    back (inr (inr h)) = inr h

joined-Seamless :
    (e n : MultibootEntry) (es : List MultibootEntry)
    → e.mb_type ≡ n.mb_type
    → MultibootSeamless (e ∷ n ∷ es)
    → MultibootSeamless (joined e n ∷ es)
joined-Seamless e n [] y (w, f, (v, g, s)) = (omega (arith, f y), tt, tt)
joined-Seamless e n (k ∷ es) y (w, f, (v, g, s)) =
    (omega (arith, f y), (λ z. omega (arith, f y, g (sym y ∙ z))), s)

collapse_loop_step :
    (e n : MultibootEntry) (es : List MultibootEntry)
    → ((e.mb_type ≢ n.mb_type) × (collapse_loop e (n ∷ es) ≡ e ∷ collapse_loop n es))
      ⊎ ((e.mb_type ≡ n.mb_type) × (collapse_loop e (n ∷ es) ≡ collapse_loop (joined e n) es))
unfolding collapse_loop
collapse_loop_step e n es = ground arith

collapse_loop-Covered :
    (a t : ℕ) (e : MultibootEntry) (es : List MultibootEntry)
    → MultibootSeamless (e ∷ es)
    → MultibootCovered a t (collapse_loop e es) ↔ MultibootCovered a t (e ∷ es)
unfolding collapse_loop
collapse_loop-Covered a t e [] s = ((λ h. h), λ h. h)
collapse_loop-Covered a t e (n ∷ es) s = elim (collapse_loop_step e n es) [
  | inl d ↦
      subst (λ l. MultibootCovered a t l ↔ MultibootCovered a t (e ∷ n ∷ es)) (sym d.1)
        (both ((λ h. h), λ h. h) (collapse_loop-Covered a t n es s.2))
  | inr y ↦
      subst (λ l. MultibootCovered a t l ↔ MultibootCovered a t (e ∷ n ∷ es)) (sym y.1)
        (chain (collapse_loop-Covered a t (joined e n) es (joined-Seamless e n es y.0 s))
          (joined-Covered a t e n es y.0 (s.1 y.0) s.2.0))
]

collapse_loop-Differs :
    (k e : MultibootEntry) (es : List MultibootEntry)
    → k.mb_type ≢ e.mb_type
    → Differs k (collapse_loop e es)
unfolding collapse_loop
collapse_loop-Differs k e [] d = d
collapse_loop-Differs k e (n ∷ es) d = elim (collapse_loop_step e n es) [
  | inl c ↦ subst (Differs k) (sym c.1) d
  | inr y ↦ subst (Differs k) (sym y.1) (collapse_loop-Differs k (joined e n) es d)
]

collapse_loop-Alternates :
    (e : MultibootEntry) (es : List MultibootEntry) → Alternates (collapse_loop e es)
unfolding collapse_loop
collapse_loop-Alternates e [] = (tt, tt)
collapse_loop-Alternates e (n ∷ es) = elim (collapse_loop_step e n es) [
  | inl c ↦
      subst Alternates (sym c.1) (collapse_loop-Differs e n es c.0, collapse_loop-Alternates n es)
  | inr y ↦ subst Alternates (sym y.1) (collapse_loop-Alternates (joined e n) es)
]

-- For a map in which no entry wraps around and no gap lies between two entries of the same type in a
-- row: in the result no two entries in a row have the same type, and the result covers each address
-- with the same types as the map.
pub collapse_mmap-Alternates :
    (es : List MultibootEntry)
    → MultibootSeamless es
    → Alternates (collapse_mmap es)
      × ((a t : ℕ) → MultibootCovered a t (collapse_mmap es) ↔ MultibootCovered a t es)
unfolding collapse_mmap
collapse_mmap-Alternates [] s = (tt, λ a t. ((λ h. h), λ h. h))
collapse_mmap-Alternates (e ∷ es) s =
    (collapse_loop-Alternates e es, λ a t. collapse_loop-Covered a t e es s)
