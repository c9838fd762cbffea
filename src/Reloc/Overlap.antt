-- ===== src/Reloc/Overlap.antt =====
-- The overlap test of common/relocations.c.
use light_loader.Common.{
  ℕ, ◌+◌, ◌≤◌, ◌<◌, ◌≡◌, ◌⊎◌, ◌↔◌, inl, inr, refl, sym, ◌∙◌, true, false, List, [], ◌∷◌, w64, arith,
}
use light_loader.Reloc.{Relocation, relocation_does_overlap}

-- Every relocation lies before `from` or behind `to`, with a gap.
abbrev pub AllApart : ℕ → ℕ → List Relocation → Type 0
AllApart from to [] = Unit {0}
AllApart from to (i ∷ is) = ((i.target + i.size < from) ⊎ (to < i.target)) × AllApart from to is

-- No relocation wraps around.
abbrev pub NoneWraps : List Relocation → Type 0
NoneWraps [] = Unit {0}
NoneWraps (i ∷ is) = (i.target + i.size < w64) × NoneWraps is

overlap_step :
    (i : Relocation) (is : List Relocation) (addr size : ℕ)
    → i.target + i.size < w64
    → addr + size < w64
    → (((i.target + i.size < addr) ⊎ (addr + size < i.target))
        × (relocation_does_overlap (i ∷ is) addr size ≡ relocation_does_overlap is addr size))
      ⊎ ((addr ≤ i.target + i.size)
          × (i.target ≤ addr + size)
          × (relocation_does_overlap (i ∷ is) addr size ≡ true))
unfolding relocation_does_overlap
overlap_step i is addr size f g = grind arith

-- In a list where nothing wraps around, the test is false exactly when every relocation has a gap to
-- the region: two that touch count as overlapping.
relocation_does_overlap_iff :
    (list : List Relocation) (addr size : ℕ)
    → NoneWraps list
    → addr + size < w64
    → (relocation_does_overlap list addr size ≡ false) ↔ AllApart addr (addr + size) list
unfolding relocation_does_overlap
relocation_does_overlap_iff [] addr size f g = ((λ h. tt), λ h. refl)
relocation_does_overlap_iff (i ∷ is) addr size (w, f) g = elim (overlap_step i is addr size w g) [
  | inl s ↦
      let rest = relocation_does_overlap_iff is addr size f g in
      ((λ h. (s.0, rest.0 (sym s.1 ∙ h))), λ h. s.1 ∙ rest.1 h.1)
  | inr s ↦ ((λ h. absurd (grind (arith, h, s.2))), λ h. absurd (grind (arith, h.0)))
]
