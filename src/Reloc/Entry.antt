-- ===== src/Reloc/Entry.antt =====
-- The entry point of a file, as the loop over its segments moves it.
use light_loader.Common.{
  ℕ, ◌≡◌, refl, sym, inl, inr, ◌==◌, ltb, leb, ==_refl, ==_iff, Bool-cases, if◌then◌else◌, Bool,
  true, false, ◌&&◌, List, [], ◌∷◌, add64, sub64,
}
use mathlib.Core.Path.{subst}
use light_loader.Reloc.{Phdr, move_entry}

-- The segment holds the address.
abbrev pub holds : ℕ → Phdr → Bool
holds e p = leb p.p_vaddr e && ltb e (add64 p.p_vaddr p.p_memsz)

-- No segment holds the address.
abbrev pub NoneHolds : ℕ → List Phdr → Type 0
NoneHolds e [] = Unit {0}
NoneHolds e (p ∷ ps) = (holds e p ≡ false) × NoneHolds e ps

-- At most one segment holds the address.
abbrev pub OneHolds : ℕ → List Phdr → Type 0
OneHolds e [] = Unit {0}
OneHolds e (p ∷ ps) = ((holds e p ≡ true) → NoneHolds e ps) × OneHolds e ps

-- The entry point in physical memory: moved with the segment that holds it, if one does.
abbrev pub entry_point : ℕ → List Phdr → ℕ
entry_point e [] = e
entry_point e (p ∷ ps) =
    let rest = entry_point e ps in if holds e p then add64 (sub64 e p.p_vaddr) p.p_paddr else rest

-- The entry point as the loop moves it.
abbrev pub moved : ℕ → List Phdr → ℕ → ℕ
moved e [] cur = cur
moved e (p ∷ ps) cur = moved e ps (move_entry e p cur)

move_entry_away : (e : ℕ) (p : Phdr) (cur : ℕ) → (cur == e) ≡ false → move_entry e p cur ≡ cur
unfolding move_entry
move_entry_away e p cur h = rw h refl

move_entry_outside : (e : ℕ) (p : Phdr) → holds e p ≡ false → move_entry e p e ≡ e
unfolding move_entry
move_entry_outside e p h = rw (==_refl e, h) refl

move_entry_inside :
    (e : ℕ) (p : Phdr) → holds e p ≡ true → move_entry e p e ≡ add64 (sub64 e p.p_vaddr) p.p_paddr
unfolding move_entry
move_entry_inside e p h = rw (==_refl e, h) refl

moved_away : (e : ℕ) (ps : List Phdr) (cur : ℕ) → (cur == e) ≡ false → moved e ps cur ≡ cur
moved_away e [] cur h = refl
moved_away e (p ∷ ps) cur h = rw (move_entry_away e p cur h) (moved_away e ps cur h)

moved_outside : (e : ℕ) (ps : List Phdr) → NoneHolds e ps → moved e ps e ≡ e
moved_outside e [] h = refl
moved_outside e (p ∷ ps) (n, h) = rw (move_entry_outside e p n) (moved_outside e ps h)

-- Once moved, the entry point stays where no other segment holds it.
moved_once : (e : ℕ) (ps : List Phdr) (cur : ℕ) → NoneHolds e ps → moved e ps cur ≡ cur
moved_once e ps cur h = elim (Bool-cases (cur == e)) [
  | inl t ↦ subst (λ c. moved e ps c ≡ c) (sym ((==_iff cur e).0 t)) (moved_outside e ps h)
  | inr f ↦ moved_away e ps cur f
]

pub moved_lem : (e : ℕ) (ps : List Phdr) → OneHolds e ps → moved e ps e ≡ entry_point e ps
moved_lem e [] h = refl
moved_lem e (p ∷ ps) (once, h) = elim (Bool-cases (holds e p)) [
  | inl t ↦
      rw (move_entry_inside e p t, t)
        (moved_once e ps (add64 (sub64 e p.p_vaddr) p.p_paddr) (once t))
  | inr f ↦ rw (move_entry_outside e p f, f) (moved_lem e ps h)
]
