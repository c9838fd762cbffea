-- ===== src/Fat/Directory/Find.antt =====
-- The loops over a directory's entries pick from the list of the entries that are shown.
use light_loader.Common.{
  ℕ, zero, suc, ◌+◌, ◌-◌, ◌≡◌, refl, ◌⊎◌, inl, inr, Bool, false, ◌==◌, if◌then◌else◌, arith, List,
  [], ◌∷◌, get_elem?, Option, none, some, Bool-cases, ℤ, pos, negsuc,
}
use light_loader.Common.Bytes.{Mem}
use light_loader.Fat.Directory.{entry_at, dir_attr, same_name, find_name, find_idx}

-- The entries that are shown, of `n` from `i` on: up to the first whose name begins with 0, those
-- that are neither free nor part of a long name.
unfoldable pub shown : ℕ → Mem → ℕ → List ℕ
shown zero entries i = []
shown (suc n) entries i =
    let rest = shown n entries (i + 1) in
    if entry_at entries i 0 == b' '
    then rest
    else if entry_at entries i 0 == 0
    then []
    else if dir_attr (entry_at entries i) == 0x0f
    then rest
    else i ∷ rest

unfoldable pub first_where : (ℕ → Bool) → List ℕ → Option ℕ
first_where test [] = none
first_where test (x ∷ xs) = if test x then some x else first_where test xs

-- The entry is the one that is picked; an error is 0 with an entry, and without one what it was, -3
-- (the end) or -4 (only a long name).
abbrev pub Picks : Option ℕ → ℤ → ℤ × Option ℕ → Type 0
Picks (some i) error (e, found) = (found ≡ some i) × (e ≡ pos 0)
Picks none error (e, found) = (found ≡ none) × ((e ≡ error) ⊎ ((e ≡ negsuc 2) ⊎ (e ≡ negsuc 3)))

Picks-long : (o : Option ℕ) (error : ℤ) (r : ℤ × Option ℕ) → Picks o (negsuc 3) r → Picks o error r
Picks-long (some i) error (e, found) h = h
Picks-long none error (e, found) (f, inl q) = (f, inr (inr q))
Picks-long none error (e, found) (f, inr q) = (f, inr q)

-- The search for a name picks the first shown entry with the name.
pub find_name-Picks :
    (n : ℕ) (name entries : Mem) (i : ℕ) (error : ℤ)
    → Picks
        (first_where (λ k. same_name name (entry_at entries k)) (shown n entries i))
        error
        (find_name n name entries i error)
unfolding find_name shown first_where
find_name-Picks zero name entries i error = (refl, inl refl)
find_name-Picks (suc n) name entries i error = elim (Bool-cases (entry_at entries i 0 == b' ')) [
  | inl free ↦ rw free (find_name-Picks n name entries (i + 1) error)
  | inr used ↦ elim (Bool-cases (entry_at entries i 0 == 0)) [
    | inl end ↦ rw (used, end) (refl, inr (inl refl))
    | inr more ↦ elim (Bool-cases (dir_attr (entry_at entries i) == 0x0f)) [
      | inl long ↦
          rw (used, more, long)
            (Picks-long _ error _ (find_name-Picks n name entries (i + 1) (negsuc 3)))
      | inr short ↦ elim (Bool-cases (same_name name (entry_at entries i))) [
        | inl same ↦ rw (used, more, short, same) (refl, refl)
        | inr other ↦ rw (used, more, short, other) (find_name-Picks n name entries (i + 1) error)
      ]
    ]
  ]
]

-- The search for an index picks the shown entry with that index.
pub find_idx-Picks :
    (n idx : ℕ) (entries : Mem) (i : ℕ) (error : ℤ)
    → Picks (get_elem? (shown n entries i) idx) error (find_idx n idx entries i error)
unfolding find_idx shown
find_idx-Picks zero idx entries i error = (refl, inl refl)
find_idx-Picks (suc n) idx entries i error = elim (Bool-cases (entry_at entries i 0 == b' ')) [
  | inl free ↦ rw free (find_idx-Picks n idx entries (i + 1) error)
  | inr used ↦ elim (Bool-cases (entry_at entries i 0 == 0)) [
    | inl end ↦ rw (used, end) (refl, inr (inl refl))
    | inr more ↦ elim (Bool-cases (dir_attr (entry_at entries i) == 0x0f)) [
      | inl long ↦
          rw (used, more, long)
            (Picks-long _ error _ (find_idx-Picks n idx entries (i + 1) (negsuc 3)))
      | inr short ↦
          rw (used, more, short)
            (pick n idx entries i error (λ j. find_idx-Picks n j entries (i + 1) error))
    ]
  ]
]
  where
    pick :
        (n idx : ℕ) (entries : Mem) (i : ℕ) (error : ℤ)
        → ((j : ℕ)
            → Picks
                (get_elem? (shown n entries (i + 1)) j)
                error
                (find_idx n j entries (i + 1) error))
        → Picks
            (get_elem? (i ∷ shown n entries (i + 1)) idx)
            error
            (if idx == 0 then (pos 0, some i) else find_idx n (idx - 1) entries (i + 1) error)
    pick n zero entries i error ih = (refl, refl)
    pick n (suc j) entries i error ih =
        let later : (suc j == 0) ≡ false = ground arith in
        let down : suc j - 1 ≡ j = omega arith in rw (later, down) (ih j)
