-- ===== src/Reloc/Segments.antt =====
-- The relocations and the entry point that load_relocatable_elf makes of the segments of a file.
use light_loader.Common.{
  ℕ, zero, suc, ◌+◌, ◌*◌, ◌%◌, ◌<◌, ◌≡◌, refl, sym, ◌∙◌, ap, inl, inr, ◌==◌, ==_iff, Bool-cases,
  if◌then◌else◌, true, false, none, some, List, [], ◌∷◌, ◌++◌, map, length, w64, add64, ℤ, pos,
  arith,
}
use mathlib.Core.List.{append-nil, append_assoc}
use mathlib.Core.Path.{subst}
use light_loader.Common.Bytes.{Mem}
use light_loader.Memory.{memcmp}
use light_loader.Reloc.{
  Relocation, Phdr, Ehdr, Loaded, phdr_at, ehdr_at, pt_load, em_x86_64, find_relocation,
  create_relocation, move_entry, counted, phdr_loop, load_relocatable_elf,
}
use light_loader.Reloc.Entry.{OneHolds, entry_point, moved, moved_lem}

-- The program header with the given index.
abbrev pub phdr_nth : Mem → ℕ → Ehdr → ℕ → Phdr
phdr_nth m buffer hdr i = phdr_at m (add64 (add64 buffer hdr.e_phoff) (i * hdr.e_phentsize))

-- The segments to load among the `n` program headers from the `i`-th on, in order.
abbrev pub segments : ℕ → Mem → ℕ → Ehdr → ℕ → List Phdr
segments zero m buffer hdr i = []
segments (suc n) m buffer hdr i =
    let p = phdr_nth m buffer hdr i in
    let rest = segments n m buffer hdr (i + 1) in if p.p_type == pt_load then p ∷ rest else rest

-- Where a segment of a file at `buffer` goes.
abbrev pub placed : ℕ → Phdr → Relocation
placed buffer p = record { current = add64 buffer p.p_offset; target = p.p_paddr; size = p.p_memsz }

-- No segment has the target and the size of a relocation in the list, or of an earlier segment.
abbrev pub Fresh : ℕ → List Relocation → List Phdr → Type 0
Fresh buffer list [] = Unit {0}
Fresh buffer list (p ∷ ps) =
    (find_relocation list p.p_paddr p.p_memsz ≡ none)
    × Fresh buffer (list ++ (placed buffer p ∷ [])) ps

-- The counter as the loop moves it.
abbrev counts : List Phdr → ℕ → ℕ
counts [] c = c
counts (p ∷ ps) c = counts ps (add64 c 1)

counts_lem : (ps : List Phdr) (c : ℕ) → c < w64 → counts ps c ≡ (c + length ps) % w64
counts_lem [] c h = omega arith
counts_lem (p ∷ ps) c h = omega (arith, counts_lem ps (add64 c 1) (omega arith))

counts_start : (ps : List Phdr) → counts ps 0 ≡ length ps % w64
counts_start ps = omega (arith, counts_lem ps 0 (omega arith))

-- What the loop leaves.
abbrev after_segments : ℕ → ℕ → List Phdr → Loaded → Loaded
after_segments buffer e ps s = record {
  entry = moved e ps s.entry;
  count = counts ps s.count;
  relocations = s.relocations ++ map (placed buffer) ps;
}

-- A relocation that is not in the list goes to its end.
pub create_relocation_fresh :
    (list : List Relocation) (current target size : ℕ)
    → find_relocation list target size ≡ none
    → create_relocation list current target size ≡ (
      list ++ (record { current = current; target = target; size = size } ∷ []),
      some (record { current = current; target = target; size = size }),
    )
unfolding create_relocation
create_relocation_fresh list current target size h = rw (create_relocation, h) refl

module _ (n : ℕ) (m : Mem) (buffer : ℕ) (hdr : Ehdr) (i : ℕ) where
  segments_skip :
      ((phdr_nth m buffer hdr i).p_type == pt_load) ≡ false
      → segments (suc n) m buffer hdr i ≡ segments n m buffer hdr (i + 1)
  segments_skip h = rw h refl

  segments_take :
      ((phdr_nth m buffer hdr i).p_type == pt_load) ≡ true
      → segments (suc n) m buffer hdr i ≡ phdr_nth m buffer hdr i ∷ segments n m buffer hdr (i + 1)
  segments_take h = rw h refl

  phdr_loop_skip :
      (s : Loaded)
      → ((phdr_nth m buffer hdr i).p_type == pt_load) ≡ false
      → phdr_loop (suc n) m buffer hdr i s ≡ phdr_loop n m buffer hdr (i + 1) s
  unfolding phdr_loop
  phdr_loop_skip s h = rw h refl

  phdr_loop_take :
      (s : Loaded)
      → ((phdr_nth m buffer hdr i).p_type == pt_load) ≡ true
      → find_relocation s.relocations
          (phdr_nth m buffer hdr i).p_paddr
          (phdr_nth m buffer hdr i).p_memsz
        ≡ none
      → phdr_loop (suc n) m buffer hdr i s
        ≡ phdr_loop n m buffer hdr (i + 1) (
            counted hdr.e_entry
              (phdr_nth m buffer hdr i)
              s
              (s.relocations ++ (placed buffer (phdr_nth m buffer hdr i) ∷ [])))
  unfolding phdr_loop
  phdr_loop_take s h f =
      let made =
        (let p = phdr_nth m buffer hdr i in
          create_relocation_fresh s.relocations (add64 buffer p.p_offset) p.p_paddr p.p_memsz f) in
      rw (h, made, made) refl

after_segments_cons :
    (buffer e : ℕ) (p : Phdr) (ps : List Phdr) (s : Loaded)
    → after_segments buffer e ps (counted e p s (s.relocations ++ (placed buffer p ∷ [])))
      ≡ after_segments buffer e (p ∷ ps) s
unfolding counted
after_segments_cons buffer e p ps s =
    ap
      (λ l. record {
        entry = moved e ps (move_entry e p s.entry);
        count = counts ps (add64 s.count 1);
        relocations = l;
      })
      (append_assoc s.relocations (placed buffer p ∷ []) (map (placed buffer) ps))

phdr_loop-segments :
    (n : ℕ) (m : Mem) (buffer : ℕ) (hdr : Ehdr) (i : ℕ) (s : Loaded)
    → Fresh buffer s.relocations (segments n m buffer hdr i)
    → phdr_loop n m buffer hdr i s
      ≡ (after_segments buffer hdr.e_entry (segments n m buffer hdr i) s, pos 0)
unfolding phdr_loop counted
phdr_loop-segments zero m buffer hdr i s f =
    ap (λ l. (record s { relocations = l }, pos 0)) (sym (append-nil s.relocations))
phdr_loop-segments (suc n) m buffer hdr i s f =
    elim (Bool-cases ((phdr_nth m buffer hdr i).p_type == pt_load)) [
      | inr skip ↦
          phdr_loop_skip n m buffer hdr i s skip
          ∙ phdr_loop-segments n m buffer hdr (i + 1) s
              (subst (Fresh buffer s.relocations) (segments_skip n m buffer hdr i skip) f)
          ∙ ap (λ ps. (after_segments buffer hdr.e_entry ps s, pos 0))
              (sym (segments_skip n m buffer hdr i skip))
      | inl take ↦
          taken take (subst (Fresh buffer s.relocations) (segments_take n m buffer hdr i take) f) (
            phdr_loop-segments n m buffer hdr (i + 1) (
              counted hdr.e_entry (phdr_nth m buffer hdr i) s
                (s.relocations ++ (placed buffer (phdr_nth m buffer hdr i) ∷ []))))
    ]
  where
    taken :
        ((phdr_nth m buffer hdr i).p_type == pt_load) ≡ true
        → Fresh buffer s.relocations (phdr_nth m buffer hdr i ∷ segments n m buffer hdr (i + 1))
        → (Fresh buffer
              (s.relocations ++ (placed buffer (phdr_nth m buffer hdr i) ∷ []))
              (segments n m buffer hdr (i + 1))
            → phdr_loop n m buffer hdr (i + 1) (
                counted hdr.e_entry
                  (phdr_nth m buffer hdr i)
                  s
                  (s.relocations ++ (placed buffer (phdr_nth m buffer hdr i) ∷ [])))
              ≡ (
                after_segments buffer hdr.e_entry (segments n m buffer hdr (i + 1)) (
                    counted hdr.e_entry
                      (phdr_nth m buffer hdr i)
                      s
                      (s.relocations ++ (placed buffer (phdr_nth m buffer hdr i) ∷ []))),
                pos 0,
              ))
        → phdr_loop (suc n) m buffer hdr i s
          ≡ (after_segments buffer hdr.e_entry (segments (suc n) m buffer hdr i) s, pos 0)
    taken take g rest =
        phdr_loop_take n m buffer hdr i s take g.0
        ∙ rest g.1
        ∙ ap (λ r. (r, pos 0))
            (after_segments_cons buffer hdr.e_entry (phdr_nth m buffer hdr i)
              (segments n m buffer hdr (i + 1)) s)
        ∙ ap (λ ps. (after_segments buffer hdr.e_entry ps s, pos 0))
            (sym (segments_take n m buffer hdr i take))

-- What the load leaves: the entry point, the number of the segments, and a relocation for each.
abbrev pub segments_loaded : List Relocation → ℕ → ℕ → List Phdr → Loaded
segments_loaded list buffer e ps = record {
  entry = entry_point e ps;
  count = length ps % w64;
  relocations = list ++ map (placed buffer) ps;
}

-- If the buffer begins with the magic number and the file is for x86-64, no segment to load has the
-- target and the size of an earlier one or of a relocation that was there, and at most one holds the
-- entry point: the load succeeds, the list gets one relocation for each segment to load, in the
-- order of the program headers, the counter is their number, and the entry point is moved with the
-- segment that holds it.
pub load_relocatable_elf-segments :
    (m : Mem) (elfmag buffer : ℕ) (s : Loaded)
    → memcmp m buffer elfmag 4 ≡ true
    → (ehdr_at m buffer).e_machine ≡ em_x86_64
    → Fresh buffer s.relocations (segments (ehdr_at m buffer).e_phnum m buffer (ehdr_at m buffer) 0)
    → OneHolds
        (ehdr_at m buffer).e_entry
        (segments (ehdr_at m buffer).e_phnum m buffer (ehdr_at m buffer) 0)
    → (let hdr = ehdr_at m buffer in
        let segs = segments hdr.e_phnum m buffer hdr 0 in
        load_relocatable_elf m elfmag buffer s
        ≡ (segments_loaded s.relocations buffer hdr.e_entry segs, pos 0))
unfolding load_relocatable_elf
load_relocatable_elf-segments m elfmag buffer s magic machine f one =
    rw (magic, (==_iff (ehdr_at m buffer).e_machine em_x86_64).1 machine)
      (phdr_loop-segments (ehdr_at m buffer).e_phnum m buffer (ehdr_at m buffer) 0
          (record s { entry = (ehdr_at m buffer).e_entry; count = 0 }) f
        ∙ settled (segments (ehdr_at m buffer).e_phnum m buffer (ehdr_at m buffer) 0) one)
  where
    settled :
        (ps : List Phdr)
        → OneHolds (ehdr_at m buffer).e_entry ps
        → Path
            (Loaded × ℤ)
            (
              after_segments buffer
                  (ehdr_at m buffer).e_entry
                  ps
                  (record s { entry = (ehdr_at m buffer).e_entry; count = 0 }),
              pos 0,
            )
            (segments_loaded s.relocations buffer (ehdr_at m buffer).e_entry ps, pos 0)
    settled ps o = rw (moved_lem (ehdr_at m buffer).e_entry ps o, counts_start ps) refl
