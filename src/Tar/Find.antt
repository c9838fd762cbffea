-- ===== src/Tar/Find.antt =====
-- The search of an archive ends, and gives the first entry whose name starts with the given one.
use light_loader.Common.{
  ℕ, zero, suc, ◌+◌, ◌*◌, ◌/◌, ◌%◌, ◌^◌, ◌≤◌, ◌<◌, ◌≡◌, ◌≢◌, refl, sym, ◌⊎◌, inl, inr, true, false,
  ◌==◌, arith, Bool-cases, lt→ltb, ge→ltb, le-or-lt, ==_iff, gt→==_false, Option, none, some, w64,
  add64, sub64,
}
use light_loader.Common.Bytes.{Mem}
use light_loader.Tar.{
  File, decode_loop, decode_tar_ascii, apply_tar_alignment, entry_size, entry_type, entry_named,
  find_loop, tarfs_find,
}

-- `n` octal digits from `a` on.
abbrev pub Octal : ℕ → Mem → ℕ → Type 0
Octal n m a = (k : ℕ) → k < n → (b'0' ≤ m (a + k)) × (m (a + k) < b'8')

-- `p * 8 ^ n`
abbrev scale : ℕ → ℕ → ℕ
scale zero p = p
scale (suc n) p = scale n (p * 8)

scale-le : (n p : ℕ) → p ≤ scale n p
scale-le zero p = omega arith
scale-le (suc n) p = omega (arith, scale-le n (p * 8))

decode_loop-lt :
    (n : ℕ) (m : Mem) (a ret p : ℕ)
    → ret + 1 ≤ p
    → scale n p ≤ w64
    → Octal n m a
    → decode_loop n m a ret < scale n p
unfolding decode_loop
decode_loop-lt zero m a ret p le top digits = omega arith
decode_loop-lt (suc n) m a ret p le top digits =
    let small = scale-le n (p * 8) in
    let first : a + 0 ≡ a = omega arith in
    let (lo, hi) = digits 0 (omega arith) in
    let digit : (b'0' ≤ m a) × (m a < b'8') = rw (sym first) (lo, hi) in
    let grown : sub64 (add64 (ret * 8 % w64) (m a)) b'0' + 1 ≤ p * 8 =
      omega (arith, digit.0, digit.1, small, top, le) in
    decode_loop-lt n m (a + 1) (sub64 (add64 (ret * 8 % w64) (m a)) b'0') (p * 8) grown top
      (λ k lt. let at : a + 1 + k ≡ a + suc k = omega arith in rw at (digits (suc k) (omega arith)))

entry_size-lt : (m : Mem) (header : ℕ) → Octal 11 m (header + 124) → entry_size m header < 8 ^ 11
unfolding entry_size decode_tar_ascii
entry_size-lt m header d =
    omega (arith, decode_loop-lt 11 m (header + 124) 0 1 (omega arith) (omega arith) d)

align_bounds :
    (v : ℕ) → v < 8 ^ 11 → (512 + v ≤ apply_tar_alignment v) × (apply_tar_alignment v < v + 1024)
unfolding apply_tar_alignment
align_bounds v lt = (omega arith, omega arith)

-- The search passes the headers up to, and not including, the one at `off`: none has the name.
pub data Passes (m : Mem) (start size name name_len : ℕ) : ℕ → ℕ → Type 0 where
  here : {off : ℕ} → Passes m start size name name_len off off
  next :
      {off to : ℕ}
      → off < size
      → entry_named m (start + off) name name_len ≡ false
      → Passes m start size name name_len
          (off + apply_tar_alignment (entry_size m (start + off)))
          to
      → Passes m start size name name_len off to

-- The headers that the search from `off` gets to have octal sizes.
abbrev pub Sound : Mem → ℕ → ℕ → ℕ → ℕ → ℕ → Type 0
Sound m start size name name_len off =
    (to : ℕ) → Passes m start size name name_len off to → to < size → Octal 11 m (start + to + 124)

-- Where the search stops, and what it gives there.
abbrev pub Stops : Mem → ℕ → ℕ → ℕ → ℕ → ℕ → Option File → Type 0
Stops m start size name name_len off none =
    (size ≤ off)
    ⊎ ((off < size)
        × (entry_named m (start + off) name name_len ≡ true)
        × (entry_type m (start + off) ≢ b'0'))
Stops m start size name name_len off (some file) =
    (off < size)
    × (entry_named m (start + off) name name_len ≡ true)
    × (entry_type m (start + off) ≡ b'0')
    × (file.filesize ≡ entry_size m (start + off))
    × (file.buffer ≡ start + off + 512)

abbrev pub Finds : Mem → ℕ → ℕ → ℕ → ℕ → ℕ → Option (Option File) → Type 0
Finds m start size name name_len from run =
    (found : Option File) × (to : ℕ) × (run ≡ some found)
    × Passes m start size name name_len from to
    × Stops m start size name name_len to found

Finds-next :
    (m : Mem) (start size name name_len off : ℕ) (run : Option (Option File))
    → off < size
    → entry_named m (start + off) name name_len ≡ false
    → Finds m start size name name_len (off + apply_tar_alignment (entry_size m (start + off))) run
    → Finds m start size name name_len off run
Finds-next m start size name name_len off run lt ne (found, to, e, p, s) =
    (found, to, e, next lt ne p, s)

find_loop-Finds :
    (fuel : ℕ) (m : Mem) (start size name name_len off : ℕ)
    → Sound m start size name name_len off
    → size + 8 ^ 11 + 1024 < w64
    → 0 < fuel
    → size + 511 < 512 * fuel + off
    → Finds m start size name name_len off (find_loop fuel m start size name name_len off)
unfolding find_loop
find_loop-Finds zero m start size name name_len off sound top pos f = absurd (omega arith)
find_loop-Finds (suc fuel) m start size name name_len off sound top pos f =
    elim (le-or-lt size off) [
      | inl end ↦ (none, off, rw (ge→ltb off size end), here, inl end)
      | inr more ↦ elim (Bool-cases (entry_named m (start + off) name name_len)) [
        | inl hit ↦ elim (Bool-cases (entry_type m (start + off) == b'0')) [
          | inl file ↦ (
            some (record { filesize = entry_size m (start + off); buffer = start + off + 512 }),
            off,
            rw (lt→ltb off size more, hit, file),
            here,
            (more, hit, (==_iff _ _).0 file, refl, refl),
          )
          | inr other ↦ (
            none,
            off,
            rw (lt→ltb off size more, hit, other),
            here,
            inr (more, hit, λ e. ground (arith, (==_iff (entry_type m (start + off)) b'0').1 e)),
          )
        ]
        | inr miss ↦
            let (lo, hi) =
              align_bounds (entry_size m (start + off))
                (entry_size-lt m (start + off) (sound off here more)) in
            let small = entry_size-lt m (start + off) (sound off here more) in
            let at : add64 off (apply_tar_alignment (entry_size m (start + off)))
                ≡ off + apply_tar_alignment (entry_size m (start + off)) =
              omega arith in
            rw (find_loop, lt→ltb off size more, miss, at)
              (Finds-next m start size name name_len off _ more miss (
                find_loop-Finds fuel m start size name name_len
                  (off + apply_tar_alignment (entry_size m (start + off)))
                  (λ to p. sound to (next more miss p)) top (omega arith) (omega arith)))
      ]
    ]

-- If the headers that it gets to have octal sizes and the archive's end is far from wrapping, the search for a name that
-- is not empty ends within `size / 512 + 2` rounds. It passes the headers with other names, and stops
-- at the first whose name starts with the given one, or at the end of the archive: there it gives the
-- size and the contents' address of a regular file, and the null pointer for anything else.
pub tarfs_find-Finds :
    (fuel : ℕ) (m : Mem) (start size name name_len : ℕ)
    → 0 < name
    → 0 < name_len
    → Sound m start size name name_len 0
    → size + 8 ^ 11 + 1024 < w64
    → size / 512 + 1 < fuel
    → Finds m start size name name_len 0 (tarfs_find fuel m start size name name_len)
unfolding tarfs_find
tarfs_find-Finds fuel m start size name name_len pn pl sound top f =
    rw (gt→==_false name 0 pn, gt→==_false name_len 0 pl)
      (find_loop-Finds fuel m start size name name_len 0 sound top (omega arith) (omega arith))
