-- ===== src/Memory/Decimal.antt =====
-- `to_string` writes the decimal digits of its argument.
use light_loader.Common.{
  ℕ, zero, suc, ◌+◌, ◌-◌, ◌*◌, ◌/◌, ◌%◌, ◌^◌, ◌≤◌, ◌<◌, ◌≡◌, refl, sym, ◌∙◌, inl, inr, true, ltb,
  arith, Bool-cases, w8, w64, ltb→lt, ltb→ge, lt→ltb, ge→ltb, le-or-lt,
}
use native.Mathlib.Nat.{pow-suc}
use native.Mathlib.Numerals.{add-one}
use light_loader.Common.Bytes.{Mem, write}
use light_loader.Memory.{size_loop, digit_loop, to_string}
use light_loader.Memory.Copy.{write_ne, write_self}

-- The number that the first `n` characters of a buffer spell.
unfoldable pub decimal : ℕ → Mem → ℕ
decimal zero b = 0
decimal (suc n) b = 10 * decimal n b + (b n - b'0')

decimal-same : (n : ℕ) (b b' : Mem) → ((k : ℕ) → k < n → b' k ≡ b k) → decimal n b' ≡ decimal n b
unfolding decimal
decimal-same zero b b' h = refl
decimal-same (suc n) b b' h =
    omega (arith, decimal-same n b b' (λ k l. h k (omega arith)), h n (omega arith))

-- `v` has `n + 1` digits.
abbrev pub HasDigits : ℕ → ℕ → Type 0
HasDigits zero v = v < 10
HasDigits (suc n) v = (0 < v / 10) × HasDigits n (v / 10)

abbrev Counted : ℕ → ℕ → ℕ → Type 0
Counted fuel v size =
    (more : ℕ) × (size_loop fuel v size ≡ size + more) × HasDigits more v × (more < fuel)

Counted-suc :
    (fuel v size : ℕ)
    → ltb 0 (v / 10) ≡ true
    → size < 255
    → Counted fuel (v / 10) (size + 1)
    → Counted (suc fuel) v size
unfolding size_loop
Counted-suc fuel v size e lt (more, eq, digits, le) =
    let byte : (size + 1) % w8 ≡ size + 1 = omega arith in
    (suc more, rw (e, byte, eq) (omega arith), (ltb→lt 0 (v / 10) e, digits), omega arith)

fuel_pos : (fuel v : ℕ) → v < 10 ^ fuel → 0 < v → 0 < fuel
fuel_pos zero v lt pos = omega arith
fuel_pos (suc fuel) v lt pos = omega arith

size_loop-Counted :
    (fuel v size : ℕ) → 0 < fuel → v < 10 ^ fuel → size + fuel ≤ 20 → Counted fuel v size
unfolding size_loop
size_loop-Counted zero v size pos lt f = absurd (omega arith)
size_loop-Counted (suc fuel) v size pos lt f = elim (Bool-cases (ltb 0 (v / 10))) [
  | inl e ↦
      let small : v / 10 < 10 ^ fuel = omega (arith, pow-suc 10 fuel) in
      Counted-suc fuel v size e (omega arith) (
        size_loop-Counted fuel (v / 10) (size + 1)
          (fuel_pos fuel (v / 10) small (ltb→lt 0 (v / 10) e)) small (omega arith))
  | inr e ↦ (0, rw e (omega arith), omega (arith, ltb→ge 0 (v / 10) e), omega arith)
]

-- The last write of `to_string`, behind its second loop.
abbrev last_digit : ℕ → Mem × ℕ × ℕ → Mem
last_digit size (b, val, index) = write b (size - index) (val % 10 + b'0')

-- The first `n` characters are digits and spell `v`, and the buffer behind them is `b`.
record Spells (n v : ℕ) (b b' : Mem) : Type 0 where
  value : decimal n b' ≡ v
  digits : (k : ℕ) → k < n → (b'0' ≤ b' k) × (b' k ≤ b'9')
  behind : (k : ℕ) → n ≤ k → b' k ≡ b k

Spells-suc :
    (n v : ℕ) (b b' : Mem)
    → Spells n (v / 10) (write b n (v % 10 + b'0')) b'
    → Spells (suc n) v b b'
unfolding decimal
Spells-suc n v b b' s =
    let here : b' n ≡ v % 10 + b'0' = s.behind n (omega arith) ∙ write_self b n (v % 10 + b'0') in
    record {
      value = omega (arith, s.value);
      digits = λ k lt. elim (le-or-lt n k) [
        | inl le ↦ let e : k ≡ n = omega arith in rw (e, here) (omega arith, omega arith)
        | inr l ↦ s.digits k l
      ];
      behind = λ k le. s.behind k (omega arith) ∙ write_ne b n (v % 10 + b'0') k (inr le);
    }

Spells-zero : (v : ℕ) (b : Mem) → v ≡ 0 → Spells 0 v b b
unfolding decimal
Spells-zero v b e = record {
  value = sym e;
  digits = λ k lt. absurd (omega arith);
  behind = λ k le. refl;
}

digit_loop-Spells :
    (fuel n val size index : ℕ) (b : Mem)
    → HasDigits n val
    → index + n ≡ size
    → size ≤ 20
    → n < fuel
    → Spells (suc n) val b (last_digit size (digit_loop fuel b size val index))
unfolding digit_loop
digit_loop-Spells zero n val size index b d e s f = absurd (omega arith)
digit_loop-Spells (suc fuel) zero val size index b d e s f =
    let at : size - index ≡ 0 = omega arith in
    let low : val / 10 ≡ 0 = omega arith in
    rw (ge→ltb 0 (val / 10) (omega arith), at) (Spells-suc 0 val b _ (Spells-zero (val / 10) _ low))
digit_loop-Spells (suc fuel) (suc n) val size index b (more, d) e s f =
    let at : size - index ≡ suc n = omega arith in
    let byte : (index + 1) % w8 ≡ index + 1 = omega arith in
    rw (lt→ltb 0 (val / 10) more, at, byte)
      (Spells-suc (suc n) val b _ (
        digit_loop-Spells fuel n (val / 10) size (index + 1) (write b (suc n) (val % 10 + b'0')) d
          (omega arith) s (omega arith)))

-- A buffer that holds `n + 1` digits, which spell `v`, and a NUL.
pub record Text (n v : ℕ) (b : Mem) : Type 0 where
  pub value : decimal (suc n) b ≡ v
  pub digits : (k : ℕ) → k < suc n → (b'0' ≤ b k) × (b k ≤ b'9')
  pub end : b (suc n) ≡ 0

Text-of_Spells : (n v : ℕ) (b b' : Mem) → Spells (suc n) v b b' → Text n v (write b' (n + 1) 0)
Text-of_Spells n v b b' s = rw add-one (record {
  value = decimal-same (suc n) b' _ (λ k lt. write_ne b' (suc n) 0 k (inl lt)) ∙ s.value;
  digits = λ k lt. rw (write_ne b' (suc n) 0 k (inl lt)) (s.digits k lt);
  end = write_self b' (suc n) 0;
})

-- `to_string` writes the decimal digits of any 64-bit number, with no leading zero, and a NUL.
pub to_string-decimal : (v : ℕ) → v < w64 → (n : ℕ) × HasDigits n v × Text n v (to_string v)
unfolding to_string
to_string-decimal v h =
    let (n, e, d, lt) = size_loop-Counted 20 v 0 (omega arith) (omega arith) (omega arith) in
    let size : size_loop 20 v 0 ≡ n = e ∙ omega arith in
    let s = digit_loop-Spells 20 n v n 0 (λ _. 0) d (omega arith) (omega arith) lt in
    (n, d, rw size (Text-of_Spells n v _ _ s))
