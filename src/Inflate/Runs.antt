-- ===== src/Inflate/Runs.antt =====
-- Reading bits and symbols, and a block of symbols, keep the window in step with the output.
use light_loader.Common.{
  ℕ, zero, suc, ◌+◌, ◌-◌, ◌*◌, Bool, true, false, ◌==◌, ltb, if◌then◌else◌, Bool-cases, inl, inr,
  Option, none, some, List, get_elem?, pos,
}
use light_loader.Inflate.{
  Ctx, c_reset_bit_buffer, c_read, c_read16, fill_bit_buffer, c_read_bit, read_bits_loop,
  c_read_bits, c_write, c_write_from, stored_loop, handle_non_compressed, copy_loop,
}
use light_loader.Inflate.Window.{Window, c_write-Window}
use light_loader.Inflate.Huffman.{
  Table, symbol_loop, c_read_symbol, read_extra, match_step, symbol_step, huffman_inflate, lbits,
  length_codes, dbits, distances,
}

-- A result keeps the window.
abbrev pub Keeps : {A : Type 0} → Option (Ctx × A) → Type 0
Keeps none = Unit {0}
Keeps (some (c, x)) = Window c

pub Keeps-then :
    {A B : Type 0} (r : Option (Ctx × A)) (k : Ctx → A → Option (Ctx × B))
    → Keeps r
    → ((c : Ctx) (x : A) → Window c → Keeps (k c x))
    → Keeps (elim r [ none ↦ none | some (c, x) ↦ k c x ])
Keeps-then none k h f = tt
Keeps-then (some (c, x)) k h f = f c x h

Keeps-if :
    {A : Type 0} (b : Bool) (r s : Option (Ctx × A))
    → Keeps r
    → Keeps s
    → Keeps (if b then r else s)
Keeps-if true r s h k = h
Keeps-if false r s h k = k

c_read-Window : (ctx : Ctx) → Window ctx → Window (c_read ctx).0
unfolding c_read
c_read-Window ctx w = elim (Bool-cases (ltb ctx.end_addr ctx.current)) [
  | inl e ↦ rw e w
  | inr e ↦ rw e (record { index = w.index; back = w.back })
]

fill_bit_buffer-Window : (ctx : Ctx) → Window ctx → Window (fill_bit_buffer ctx)
unfolding fill_bit_buffer
fill_bit_buffer-Window ctx w =
    let r = c_read-Window ctx w in
    elim (Bool-cases (ctx.bits_count == 0)) [
      | inl e ↦ rw e (record { index = r.index; back = r.back })
      | inr e ↦ rw e w
    ]

pub c_read_bit-Window : (ctx : Ctx) → Window ctx → Window (c_read_bit ctx).0
unfolding c_read_bit
c_read_bit-Window ctx w =
    let r = fill_bit_buffer-Window ctx w in record { index = r.index; back = r.back }

read_bits_loop-Window :
    (n : ℕ) (ctx : Ctx) (i ret : ℕ) → Window ctx → Window (read_bits_loop n ctx i ret).0
unfolding read_bits_loop
read_bits_loop-Window zero ctx i ret w = w
read_bits_loop-Window (suc n) ctx i ret w =
    read_bits_loop-Window n (c_read_bit ctx).0 (i + 1) _ (c_read_bit-Window ctx w)

pub c_read_bits-Window : (ctx : Ctx) (n : ℕ) → Window ctx → Window (c_read_bits ctx n).0
unfolding c_read_bits
c_read_bits-Window ctx n w = read_bits_loop-Window n ctx 0 0 w

c_read16-Window : (ctx : Ctx) → Window ctx → Window (c_read16 ctx).0
unfolding c_read16
c_read16-Window ctx w = c_read-Window _ (c_read-Window ctx w)

stored_loop-Window : (n : ℕ) (ctx : Ctx) → Window ctx → Window (stored_loop n ctx)
unfolding stored_loop
stored_loop-Window zero ctx w = w
stored_loop-Window (suc n) ctx w =
    stored_loop-Window n _ (c_write-Window (c_read ctx).0 (c_read ctx).1 (c_read-Window ctx w))

pub reset-Window : (ctx : Ctx) → Window ctx → Window (c_reset_bit_buffer ctx)
unfolding c_reset_bit_buffer
reset-Window ctx w = record { index = w.index; back = w.back }

pub handle_non_compressed-Window : (ctx : Ctx) → Window ctx → Window (handle_non_compressed ctx).0
unfolding handle_non_compressed
handle_non_compressed-Window ctx w =
    let len = c_read16 (c_reset_bit_buffer ctx) in
    let nlen = c_read16 len.0 in
    let r = c_read16-Window len.0 (c_read16-Window _ (reset-Window ctx w)) in
    elim (Bool-cases (len.1 == 0xFFFF - nlen.1)) [
      | inl e ↦ rw e (stored_loop-Window len.1 nlen.0 r)
      | inr e ↦ rw e r
    ]

copy_loop-Window : (n : ℕ) (ctx : Ctx) (offset : ℕ) → Window ctx → Window (copy_loop n ctx offset)
unfolding copy_loop c_write_from
copy_loop-Window zero ctx offset w = w
copy_loop-Window (suc n) ctx offset w = copy_loop-Window n _ offset (c_write-Window ctx _ w)

symbol_loop-Keeps :
    (n : ℕ) (ctx : Ctx) (t : Table) (i count current : ℕ)
    → Window ctx
    → Keeps (symbol_loop n ctx t i count current)
unfolding symbol_loop
symbol_loop-Keeps zero ctx t i count current w = tt
symbol_loop-Keeps (suc n) ctx t i count current w =
    let r = c_read_bit-Window ctx w in
    let read = 2 * current + (c_read_bit ctx).1 in
    let total = count + t.counts i in
    Keeps-if (ltb read (t.counts i))
      (some ((c_read_bit ctx).0, t.alphabet (total + read - t.counts i)))
      (symbol_loop n (c_read_bit ctx).0 t (i + 1) total (read - t.counts i)) r
      (symbol_loop-Keeps n (c_read_bit ctx).0 t (i + 1) total (read - t.counts i) r)

pub c_read_symbol-Keeps : (ctx : Ctx) (t : Table) → Window ctx → Keeps (c_read_symbol ctx t)
unfolding c_read_symbol
c_read_symbol-Keeps ctx t w = symbol_loop-Keeps 15 ctx t 1 0 0 w

read_extra-Keeps :
    (ctx : Ctx) (bits base : List ℕ) (i : ℕ) → Window ctx → Keeps (read_extra ctx bits base i)
unfolding read_extra
read_extra-Keeps ctx bits base i w = go (get_elem? bits i) (get_elem? base i)
  where
    go :
        (b v : Option ℕ)
        → Keeps (elim b [
          | none ↦ none
          | some n ↦ elim v [
            | none ↦ none
            | some x ↦ some ((c_read_bits ctx n).0, (c_read_bits ctx n).1 + x)
          ]
        ])
    go none v = tt
    go (some n) none = tt
    go (some n) (some x) = c_read_bits-Window ctx n w

match_step-Keeps : (ctx : Ctx) (s : ℕ) (dists : Table) → Window ctx → Keeps (match_step ctx s dists)
unfolding match_step
match_step-Keeps ctx s dists w =
    Keeps-then (read_extra ctx lbits length_codes s) _ (read_extra-Keeps ctx lbits length_codes s w)
      (λ c1 length w1.
        Keeps-then (c_read_symbol c1 dists) _ (c_read_symbol-Keeps c1 dists w1) (λ c2 dist w2.
          Keeps-then (read_extra c2 dbits distances dist) _
            (read_extra-Keeps c2 dbits distances dist w2)
            (λ c3 offset w3. copy_loop-Window length c3 offset w3)))

symbol_step-Keeps :
    (ctx : Ctx) (lengths dists : Table) → Window ctx → Keeps (symbol_step ctx lengths dists)
unfolding symbol_step
symbol_step-Keeps ctx lengths dists w =
    Keeps-then (c_read_symbol ctx lengths) _ (c_read_symbol-Keeps ctx lengths w) (λ c s v.
      Keeps-if (s == 256) (some (c, true))
        (if ltb s 256 then some (c_write c s, false) else match_step c (s - 257) dists) v
        (Keeps-if (ltb s 256) (some (c_write c s, false)) (match_step c (s - 257) dists)
          (c_write-Window c s v) (match_step-Keeps c (s - 257) dists v)))

pub huffman_inflate-Keeps :
    (fuel : ℕ) (ctx : Ctx) (lengths dists : Table)
    → Window ctx
    → Keeps (huffman_inflate fuel ctx lengths dists)
unfolding huffman_inflate
huffman_inflate-Keeps zero ctx lengths dists w = tt
huffman_inflate-Keeps (suc fuel) ctx lengths dists w =
    go (symbol_step ctx lengths dists) (symbol_step-Keeps ctx lengths dists w)
      (λ c. huffman_inflate-Keeps fuel c lengths dists)
  where
    go :
        (r : Option (Ctx × Bool))
        → Keeps r
        → ((c : Ctx) → Window c → Keeps (huffman_inflate fuel c lengths dists))
        → Keeps (elim r [
          | none ↦ none
          | some (c, true) ↦ some (c, pos 0)
          | some (c, false) ↦ huffman_inflate fuel c lengths dists
        ])
    go none k f = tt
    go (some (c, true)) k f = k
    go (some (c, false)) k f = f c k
