-- ===== src/Inflate/Window.antt =====
-- The window of the decoder holds the last bytes of the output, so that a copy repeats them.
use light_loader.Common.{
  ℕ, zero, suc, ◌+◌, ◌-◌, ◌%◌, ◌≤◌, ◌<◌, ◌≡◌, refl, ap, sym, ◌∙◌, ◌⊎◌, inl, inr, arith, ==_refl,
  lt→==_false, gt→==_false, sub64, le-or-lt,
}
use light_loader.Common.Bytes.{Mem, write}
use light_loader.Inflate.{Ctx, huffman_cache_size, c_write, c_write_from, copy_loop}

write_here : (m : Mem) (a v : ℕ) → write m a v a ≡ v
unfolding write
write_here m a v = rw (==_refl a)

write_other : (m : Mem) (a v x : ℕ) → (x < a) ⊎ (a < x) → write m a v x ≡ m x
unfolding write
write_other m a v x (inl lt) = rw (lt→==_false x a lt)
write_other m a v x (inr gt) = rw (gt→==_false x a gt)

-- The write index follows the output, and the byte `d` back in the window is the byte `d` back in
-- the output.
pub record Window (ctx : Ctx) : Type 0 where
  pub index : ctx.cache_ptr ≡ ctx.written % huffman_cache_size
  pub back :
      (d : ℕ)
      → 0 < d
      → d ≤ huffman_cache_size
      → d ≤ ctx.written
      → ctx.cache ((ctx.cache_ptr + huffman_cache_size - d) % huffman_cache_size)
        ≡ ctx.out (ctx.written - d)

back_slot :
    (p d : ℕ)
    → p < huffman_cache_size
    → 1 < d
    → d ≤ huffman_cache_size
    → (((p + 1) % huffman_cache_size + huffman_cache_size - d) % huffman_cache_size
        ≡ (p + huffman_cache_size - (d - 1)) % huffman_cache_size)
      × (((p + huffman_cache_size - (d - 1)) % huffman_cache_size < p)
          ⊎ (p < (p + huffman_cache_size - (d - 1)) % huffman_cache_size))
back_slot p d lt lo hi = (omega arith, grind arith)

pub c_write-Window : (ctx : Ctx) (byte : ℕ) → Window ctx → Window (c_write ctx byte)
unfolding c_write
c_write-Window ctx byte w =
    let q = ctx.cache_ptr in
    let lt : q < huffman_cache_size = omega (arith, w.index) in
    record {
      index = omega (arith, w.index);
      back = λ d pos hi le. elim (le-or-lt d 1) [
        | inl one ↦
            let e : ((q + 1) % huffman_cache_size + huffman_cache_size - d) % huffman_cache_size
                ≡ q =
              omega arith in
            let last : ctx.written + 1 - d ≡ ctx.written = omega arith in
            ap (write ctx.cache q byte) e
            ∙ write_here ctx.cache q byte
            ∙ sym (ap (write ctx.out ctx.written byte) last ∙ write_here ctx.out ctx.written byte)
        | inr more ↦
            let (e, ne) = back_slot q d lt more hi in
            let earlier : ctx.written - (d - 1) ≡ ctx.written + 1 - d = omega arith in
            ap (write ctx.cache q byte) e
            ∙ write_other ctx.cache q byte _ ne
            ∙ w.back (d - 1) (omega arith) (omega arith) (omega arith)
            ∙ ap ctx.out earlier
            ∙ sym (write_other ctx.out ctx.written byte (ctx.written + 1 - d) (inl (omega arith)))
      ];
    }

-- What is written at the end of the output, and what stays.
pub c_write-out :
    (ctx : Ctx) (byte : ℕ)
    → ((c_write ctx byte).out ctx.written ≡ byte)
      × ((j : ℕ) → j < ctx.written → (c_write ctx byte).out j ≡ ctx.out j)
unfolding c_write
c_write-out ctx byte =
    (write_here ctx.out ctx.written byte, λ j lt. write_other ctx.out ctx.written byte j (inl lt))

pub written-c_write : (ctx : Ctx) (byte : ℕ) → (c_write ctx byte).written ≡ ctx.written + 1
unfolding c_write
written-c_write ctx byte = refl

c_write_from-back :
    (ctx : Ctx) (offset : ℕ)
    → Window ctx
    → 0 < offset
    → offset ≤ huffman_cache_size
    → offset ≤ ctx.written
    → c_write_from ctx offset ≡ c_write ctx (ctx.out (ctx.written - offset))
unfolding c_write_from
c_write_from-back ctx offset w pos hi le =
    let e : sub64 (ctx.cache_ptr + huffman_cache_size) offset
        ≡ ctx.cache_ptr + huffman_cache_size - offset =
      omega (arith, w.index) in
    ap (c_write ctx) (rw e (w.back offset pos hi le))

-- `n` bytes were added, each the one `offset` bytes in front of it.
pub record Repeats (n offset : ℕ) (ctx r : Ctx) : Type 0 where
  pub window : Window r
  pub grown : r.written ≡ ctx.written + n
  pub kept : (j : ℕ) → j < ctx.written → r.out j ≡ ctx.out j
  pub copied : (j : ℕ) → ctx.written ≤ j → j < ctx.written + n → r.out j ≡ r.out (j - offset)

Repeats-suc :
    (n offset : ℕ) (ctx c1 r : Ctx)
    → 0 < offset
    → offset ≤ ctx.written
    → c1.written ≡ ctx.written + 1
    → c1.out ctx.written ≡ ctx.out (ctx.written - offset)
    → ((j : ℕ) → j < ctx.written → c1.out j ≡ ctx.out j)
    → Repeats n offset c1 r
    → Repeats (suc n) offset ctx r
Repeats-suc n offset ctx c1 r pos le grown last before s = record {
  window = s.window;
  grown = omega (arith, s.grown, grown);
  kept = λ j lt. s.kept j (omega (arith, grown)) ∙ before j lt;
  copied = λ j lo hi. elim (le-or-lt j ctx.written) [
    | inl first ↦
        let e : j ≡ ctx.written = omega arith in
        let back = ctx.written - offset in
        ap r.out e
        ∙ s.kept ctx.written (omega (arith, grown))
        ∙ last
        ∙ sym (s.kept back (omega (arith, grown)) ∙ before back (omega arith))
        ∙ sym (ap (λ i. r.out (i - offset)) e)
    | inr later ↦ s.copied j (omega (arith, grown)) (omega (arith, grown))
  ];
}

-- If the window holds the output, a match of any length, from an offset within the output and the
-- window, repeats the output from that offset back, one byte after the other, and the window still
-- holds the output.
pub copy_loop-Repeats :
    (n : ℕ) (ctx : Ctx) (offset : ℕ)
    → Window ctx
    → 0 < offset
    → offset ≤ huffman_cache_size
    → offset ≤ ctx.written
    → Repeats n offset ctx (copy_loop n ctx offset)
unfolding copy_loop
copy_loop-Repeats zero ctx offset w pos hi le = record {
  window = w;
  grown = omega arith;
  kept = λ j lt. refl;
  copied = λ j lo hi. absurd (omega arith);
}
copy_loop-Repeats (suc n) ctx offset w pos hi le =
    let byte = ctx.out (ctx.written - offset) in
    let (last, before) = c_write-out ctx byte in
    let grown = written-c_write ctx byte in
    rw (copy_loop, c_write_from-back ctx offset w pos hi le)
      (Repeats-suc n offset ctx (c_write ctx byte) _ pos le grown last before (
        copy_loop-Repeats n (c_write ctx byte) offset (c_write-Window ctx byte w) pos hi
          (omega (arith, grown))))
