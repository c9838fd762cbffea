-- ===== src/Inflate/Stored.antt =====
-- Blocks that are not compressed are copied from the input.
use light_loader.Common.{
  ℕ, zero, suc, ◌+◌, ◌-◌, ◌*◌, ◌≤◌, ◌<◌, ◌≡◌, refl, ap, sym, ◌∙◌, inl, inr, arith, ge→ltb, ==_iff,
  le-or-lt, pos,
}
use light_loader.Inflate.{
  Ctx, c_write, c_read, c_read16, c_reset_bit_buffer, stored_loop, handle_non_compressed,
}
use light_loader.Inflate.Window.{Window, c_write-Window, c_write-out, written-c_write}

-- `n` bytes of the input were appended to the output.
pub record Appends (n start : ℕ) (ctx r : Ctx) : Type 0 where
  pub window : Window r
  pub grown : r.written ≡ ctx.written + n
  pub consumed : r.current ≡ start + n
  pub kept : (j : ℕ) → j < ctx.written → r.out j ≡ ctx.out j
  pub copied : (k : ℕ) → k < n → r.out (ctx.written + k) ≡ ctx.input (start + k)

c_read-inside :
    (ctx : Ctx)
    → ctx.current ≤ ctx.end_addr
    → c_read ctx ≡ (record ctx { current = ctx.current + 1 }, ctx.input ctx.current)
unfolding c_read
c_read-inside ctx le = rw (ge→ltb ctx.end_addr ctx.current le)

c_write-input :
    (ctx : Ctx) (byte : ℕ)
    → ((c_write ctx byte).input ≡ ctx.input)
      × ((c_write ctx byte).current ≡ ctx.current)
      × ((c_write ctx byte).end_addr ≡ ctx.end_addr)
unfolding c_write
c_write-input ctx byte = (refl, refl, refl)

Window-read : (ctx : Ctx) (at : ℕ) → Window ctx → Window (record ctx { current = at })
Window-read ctx at w = record { index = w.index; back = w.back }

Appends-suc :
    (n start : ℕ) (ctx c1 r : Ctx)
    → c1.written ≡ ctx.written + 1
    → c1.out ctx.written ≡ ctx.input start
    → ((j : ℕ) → j < ctx.written → c1.out j ≡ ctx.out j)
    → c1.input ≡ ctx.input
    → Appends n (start + 1) c1 r
    → Appends (suc n) start ctx r
Appends-suc n start ctx c1 r grown last before same s = record {
  window = s.window;
  grown = omega (arith, s.grown, grown);
  consumed = omega (arith, s.consumed);
  kept = λ j lt. s.kept j (omega (arith, grown)) ∙ before j lt;
  copied = λ k lt. elim (le-or-lt k 0) [
    | inl first ↦
        let e : ctx.written + k ≡ ctx.written = omega arith in
        let e' : start ≡ start + k = omega arith in
        ap r.out e ∙ s.kept ctx.written (omega (arith, grown)) ∙ last ∙ ap ctx.input e'
    | inr later ↦
        let e : ctx.written + k ≡ c1.written + (k - 1) = omega (arith, grown) in
        let e' : start + 1 + (k - 1) ≡ start + k = omega arith in
        ap r.out e
        ∙ s.copied (k - 1) (omega arith)
        ∙ ap (λ (f : ℕ → ℕ). f (start + 1 + (k - 1))) same
        ∙ ap ctx.input e'
  ];
}

stored_loop-Appends :
    (n start : ℕ) (ctx : Ctx)
    → Window ctx
    → ctx.current ≡ start
    → start + n ≤ ctx.end_addr
    → Appends n start ctx (stored_loop n ctx)
unfolding stored_loop
stored_loop-Appends zero start ctx w here le = record {
  window = w;
  grown = omega arith;
  consumed = omega (arith, here);
  kept = λ j lt. refl;
  copied = λ k lt. absurd (omega arith);
}
stored_loop-Appends (suc n) start ctx w here le =
    let c0 = record ctx { current = ctx.current + 1 } in
    let byte = ctx.input ctx.current in
    let (last, before) = c_write-out c0 byte in
    let (input, current, end) = c_write-input c0 byte in
    let at : (c_write c0 byte).current ≡ start + 1 = omega (arith, current, here) in
    let s =
      stored_loop-Appends n (start + 1) (c_write c0 byte)
        (c_write-Window c0 byte (Window-read ctx (ctx.current + 1) w)) at
        (omega (arith, end, le)) in
    rw (stored_loop, c_read-inside ctx (omega (arith, here, le)))
      (Appends-suc n start ctx (c_write c0 byte) _ (written-c_write c0 byte)
        (last ∙ ap ctx.input here) before input s)

c_read16-inside :
    (ctx : Ctx)
    → ctx.current + 1 ≤ ctx.end_addr
    → c_read16 ctx ≡ (
      record ctx { current = ctx.current + 1 + 1 },
      ctx.input ctx.current + 256 * ctx.input (ctx.current + 1),
    )
unfolding c_read16
c_read16-inside ctx le =
    rw
      (c_read-inside ctx (omega arith), c_read-inside (record ctx { current = ctx.current + 1 }) le)

Appends-from :
    (n start : ℕ) (ctx c1 r : Ctx)
    → c1.written ≡ ctx.written
    → c1.out ≡ ctx.out
    → c1.input ≡ ctx.input
    → Appends n start c1 r
    → Appends n start ctx r
Appends-from n start ctx c1 r w o i s = record {
  window = s.window;
  grown = s.grown ∙ ap (λ x. x + n) w;
  consumed = s.consumed;
  kept = λ j lt. s.kept j (omega (arith, w)) ∙ ap (λ (f : ℕ → ℕ). f j) o;
  copied =
      λ k lt. ap (λ x. r.out (x + k)) (sym w) ∙ s.copied k lt ∙ ap (λ (f : ℕ → ℕ). f (start + k)) i;
}

-- If the window holds the output and the block lies within the input, a block whose length word is
-- `len` and whose second word is its complement is decoded without an error: its `len` bytes are
-- appended to the output, the input is consumed up to its end, and the window still holds the output.
pub handle_non_compressed-Appends :
    (ctx : Ctx) (len : ℕ)
    → Window ctx
    → ctx.input ctx.current + 256 * ctx.input (ctx.current + 1) ≡ len
    → ctx.input (ctx.current + 1 + 1) + 256 * ctx.input (ctx.current + 1 + 1 + 1) + len ≡ 0xFFFF
    → ctx.current + 4 + len ≤ ctx.end_addr
    → ((handle_non_compressed ctx).1 ≡ pos 0)
      × Appends len (ctx.current + 4) ctx (handle_non_compressed ctx).0
unfolding handle_non_compressed c_reset_bit_buffer
handle_non_compressed-Appends ctx len w word complement le =
    let c0 = record ctx { bit_buffer = 0; bits_count = 0 } in
    let c1 = record c0 { current = ctx.current + 1 + 1 } in
    let c2 = record c0 { current = ctx.current + 1 + 1 + 1 + 1 } in
    let nlen = ctx.input (ctx.current + 1 + 1) + 256 * ctx.input (ctx.current + 1 + 1 + 1) in
    let same : len ≡ 0xFFFF - nlen = omega arith in
    let w2 : Window c2 = record { index = w.index; back = w.back } in
    rw
      (
        c_read16-inside c0 (omega arith),
        c_read16-inside c1 (omega arith),
        word,
        (==_iff len (0xFFFF - nlen)).1 same,
      )
      (
        refl,
        Appends-from len (ctx.current + 4) ctx c2 _ refl refl refl
            (stored_loop-Appends len (ctx.current + 4) c2 w2 (omega arith) (omega arith)),
      )
