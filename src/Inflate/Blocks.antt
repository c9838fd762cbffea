-- ===== src/Inflate/Blocks.antt =====
-- Every kind of block, and the whole decoder, keeps the window in step with the output.
use light_loader.Common.{
  ℕ, zero, suc, ◌+◌, Bool, true, false, ◌==◌, ltb, leb, Bool-cases, inl, inr, Option, none, some,
  List, [], ◌∷◌, ℤ, pos, negsuc,
}
use light_loader.Common.Bytes.{Mem}
use light_loader.Inflate.{Ctx, c_read_bit, c_read_bits}
use light_loader.Inflate.Window.{Window}
use light_loader.Inflate.Huffman.{
  Table, c_read_symbol, code_lens_loop, repeat_step, dyn_lengths_loop, dynamic_huffman_inflate,
  inflate_block, blocks_loop, generic_inflate, clens, fill_huffman_table, repeat_loop,
  fixed_lengths, fixed_distances,
}
use light_loader.Inflate.Runs.{
  Keeps, Keeps-then, c_read_bits-Window, c_read_bit-Window, c_read_symbol-Keeps,
  huffman_inflate-Keeps, handle_non_compressed-Window, reset-Window,
}

code_lens_loop-Window :
    (n : ℕ) (ctx : Ctx) (cl : List ℕ) (lens : Mem)
    → Window ctx
    → Window (code_lens_loop n ctx cl lens).0
unfolding code_lens_loop
code_lens_loop-Window zero ctx cl lens w = w
code_lens_loop-Window (suc n) ctx [] lens w = w
code_lens_loop-Window (suc n) ctx (c ∷ cl) lens w =
    code_lens_loop-Window n (c_read_bits ctx 3).0 cl _ (c_read_bits-Window ctx 3 w)

-- The same for the result of `repeat_step`.
abbrev KeepsStep : Option (Ctx × ℕ × ℕ) → Type 0
KeepsStep none = Unit {0}
KeepsStep (some (c, value, count)) = Window c

repeat_step-KeepsStep :
    (ctx : Ctx) (lens : Mem) (i symb : ℕ) → Window ctx → KeepsStep (repeat_step ctx lens i symb)
unfolding repeat_step
repeat_step-KeepsStep ctx lens i symb w = elim (Bool-cases (symb == 16)) [
  | inl e ↦ elim (Bool-cases (i == 0)) [
    | inl z ↦ rw (e, z) tt
    | inr z ↦ rw (e, z) (c_read_bits-Window ctx 2 w)
  ]
  | inr e ↦ elim (Bool-cases (symb == 17)) [
    | inl f ↦ rw (e, f) (c_read_bits-Window ctx 3 w)
    | inr f ↦ elim (Bool-cases (symb == 18)) [
      | inl g ↦ rw (e, f, g) (c_read_bits-Window ctx 7 w)
      | inr g ↦ rw (e, f, g) w
    ]
  ]
]

dyn_lengths_loop-Keeps :
    (fuel : ℕ) (ctx : Ctx) (codes : Table) (total i : ℕ) (lens : Mem)
    → Window ctx
    → Keeps (dyn_lengths_loop fuel ctx codes total i lens)
unfolding dyn_lengths_loop
dyn_lengths_loop-Keeps zero ctx codes total i lens w = tt
dyn_lengths_loop-Keeps (suc fuel) ctx codes total i lens w = elim (Bool-cases (ltb i total)) [
  | inr e ↦ rw (dyn_lengths_loop, e) w
  | inl e ↦
      rw (dyn_lengths_loop, e)
        (Keeps-then (c_read_symbol ctx codes) _ (c_read_symbol-Keeps ctx codes w) (λ c1 symb w1.
          go i lens (repeat_step c1 lens i symb) (repeat_step-KeepsStep c1 lens i symb w1)
            (λ c j l. dyn_lengths_loop-Keeps fuel c codes total j l)))
]
  where
    go :
        (i : ℕ) (lens : Mem) (r : Option (Ctx × ℕ × ℕ))
        → KeepsStep r
        → ((c : Ctx) (j : ℕ) (l : Mem) → Window c → Keeps (dyn_lengths_loop fuel c codes total j l))
        → Keeps (elim r [
          | none ↦ none
          | some (c2, value, count) ↦ elim (leb (i + count) 320) [
            | false ↦ none
            | true ↦
                dyn_lengths_loop fuel c2 codes total (i + count) (repeat_loop count lens i value)
          ]
        ])
    go i lens none k f = tt
    go i lens (some (c2, value, count)) k f = elim (Bool-cases (leb (i + count) 320)) [
      | inl fits ↦ rw fits (f c2 (i + count) (repeat_loop count lens i value) k)
      | inr over ↦ rw over tt
    ]

dynamic_huffman_inflate-Keeps :
    (fuel : ℕ) (ctx : Ctx) → Window ctx → Keeps (dynamic_huffman_inflate fuel ctx)
unfolding dynamic_huffman_inflate
dynamic_huffman_inflate-Keeps fuel ctx w =
    let hlit = c_read_bits ctx 5 in
    let hdist = c_read_bits hlit.0 5 in
    let hclen = c_read_bits hdist.0 4 in
    let w3 =
      c_read_bits-Window hdist.0 4 (c_read_bits-Window hlit.0 5 (c_read_bits-Window ctx 5 w)) in
    let read = code_lens_loop (4 + hclen.1) hclen.0 clens (λ _. 0) in
    Keeps-then
      (dyn_lengths_loop 321 read.0 (fill_huffman_table read.1 19) (257 + hlit.1 + (1 + hdist.1)) 0
        read.1)
      _
      (dyn_lengths_loop-Keeps 321 read.0 (fill_huffman_table read.1 19)
        (257 + hlit.1 + (1 + hdist.1)) 0 read.1
        (code_lens_loop-Window (4 + hclen.1) hclen.0 clens (λ _. 0) w3))
      (λ c lens v. huffman_inflate-Keeps fuel c _ _ v)

inflate_block-Keeps : (fuel : ℕ) (ctx : Ctx) (t : ℕ) → Window ctx → Keeps (inflate_block fuel ctx t)
unfolding inflate_block
inflate_block-Keeps fuel ctx t w = elim (Bool-cases (t == 0)) [
  | inl e ↦ rw e (handle_non_compressed-Window ctx w)
  | inr e ↦ elim (Bool-cases (t == 1)) [
    | inl f ↦ rw (e, f) (huffman_inflate-Keeps fuel ctx fixed_lengths fixed_distances w)
    | inr f ↦ elim (Bool-cases (t == 2)) [
      | inl g ↦ rw (e, f, g) (dynamic_huffman_inflate-Keeps fuel ctx w)
      | inr g ↦ rw (e, f, g) w
    ]
  ]
]

blocks_loop-Keeps : (fuel : ℕ) (ctx : Ctx) → Window ctx → Keeps (blocks_loop fuel ctx)
unfolding blocks_loop
blocks_loop-Keeps zero ctx w = tt
blocks_loop-Keeps (suc fuel) ctx w =
    let last = c_read_bit ctx in
    let block_type = c_read_bits last.0 2 in
    go (last.1 == 1) (inflate_block fuel block_type.0 block_type.1)
      (inflate_block-Keeps fuel block_type.0 block_type.1
        (c_read_bits-Window last.0 2 (c_read_bit-Window ctx w)))
      (blocks_loop-Keeps fuel)
  where
    go :
        (last : Bool) (r : Option (Ctx × ℤ))
        → Keeps r
        → ((c : Ctx) → Window c → Keeps (blocks_loop fuel c))
        → Keeps (elim r [
          | none ↦ none
          | some (c, negsuc n) ↦ some (c, negsuc n)
          | some (c, pos n) ↦ elim last [ true ↦ some (c, pos n) | false ↦ blocks_loop fuel c ]
        ])
    go last none k f = tt
    go last (some (c, negsuc n)) k f = k
    go true (some (c, pos n)) k f = k
    go false (some (c, pos n)) k f = f c k

-- Whatever the blocks are, a run of the decoder that ends, with or without an error, leaves a window
-- that holds the last bytes of the output, if it starts with one.
generic_inflate-Keeps : (fuel : ℕ) (ctx : Ctx) → Window ctx → Keeps (generic_inflate fuel ctx)
unfolding generic_inflate
generic_inflate-Keeps fuel ctx w = blocks_loop-Keeps fuel _ (reset-Window ctx w)
