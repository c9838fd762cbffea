-- ===== src/Inflate/Huffman.antt =====
-- Huffman codes and the blocks that use them. `none` is an access outside an array, where the source
-- has no defined behaviour, or out of fuel.
use light_loader.Common.{
  ℕ, zero, suc, ◌+◌, ◌-◌, ◌*◌, ◌/◌, ◌%◌, ◌==◌, ltb, leb, if◌then◌else◌, Bool, true, false, not,
  ◌||◌, Option, none, some, List, [], ◌∷◌, get_elem?, w16, w32, ℤ, pos, negsuc,
}
use light_loader.Common.Bytes.{Mem, write}
use light_loader.Inflate.{
  Ctx, c_reset_bit_buffer, c_read, c_read16, c_read32, c_read_bit, c_read_bits, c_write, copy_loop,
  handle_non_compressed,
}

-- `struct huffman_table`: sixteen counts, and the alphabet.
pub record Table : Type 0 where
  pub counts : Mem
  pub alphabet : Mem

unfoldable pub counts_loop : ℕ → Mem → ℕ → Mem → Mem
counts_loop zero lengths i counts = counts
counts_loop (suc n) lengths i counts =
    counts_loop n lengths (i + 1) (write counts (lengths i) ((counts (lengths i) + 1) % w16))

unfoldable pub offsets_loop : ℕ → Mem → ℕ → ℕ → Mem → Mem
offsets_loop zero counts i count offsets = offsets
offsets_loop (suc n) counts i count offsets =
    offsets_loop n counts (i + 1) ((count + counts i) % w32) (write offsets i (count % w16))

unfoldable pub alphabet_loop : ℕ → Mem → ℕ → Mem → Mem → Mem
alphabet_loop zero lengths i offsets alphabet = alphabet
alphabet_loop (suc n) lengths i offsets alphabet =
    let skip = alphabet_loop n lengths (i + 1) offsets alphabet in
    let put =
      alphabet_loop n lengths (i + 1) (write offsets (lengths i) ((offsets (lengths i) + 1) % w16))
        (write alphabet (offsets (lengths i)) (i % w16)) in
    if lengths i == 0 then skip else put

unfoldable pub fill_huffman_table : Mem → ℕ → Table
fill_huffman_table lengths size =
    let counts = write (counts_loop size lengths 0 (λ _. 0)) 0 0 in
    let offsets = offsets_loop 16 counts 0 0 (λ _. 0) in
    record { counts = counts; alphabet = alphabet_loop size lengths 0 offsets (λ _. 0) }

-- The code lengths of the fixed codes.
unfoldable pub fixed_length : ℕ → ℕ
fixed_length i = if ltb i 144 then 8 else if ltb i 256 then 9 else if ltb i 280 then 7 else 8

unfoldable pub fixed_lengths : Table
fixed_lengths = fill_huffman_table fixed_length 288

unfoldable pub fixed_distances : Table
fixed_distances = fill_huffman_table (λ _. 5) 30

-- The loop of `c_read_symbol` from round `i` on, with `n` rounds up to the last count. `current` is
-- not negative here: the round that makes it negative returns.
unfoldable pub symbol_loop : ℕ → Ctx → Table → ℕ → ℕ → ℕ → Option (Ctx × ℕ)
symbol_loop zero ctx table i count current = none
symbol_loop (suc n) ctx table i count current =
    let got = c_read_bit ctx in
    let read = 2 * current + got.1 in
    let total = count + table.counts i in
    let rest = symbol_loop n got.0 table (i + 1) total (read - table.counts i) in
    if ltb read (table.counts i)
    then some (got.0, table.alphabet (total + read - table.counts i))
    else rest

unfoldable pub c_read_symbol : Ctx → Table → Option (Ctx × ℕ)
c_read_symbol ctx table = symbol_loop 15 ctx table 1 0 0

abbrev pub length_codes : List ℕ
length_codes =
    3 ∷ 4 ∷ 5 ∷ 6 ∷ 7 ∷ 8 ∷ 9 ∷ 10 ∷ 11 ∷ 13 ∷ 15 ∷ 17 ∷ 19 ∷ 23 ∷ 27 ∷ 31 ∷ 35 ∷ 43 ∷ 51 ∷ 59 ∷ 67
    ∷ 83 ∷ 99 ∷ 115 ∷ 131 ∷ 163 ∷ 195 ∷ 227 ∷ 258 ∷ []

abbrev pub lbits : List ℕ
lbits =
    0 ∷ 0 ∷ 0 ∷ 0 ∷ 0 ∷ 0 ∷ 0 ∷ 0 ∷ 1 ∷ 1 ∷ 1 ∷ 1 ∷ 2 ∷ 2 ∷ 2 ∷ 2 ∷ 3 ∷ 3 ∷ 3 ∷ 3 ∷ 4 ∷ 4 ∷ 4 ∷ 4
    ∷ 5 ∷ 5 ∷ 5 ∷ 5 ∷ 0 ∷ []

abbrev pub distances : List ℕ
distances =
    1 ∷ 2 ∷ 3 ∷ 4 ∷ 5 ∷ 7 ∷ 9 ∷ 13 ∷ 17 ∷ 25 ∷ 33 ∷ 49 ∷ 65 ∷ 97 ∷ 129 ∷ 193 ∷ 257 ∷ 385 ∷ 513 ∷ 769
    ∷ 1025 ∷ 1537 ∷ 2049 ∷ 3073 ∷ 4097 ∷ 6145 ∷ 8193 ∷ 12289 ∷ 16385 ∷ 24577 ∷ []

abbrev pub dbits : List ℕ
dbits =
    0 ∷ 0 ∷ 0 ∷ 0 ∷ 1 ∷ 1 ∷ 2 ∷ 2 ∷ 3 ∷ 3 ∷ 4 ∷ 4 ∷ 5 ∷ 5 ∷ 6 ∷ 6 ∷ 7 ∷ 7 ∷ 8 ∷ 8 ∷ 9 ∷ 9 ∷ 10 ∷ 10
    ∷ 11 ∷ 11 ∷ 12 ∷ 12 ∷ 13 ∷ 13 ∷ []

-- `c_read_bits(ctx, bits[i]) + base[i]`
unfoldable pub read_extra : Ctx → List ℕ → List ℕ → ℕ → Option (Ctx × ℕ)
read_extra ctx bits base i = elim (get_elem? bits i) [
  | none ↦ none
  | some n ↦ elim (get_elem? base i) [
    | none ↦ none
    | some v ↦ some ((c_read_bits ctx n).0, (c_read_bits ctx n).1 + v)
  ]
]

-- A length, a distance, and the copy; the flag says whether the block has ended.
unfoldable pub match_step : Ctx → ℕ → Table → Option (Ctx × Bool)
match_step ctx fixed_symb dists = elim (read_extra ctx lbits length_codes fixed_symb) [
  | none ↦ none
  | some (c1, length) ↦ elim (c_read_symbol c1 dists) [
    | none ↦ none
    | some (c2, dist) ↦ elim (read_extra c2 dbits distances dist) [
      | none ↦ none
      | some (c3, offset) ↦ some (copy_loop length c3 offset, false)
    ]
  ]
]

unfoldable pub symbol_step : Ctx → Table → Table → Option (Ctx × Bool)
symbol_step ctx lengths dists = elim (c_read_symbol ctx lengths) [
  | none ↦ none
  | some (c1, symb) ↦
      if symb == 256
      then some (c1, true)
      else if ltb symb 256
      then some (c_write c1 symb, false)
      else match_step c1 (symb - 257) dists
]

unfoldable pub huffman_inflate : ℕ → Ctx → Table → Table → Option (Ctx × ℤ)
huffman_inflate zero ctx lengths dists = none
huffman_inflate (suc fuel) ctx lengths dists = elim (symbol_step ctx lengths dists) [
  | none ↦ none
  | some (c, true) ↦ some (c, pos 0)
  | some (c, false) ↦ huffman_inflate fuel c lengths dists
]

abbrev pub clens : List ℕ
clens = 16 ∷ 17 ∷ 18 ∷ 0 ∷ 8 ∷ 7 ∷ 9 ∷ 6 ∷ 10 ∷ 5 ∷ 11 ∷ 4 ∷ 12 ∷ 3 ∷ 13 ∷ 2 ∷ 14 ∷ 1 ∷ 15 ∷ []

-- The lengths of the code for code lengths: there are 19 of them at most.
unfoldable pub code_lens_loop : ℕ → Ctx → List ℕ → Mem → Ctx × Mem
code_lens_loop zero ctx cl lens = (ctx, lens)
code_lens_loop (suc n) ctx [] lens = (ctx, lens)
code_lens_loop (suc n) ctx (c ∷ cl) lens =
    let got = c_read_bits ctx 3 in code_lens_loop n got.0 cl (write lens c got.1)

-- `while (repeat_count--) dyn_lengths[i++] = symb`
unfoldable pub repeat_loop : ℕ → Mem → ℕ → ℕ → Mem
repeat_loop zero lens i symb = lens
repeat_loop (suc n) lens i symb = repeat_loop n (write lens i symb) (i + 1) symb

-- The value to repeat and its count. Index `i - 1` is outside the array at 0.
unfoldable pub repeat_step : Ctx → Mem → ℕ → ℕ → Option (Ctx × ℕ × ℕ)
repeat_step ctx lens i symb =
    if symb == 16
    then (if i == 0
        then none
        else some ((c_read_bits ctx 2).0, lens (i - 1), 3 + (c_read_bits ctx 2).1))
    else if symb == 17
    then some ((c_read_bits ctx 3).0, 0, 3 + (c_read_bits ctx 3).1)
    else if symb == 18
    then some ((c_read_bits ctx 7).0, 0, 11 + (c_read_bits ctx 7).1)
    else some (ctx, symb, 1)

-- `dyn_lengths` has 320 entries.
unfoldable pub dyn_lengths_loop : ℕ → Ctx → Table → ℕ → ℕ → Mem → Option (Ctx × Mem)
dyn_lengths_loop zero ctx codes total i lens = none
dyn_lengths_loop (suc fuel) ctx codes total i lens = elim (ltb i total) [
  | false ↦ some (ctx, lens)
  | true ↦ elim (c_read_symbol ctx codes) [
    | none ↦ none
    | some (c1, symb) ↦ elim (repeat_step c1 lens i symb) [
      | none ↦ none
      | some (c2, value, count) ↦ elim (leb (i + count) 320) [
        | false ↦ none
        | true ↦ dyn_lengths_loop fuel c2 codes total (i + count) (repeat_loop count lens i value)
      ]
    ]
  ]
]

-- A round of that loop fills one entry at least, and there are 320.
unfoldable pub dynamic_huffman_inflate : ℕ → Ctx → Option (Ctx × ℤ)
dynamic_huffman_inflate fuel ctx =
    let hlit = c_read_bits ctx 5 in
    let hdist = c_read_bits hlit.0 5 in
    let hclen = c_read_bits hdist.0 4 in
    let literals = 257 + hlit.1 in
    let dists = 1 + hdist.1 in
    let read = code_lens_loop (4 + hclen.1) hclen.0 clens (λ _. 0) in
    elim (dyn_lengths_loop 321 read.0 (fill_huffman_table read.1 19) (literals + dists) 0 read.1) [
      | none ↦ none
      | some (c, lens) ↦
          huffman_inflate fuel c (fill_huffman_table lens literals)
            (fill_huffman_table (λ j. lens (literals + j)) dists)
    ]

unfoldable pub inflate_block : ℕ → Ctx → ℕ → Option (Ctx × ℤ)
inflate_block fuel ctx block_type =
    if block_type == 0
    then some (handle_non_compressed ctx)
    else if block_type == 1
    then huffman_inflate fuel ctx fixed_lengths fixed_distances
    else if block_type == 2
    then dynamic_huffman_inflate fuel ctx
    else some (ctx, negsuc 0)

unfoldable pub blocks_loop : ℕ → Ctx → Option (Ctx × ℤ)
blocks_loop zero ctx = none
blocks_loop (suc fuel) ctx =
    let last = c_read_bit ctx in
    let block_type = c_read_bits last.0 2 in
    elim (inflate_block fuel block_type.0 block_type.1) [
      | none ↦ none
      | some (c, negsuc n) ↦ some (c, negsuc n)
      | some (c, pos n) ↦ elim (last.1 == 1) [ true ↦ some (c, pos n) | false ↦ blocks_loop fuel c ]
    ]

unfoldable pub generic_inflate : ℕ → Ctx → Option (Ctx × ℤ)
generic_inflate fuel ctx = blocks_loop fuel (c_reset_bit_buffer ctx)

-- The last four bytes of the input; the four in front of them are the checksum.
unfoldable pub cram_find_decompressed_size : Ctx → ℕ → ℕ → ℕ
cram_find_decompressed_size ctx start size =
    (c_read32 (c_read32 (record ctx { current = start + size - 8; end_addr = start + size })).0).1

unfoldable pub skip_loop : ℕ → Ctx → Ctx
skip_loop zero ctx = ctx
skip_loop (suc n) ctx = skip_loop n (c_read ctx).0

-- The bytes up to and with a zero; what is kept of them is not used.
unfoldable pub skip_text : ℕ → Ctx → Option Ctx
skip_text zero ctx = none
skip_text (suc fuel) ctx =
    let got = c_read ctx in
    let rest = skip_text fuel got.0 in if got.1 == 0 then some got.0 else rest

-- The optional text, if its flag is set.
unfoldable pub skip_flagged_text : ℕ → Ctx → Bool → Option Ctx
skip_flagged_text fuel ctx flag = if flag then skip_text fuel ctx else some ctx

-- Behind the compression method, which is read already: the header's other fields.
unfoldable pub skip_header : ℕ → Ctx → Option Ctx
skip_header fuel ctx =
    let flags = c_read ctx in
    let fixed = skip_loop 6 flags.0 in
    let extra = c_read16 fixed in
    let c1 = if flags.1 / 4 % 2 == 1 then skip_loop extra.1 extra.0 else fixed in
    elim (skip_flagged_text fuel c1 (flags.1 / 8 % 2 == 1)) [
      | none ↦ none
      | some c2 ↦ elim (skip_flagged_text fuel c2 (flags.1 / 16 % 2 == 1)) [
        | none ↦ none
        | some c3 ↦ some (if flags.1 / 2 % 2 == 1 then (c_read16 c3).0 else c3)
      ]
    ]

-- `tarfs_decompress`: the size that the trailer gives, or 0, and the state behind the decoder.
-- `allocated` says whether the firmware gave a buffer.
unfoldable pub decompress_body : ℕ → Ctx → ℕ → Option (Ctx × ℕ)
decompress_body fuel ctx size = elim (generic_inflate fuel ctx) [
  | none ↦ none
  | some (c, pos zero) ↦ some (c, size)
  | some (c, _) ↦ some (c, 0)
]

unfoldable pub tarfs_decompress : ℕ → Ctx → ℕ → ℕ → Bool → Option (Ctx × ℕ)
tarfs_decompress fuel ctx start c_size allocated =
    let size = cram_find_decompressed_size ctx start c_size in
    let begin = record ctx {
      end_addr = start + c_size;
      current = start;
      written = 0;
      bit_buffer = 0;
      bits_count = 0;
    } in
    let magic0 = c_read begin in
    let magic1 = c_read magic0.0 in
    let method = c_read magic1.0 in
    if size == 0 || not allocated
    then some (ctx, 0)
    else if not (magic0.1 == 0x1F)
    then some (magic0.0, 0)
    else if not (magic1.1 == 0x8B)
    then some (magic1.0, 0)
    else if not (method.1 == 0x08)
    then some ((skip_loop 7 method.0), 0)
    else elim (skip_header fuel method.0) [ none ↦ none | some c ↦ decompress_body fuel c size ]
