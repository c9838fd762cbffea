-- ===== src/Inflate.antt =====
-- The DEFLATE decoder, common/fs/tarfs/decompress.c: the input, the window and the output here, and
-- the codes in Inflate/Huffman.
pub mod Huffman
pub mod Window
pub mod Stored
pub mod Runs
pub mod Blocks
mod Examples
use light_loader.Common.{
  ℕ, zero, suc, ◌+◌, ◌-◌, ◌*◌, ◌/◌, ◌%◌, ◌^◌, ◌==◌, ltb, if◌then◌else◌, Bool, not, w16, w32, w64,
  sub64, ℤ, pos, negsuc,
}
use light_loader.Common.Bytes.{Mem, write}

abbrev pub huffman_cache_size : ℕ
huffman_cache_size = 0x8000

-- `decompress_ctx_t`, with the cache that `m_cache` points to. `out` is the output from `m_out` on,
-- and `written` the distance of `m_current_out` from it; `input` is the memory that `m_current`
-- walks through.
pub record Ctx : Type 0 where
  pub input : Mem
  pub end_addr : ℕ
  pub current : ℕ
  pub out : Mem
  pub written : ℕ
  pub bit_buffer : ℕ
  pub bits_count : ℕ
  pub cache_ptr : ℕ
  pub cache : Mem

unfoldable pub c_reset_bit_buffer : Ctx → Ctx
c_reset_bit_buffer ctx = record ctx { bit_buffer = 0; bits_count = 0 }

unfoldable pub c_read : Ctx → Ctx × ℕ
c_read ctx =
    if ltb ctx.end_addr ctx.current
    then (ctx, 0)
    else (record ctx { current = ctx.current + 1 }, ctx.input ctx.current)

-- `& HUFFMAN_CACHE_MASK` is the remainder by the cache's size.
unfoldable pub c_write : Ctx → ℕ → Ctx
c_write ctx byte = record ctx {
  cache = write ctx.cache ctx.cache_ptr byte;
  cache_ptr = (ctx.cache_ptr + 1) % huffman_cache_size;
  out = write ctx.out ctx.written byte;
  written = ctx.written + 1;
}

unfoldable pub c_write_from : Ctx → ℕ → Ctx
unfolding c_write
c_write_from ctx offset =
    c_write ctx (ctx.cache (sub64 (ctx.cache_ptr + huffman_cache_size) offset % huffman_cache_size))

unfoldable pub c_read16 : Ctx → Ctx × ℕ
c_read16 ctx = let a = c_read ctx in let b = c_read a.0 in (b.0, a.1 + 256 * b.1)

unfoldable pub c_read32 : Ctx → Ctx × ℕ
c_read32 ctx =
    let low = c_read16 ctx in let high = c_read16 low.0 in (high.0, low.1 + 0x10000 * high.1)

-- The bit buffer with the next byte in it, if it was empty.
unfoldable pub fill_bit_buffer : Ctx → Ctx
fill_bit_buffer ctx =
    let got = c_read ctx in
    if ctx.bits_count == 0 then record got.0 { bit_buffer = got.1; bits_count = 8 } else ctx

unfoldable pub c_read_bit : Ctx → Ctx × ℕ
c_read_bit ctx =
    let filled = fill_bit_buffer ctx in
    (
      record filled { bit_buffer = filled.bit_buffer / 2; bits_count = filled.bits_count - 1 },
      filled.bit_buffer % 2,
    )

-- `ret |= bit << i`: bit `i` of `ret` is still clear, so that the bit is added.
unfoldable pub read_bits_loop : ℕ → Ctx → ℕ → ℕ → Ctx × ℕ
read_bits_loop zero ctx i ret = (ctx, ret)
read_bits_loop (suc n) ctx i ret =
    let got = c_read_bit ctx in read_bits_loop n got.0 (i + 1) (ret + 2 ^ i * got.1)

unfoldable pub c_read_bits : Ctx → ℕ → Ctx × ℕ
c_read_bits ctx count = read_bits_loop count ctx 0 0

-- The bytes of a block that is not compressed.
unfoldable pub stored_loop : ℕ → Ctx → Ctx
stored_loop zero ctx = ctx
stored_loop (suc n) ctx = let got = c_read ctx in stored_loop n (c_write got.0 got.1)

unfoldable pub handle_non_compressed : Ctx → Ctx × ℤ
handle_non_compressed ctx =
    let len = c_read16 (c_reset_bit_buffer ctx) in
    let nlen = c_read16 len.0 in
    if not (len.1 == 0xFFFF - nlen.1) then (nlen.0, negsuc 0) else (stored_loop len.1 nlen.0, pos 0)

-- `length` bytes from `offset` back.
unfoldable pub copy_loop : ℕ → Ctx → ℕ → Ctx
copy_loop zero ctx offset = ctx
copy_loop (suc length) ctx offset = copy_loop length (c_write_from ctx offset) offset
