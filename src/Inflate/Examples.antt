-- ===== src/Inflate/Examples.antt =====
-- A decoder behind two bytes of output, and one in front of a block of three bytes.
use light_loader.Common.{◌+◌, ◌≡◌, refl, ◌==◌, if◌then◌else◌, arith, pos}
use light_loader.Common.Bytes.{Mem}
use light_loader.Inflate.{Ctx, c_write, copy_loop, handle_non_compressed}
use light_loader.Inflate.Window.{Window, Repeats, c_write-Window, copy_loop-Repeats}
use light_loader.Inflate.Stored.{Appends, handle_non_compressed-Appends}

-- Length 3, its complement, and the bytes.
abbrev stored : Mem
stored = λ a.
    if a == 0
    then 3
    else if a == 2
    then 0xFC
    else if a == 3
    then 0xFF
    else if a == 4
    then 65
    else if a == 5
    then 66
    else if a == 6
    then 67
    else 0

abbrev fresh : Ctx
fresh = record {
  input = stored;
  end_addr = 7;
  current = 0;
  out = λ _. 0;
  written = 0;
  bit_buffer = 0;
  bits_count = 0;
  cache_ptr = 0;
  cache = λ _. 0;
}

fresh-Window : Window fresh
fresh-Window = record { index = refl; back = λ d lo hi le. absurd (omega arith) }

abbrev two_bytes : Ctx
two_bytes = c_write (c_write fresh 65) 66

copy_loop-Repeats_example : Repeats 5 2 two_bytes (copy_loop 5 two_bytes 2)
unfolding c_write
copy_loop-Repeats_example =
    copy_loop-Repeats 5 two_bytes 2
      (c_write-Window (c_write fresh 65) 66 (c_write-Window fresh 65 fresh-Window)) (omega arith)
      (omega arith) (omega arith)

handle_non_compressed-Appends_example :
    ((handle_non_compressed fresh).1 ≡ pos 0)
    × Appends 3 (fresh.current + 4) fresh (handle_non_compressed fresh).0
handle_non_compressed-Appends_example =
    handle_non_compressed-Appends fresh 3 fresh-Window refl refl (omega arith)
