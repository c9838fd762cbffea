-- ===== src/Memory.antt =====
-- The memory and string routines of common/memory.c, over byte memory. Loops count the rounds left,
-- or take fuel where the source stops at a byte that it finds.
pub mod Copy
pub mod Strings
pub mod Decimal
pub mod Map
mod Examples
use light_loader.Common.{
  ℕ, zero, suc, ◌+◌, ◌-◌, ◌/◌, ◌%◌, ◌==◌, ltb, leb, if◌then◌else◌, Bool, true, false, not, ◌&&◌,
  Option, none, some, List, [], ◌∷◌, w8, w64, add64, sub64, ℤ, pos, negsuc,
}
use light_loader.Common.Bytes.{Mem, write}
use light_loader.Heap.{Heap, heap_allocate}

unfoldable pub memset_loop : ℕ → Mem → ℕ → ℕ → ℕ → Mem
memset_loop zero m itt val i = m
memset_loop (suc n) m itt val i = memset_loop n (write m (add64 itt i) (val % w8)) itt val (i + 1)

unfoldable pub memset : Mem → ℕ → ℕ → ℕ → Mem
unfolding memset_loop
memset m start val size = memset_loop size m start val 0

unfoldable pub memcpy_loop : ℕ → Mem → ℕ → ℕ → ℕ → Mem
memcpy_loop zero m dst src i = m
memcpy_loop (suc n) m dst src i =
    memcpy_loop n (write m (add64 dst i) (m (add64 src i))) dst src (i + 1)

-- The memory behind the copy; the result of the source is `dst` again.
unfoldable pub memcpy : Mem → ℕ → ℕ → ℕ → Mem
unfolding memcpy_loop
memcpy m dst src size = memcpy_loop size m dst src 0

unfoldable pub memcmp_loop : ℕ → Mem → ℕ → ℕ → ℕ → Bool
memcmp_loop zero m a b i = true
memcmp_loop (suc n) m a b i =
    let rest = memcmp_loop n m a b (i + 1) in
    if not (m (add64 a i) == m (add64 b i)) then false else rest

unfoldable pub memcmp : Mem → ℕ → ℕ → ℕ → Bool
unfolding memcmp_loop
memcmp m a b size = memcmp_loop size m a b 0

-- `char` is signed: the order of the bytes read as two's complement.
unfoldable pub char_lt : ℕ → ℕ → Bool
char_lt c1 c2 = ltb ((c1 + 128) % w8) ((c2 + 128) % w8)

unfoldable pub strncmp_loop : ℕ → Mem → ℕ → ℕ → ℕ → ℤ
unfolding char_lt
strncmp_loop zero m s1 s2 i = pos 0
strncmp_loop (suc n) m s1 s2 i =
    let c1 = m (add64 s1 i) in
    let c2 = m (add64 s2 i) in
    let rest = strncmp_loop n m s1 s2 (i + 1) in
    if not (c1 == c2)
    then (if char_lt c1 c2 then negsuc 0 else pos 1)
    else if c1 == 0
    then pos 0
    else rest

unfoldable pub strncmp : Mem → ℕ → ℕ → ℕ → ℤ
unfolding strncmp_loop
strncmp m s1 s2 n = strncmp_loop n m s1 s2 0

-- `none` is out of fuel.
unfoldable pub strlen_loop : ℕ → Mem → ℕ → ℕ → Option ℕ
strlen_loop zero m s ret = none
strlen_loop (suc fuel) m s ret =
    let rest = strlen_loop fuel m s (ret + 1) in if m (add64 s ret) == 0 then some ret else rest

unfoldable pub strlen : ℕ → Mem → ℕ → Option ℕ
unfolding strlen_loop
strlen fuel m s = strlen_loop fuel m s 0

-- The copy goes to what `heap_allocate` returns, `NULL` included.
unfoldable pub strdup_ex : ℕ → Heap → ℕ → ℕ → Option (Heap × ℕ)
strdup_ex fuel h s len = elim (heap_allocate fuel h (add64 len 1)) [
  | none ↦ none
  | some (h', ret) ↦
      some (record h' { mem = write (memcpy h'.mem ret s len) (add64 ret len) 0 }, ret)
]

-- `while (size_test / 10 > 0)`, with `size` a uint8_t.
unfoldable pub size_loop : ℕ → ℕ → ℕ → ℕ
size_loop zero size_test size = size
size_loop (suc fuel) size_test size =
    let rest = size_loop fuel (size_test / 10) ((size + 1) % w8) in
    if ltb 0 (size_test / 10) then rest else size

-- `while (val / 10 > 0)`: the digits from the last one on, and what is left of `val` and `index`.
unfoldable pub digit_loop : ℕ → Mem → ℕ → ℕ → ℕ → Mem × ℕ × ℕ
digit_loop zero b size val index = (b, val, index)
digit_loop (suc fuel) b size val index =
    let rest =
      digit_loop fuel (write b (size - index) (val % 10 + b'0')) size (val / 10)
        ((index + 1) % w8) in
    if ltb 0 (val / 10) then rest else (b, val, index)

-- A uint64_t has 20 digits at most.
abbrev pub to_string_fuel : ℕ
to_string_fuel = 20

-- The buffer `to_str_buff`, which starts out as zeros.
unfoldable pub to_string : ℕ → Mem
to_string value =
    let size = size_loop to_string_fuel value 0 in
    let (b, val, index) = digit_loop to_string_fuel (λ _. 0) size value 0 in
    write (write b (size - index) (val % 10 + b'0')) (size + 1) 0

-- `light_mmap_entry_t`
pub record MmapEntry : Type 0 where
  pub type : ℕ
  pub paddr : ℕ
  pub size : ℕ

abbrev pub memmap_usable : ℕ
memmap_usable = 1

-- `best` starts out as whatever the uninitialised `best_addr` holds.
unfoldable pub closest_loop : ℕ → ℕ → List MmapEntry → ℕ
closest_loop addr best [] = best
closest_loop addr best (e ∷ es) =
    let skip = closest_loop addr best es in
    let closer = closest_loop addr e.paddr es in
    if not (e.type == memmap_usable)
    then skip
    else if leb e.paddr addr && ltb addr (add64 e.paddr e.size)
    then addr
    else if ltb (add64 e.paddr e.size) addr
    then skip
    else if ltb (sub64 e.paddr addr) (sub64 best addr)
    then closer
    else skip

unfoldable pub memory_get_closest_usable_addr : ℕ → List MmapEntry → ℕ → ℕ
unfolding closest_loop
memory_get_closest_usable_addr uninit mmap addr = closest_loop addr uninit mmap
