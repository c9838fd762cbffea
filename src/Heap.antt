-- ===== src/Heap.antt =====
-- The boot heap, common/heap.c: an intrusive list of headers in byte memory.
pub mod Blocks
pub mod Header
pub mod Fit
pub mod Allocate
pub mod Merge
pub mod Free
pub mod Release
pub mod Contract
pub mod Reclaim
mod Examples
use light_loader.Common.{
  ℕ, zero, suc, ◌+◌, ◌-◌, ◌%◌, ◌*◌, ◌==◌, ltb, leb, if◌then◌else◌, Bool, not, ◌&&◌, ◌||◌, Option,
  none, some, w32, add64, sub64, add32,
}
use light_loader.Common.Bytes.{Mem, load, store}

-- `heap_start`, `heap_end` and `heap_limit`, and the memory that the nodes stand in. Addresses are
-- numbers; `NULL` is 0.
pub record Heap : Type 0 where
  pub heap_start : ℕ
  pub heap_end : ℕ
  pub heap_limit : ℕ
  pub mem : Mem

abbrev pub heap_node_signature : ℕ
heap_node_signature = 0x1AA5

abbrev pub initial_heap_limit : ℕ
initial_heap_limit = 128 * 1024 * 1024

abbrev pub sizeof_heap_node : ℕ
sizeof_heap_node = 16

-- ALIGN_UP on `size_t`.
unfoldable pub align_up : ℕ → ℕ → ℕ
align_up addr size = if addr % size == 0 then addr else sub64 (add64 addr size) (addr % size)

-- The fields of `struct heap_node` at address `a`, and the writes to them.
unfoldable pub node_size : Mem → ℕ → ℕ
node_size m a = load 4 m a

unfoldable pub node_signature : Mem → ℕ → ℕ
node_signature m a = load 2 m (a + 4)

unfoldable pub node_flags : Mem → ℕ → ℕ
node_flags m a = load 2 m (a + 6)

unfoldable pub node_next : Mem → ℕ → ℕ
node_next m a = load 8 m (a + 8)

unfoldable pub set_size : ℕ → ℕ → Mem → Mem
set_size a v m = store 4 m a (v % w32)

unfoldable pub set_signature : ℕ → ℕ → Mem → Mem
set_signature a v m = store 2 m (a + 4) v

unfoldable pub set_flags : ℕ → ℕ → Mem → Mem
set_flags a v m = store 2 m (a + 6) v

unfoldable pub set_next : ℕ → ℕ → Mem → Mem
set_next a v m = store 8 m (a + 8) v

-- `flags & HEAP_NODE_FLAG_USED`, which is bit 0.
unfoldable pub is_used : Mem → ℕ → Bool
is_used m a = node_flags m a % 2 == 1

unfoldable pub mark_used : ℕ → Mem → Mem
mark_used a m = set_flags a (node_flags m a - node_flags m a % 2 + 1) m

unfoldable pub mark_free : ℕ → Mem → Mem
mark_free a m = set_flags a (node_flags m a - node_flags m a % 2) m

unfoldable pub node_from_address : Mem → ℕ → ℕ
node_from_address m address =
    if address == 0
    then 0
    else let node = sub64 address sizeof_heap_node in
      if node_signature m node == heap_node_signature then node else 0

unfoldable pub init_heap : ℕ → ℕ → Mem → Heap
init_heap heap_addr heap_size m = record {
  heap_start = heap_addr;
  heap_end = add64 heap_addr heap_size;
  heap_limit = initial_heap_limit;
  mem = set_flags heap_addr 0 (
      set_next heap_addr 0
        (set_size heap_addr initial_heap_limit (set_signature heap_addr heap_node_signature m)));
}

-- The grown heap and the previous limit, or `NULL`.
unfoldable pub sbrk : Heap → ℕ → Heap × ℕ
sbrk h size =
    let ret = add64 h.heap_start h.heap_limit in
    if leb h.heap_end (add64 ret size)
    then (h, 0)
    else (record h { heap_limit = add64 h.heap_limit size }, ret)

-- The body of the search loop of `heap_allocate`: the test on a node, and what is done to one that
-- passes it. The two writes to the old node come last, as in the source.
unfoldable pub can_take : Mem → ℕ → ℕ → Bool
can_take m node size = not (is_used m node) && leb size (sub64 (node_size m node) sizeof_heap_node)

unfoldable pub split_node : Mem → ℕ → ℕ → Mem × ℕ
split_node m node new_node_size =
    let new_node = sub64 (add64 node (node_size m node)) new_node_size in
    let m1 = set_next new_node (node_next m node) m in
    let m2 = set_size new_node new_node_size m1 in
    let m3 = set_signature new_node heap_node_signature m2 in
    let m4 = set_flags new_node 1 m3 in
    let m5 = set_next node new_node m4 in
    let m6 = set_size node (sub64 (node_size m5 node) new_node_size) m5 in
    (m6, add64 new_node sizeof_heap_node)

unfoldable pub take_node : Mem → ℕ → ℕ → Mem × ℕ
take_node m node size =
    let new_node_size = align_up (add64 size sizeof_heap_node) 8 in
    if new_node_size == node_size m node
    then (mark_used node m, add64 node sizeof_heap_node)
    else split_node m node new_node_size

-- The search loop, with fuel for the nodes that it visits; `none` is out of fuel.
unfoldable pub allocate_loop : ℕ → ℕ → Mem → ℕ → Option (Mem × ℕ)
allocate_loop zero size m node = none
allocate_loop (suc fuel) size m node =
    let rest = allocate_loop fuel size m (node_next m node) in
    if node == 0
    then some (m, 0)
    else if can_take m node size
    then some (take_node m node size)
    else rest

unfoldable pub heap_allocate : ℕ → Heap → ℕ → Option (Heap × ℕ)
heap_allocate fuel h size =
    if size == 0 then some (h, 0) else elim (allocate_loop fuel size h.mem h.heap_start) [
      | none ↦ none
      | some (m, addr) ↦ some (record h { mem = m }, addr)
    ]

-- `while (node->next && !(node->next->flags & USED))`: the free nodes above are merged into `node`.
unfoldable pub merge_next : ℕ → Mem → ℕ → Option Mem
merge_next zero m node = none
merge_next (suc fuel) m node =
    let next = node_next m node in
    let m1 = set_size node (add32 (node_size m node) (node_size m next)) m in
    let rest = merge_next fuel (set_next node (node_next m1 (node_next m1 node)) m1) node in
    if next == 0 then some m else if is_used m next then some m else rest

-- The walk from `heap_start` to `node`: the pair (prev, ittr) that the loop ends with.
unfoldable pub find_node : ℕ → Mem → ℕ → ℕ → ℕ → Option (ℕ × ℕ)
find_node zero m node prev ittr = none
find_node (suc fuel) m node prev ittr =
    let rest = find_node fuel m node ittr (node_next m ittr) in
    if ittr == 0 then some (prev, 0) else if ittr == node then some (prev, ittr) else rest

-- From the tests behind the walk to the end of `heap_free`.
unfoldable pub merge_prev : Mem → ℕ → ℕ × ℕ → Mem
merge_prev m node (prev, ittr) =
    if ittr == 0 || prev == 0 || is_used m prev || not (node_next m prev == node)
    then mark_free node m
    else let m1 = set_size prev (add32 (node_size m prev) (node_size m node)) m in
      mark_free prev (set_next prev (node_next m1 node) m1)

unfoldable pub free_node : ℕ → Heap → ℕ → Option Heap
free_node fuel h node = elim (merge_next fuel h.mem node) [
  | none ↦ none
  | some m ↦ elim (find_node fuel m node 0 h.heap_start) [
    | none ↦ none
    | some found ↦ some (record h { mem = merge_prev m node found })
  ]
]

unfoldable pub heap_free : ℕ → Heap → ℕ → Option Heap
heap_free fuel h addr =
    if ltb addr h.heap_start || leb h.heap_limit addr
    then some h
    else let node = node_from_address h.mem addr in
      if node == 0 then some h else free_node fuel h node
