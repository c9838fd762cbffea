-- ===== src/Heap/Examples.antt =====
-- A heap at 1 MiB of 256 MiB, as init_heap leaves it and with its one block in use.
use light_loader.Common.{ℕ, ◌+◌, refl, Bool, true, false, List, [], ◌∷◌, inl, arith}
use light_loader.Common.Bytes.{Mem, load, store, write}
use light_loader.Heap.{
  Heap, init_heap, initial_heap_limit, heap_allocate, heap_free, node_size, node_signature,
  node_flags, node_next,
}
use light_loader.Heap.Blocks.{Block, block, first_fit, needed}
use light_loader.Heap.Contract.{
  Represents, Allocates, init_heap-Represents, heap_allocate-first_fit,
}
use light_loader.Heap.Reclaim.{FreesTo, heap_free-release}

abbrev zeros : Mem
zeros = λ _. 0

abbrev start : ℕ
start = 0x100000

abbrev heap0 : Heap
heap0 = init_heap start 0x10000000 zeros

abbrev whole : Bool → List Block
whole used = block initial_heap_limit used ∷ []

-- The same heap with its block in use.
abbrev full_heap : Heap
full_heap = record {
  heap_start = start;
  heap_end = 0x10100000;
  heap_limit = initial_heap_limit;
  mem = store 2 (store 4 (store 2 zeros (start + 4) 0x1AA5) start initial_heap_limit) (start + 6) 1;
}

full_heap-Represents : Represents full_heap (whole true)
unfolding node_size node_signature node_flags node_next load store write
full_heap-Represents = record {
  chain = (
    record { size_eq = refl; signature_eq = refl; flags_eq = refl; next_eq = refl },
    omega arith,
    tt,
  );
  first = refl;
  start_pos = omega arith;
  total = refl;
  top = omega arith;
}

init_heap-Represents_example : Represents heap0 (whole false)
init_heap-Represents_example =
    init_heap-Represents start 0x10000000 zeros (omega arith) (omega arith)

heap_allocate-first_fit_example :
    Allocates heap0 100
      (whole false)
      (first_fit 100 heap0.heap_start (whole false))
      (heap_allocate 2 heap0 100)
unfolding needed
heap_allocate-first_fit_example =
    heap_allocate-first_fit 2 100 heap0 (whole false)
      (init_heap-Represents start 0x10000000 zeros (omega arith) (omega arith)) (omega arith)
      ((λ _ _. omega arith), tt) (omega arith)

heap_free-release_example :
    FreesTo full_heap start (whole true) (heap_free 2 full_heap (start + 16))
heap_free-release_example =
    heap_free-release 2 start full_heap (whole true) full_heap-Represents (inl refl) (omega arith)
      (omega arith)
