-- ===== src/Reloc.antt =====
-- Where the parts of a kernel go before it is entered: the list of relocations of
-- common/relocations.c, and the segments of an ELF file that common/lelf.c puts in it.
pub mod Nearest
pub mod Highest
pub mod Entry
pub mod Segments
pub mod Overlap
mod Examples
use light_loader.Common.{
  ℕ, zero, suc, ◌+◌, ◌*◌, ◌==◌, ltb, leb, if◌then◌else◌, Bool, true, false, not, ◌&&◌, ◌||◌, Option,
  none, some, List, [], ◌∷◌, ◌++◌, w64, add64, sub64, ℤ, pos, negsuc,
}
use light_loader.Common.Bytes.{Mem, load}
use light_loader.Memory.{MmapEntry, memcmp, memory_get_closest_usable_addr}

-- `light_relocation_t`; the links are the order of the list.
pub record Relocation : Type 0 where
  pub current : ℕ
  pub target : ℕ
  pub size : ℕ

-- What the slot that `__find_relocation` returns points to: the relocation found, or the null
-- pointer at the end of the list.
unfoldable pub find_relocation : List Relocation → ℕ → ℕ → Option Relocation
find_relocation [] addr size = none
find_relocation (i ∷ is) addr size =
    let next = find_relocation is addr size in
    if i.target == addr && i.size == size then some i else next

-- With the relocation that is returned; the allocation of the node is taken to succeed, as the
-- source does.
unfoldable pub create_relocation : List Relocation → ℕ → ℕ → ℕ → List Relocation × Option Relocation
create_relocation list current target size =
    let reloc : Relocation = record { current = current; target = target; size = size } in
    elim (find_relocation list target size) [
      | none ↦ (list ++ (reloc ∷ []), some reloc)
      | some _ ↦ (list, none)
    ]

unfoldable pub relocation_does_overlap : List Relocation → ℕ → ℕ → Bool
relocation_does_overlap [] addr size = false
relocation_does_overlap (i ∷ is) addr size =
    let end_ = add64 i.target i.size in
    let next = relocation_does_overlap is addr size in
    if ltb end_ addr
    then next
    else if leb addr i.target && leb i.target (add64 addr size)
    then true
    else if ltb i.target addr && leb addr end_
    then true
    else next

-- The loop of `highest_relocation_addr`.
unfoldable pub highest_loop : List Relocation → ℕ → ℕ
highest_loop [] ret = ret
highest_loop (i ∷ is) ret =
    let end_ = add64 i.target i.size in
    let taken = highest_loop is end_ in
    let next = highest_loop is ret in if ltb ret end_ then taken else next

-- `uninit` is what the uninitialised variable of the search holds in each round; `none` is out of
-- fuel.
unfoldable pub highest_relocation_addr :
    ℕ → (ℕ → ℕ) → List MmapEntry → List Relocation → ℕ → Option ℕ
highest_relocation_addr zero uninit mmap list previous_addr = none
highest_relocation_addr (suc fuel) uninit mmap list previous_addr =
    let ret = memory_get_closest_usable_addr (uninit fuel) mmap (highest_loop list previous_addr) in
    let again = highest_relocation_addr fuel uninit mmap list ret in
    if ret == previous_addr then some ret else again

-- `Elf64_Phdr`, the fields that are read.
pub record Phdr : Type 0 where
  pub p_type : ℕ
  pub p_offset : ℕ
  pub p_vaddr : ℕ
  pub p_paddr : ℕ
  pub p_memsz : ℕ

unfoldable pub phdr_at : Mem → ℕ → Phdr
phdr_at m a = record {
  p_type = load 4 m a;
  p_offset = load 8 m (a + 8);
  p_vaddr = load 8 m (a + 16);
  p_paddr = load 8 m (a + 24);
  p_memsz = load 8 m (a + 40);
}

-- `Elf64_Ehdr`, the fields that are read.
pub record Ehdr : Type 0 where
  pub e_machine : ℕ
  pub e_entry : ℕ
  pub e_phoff : ℕ
  pub e_phentsize : ℕ
  pub e_phnum : ℕ

unfoldable pub ehdr_at : Mem → ℕ → Ehdr
ehdr_at m a = record {
  e_machine = load 2 m (a + 18);
  e_entry = load 8 m (a + 24);
  e_phoff = load 8 m (a + 32);
  e_phentsize = load 2 m (a + 54);
  e_phnum = load 2 m (a + 56);
}

abbrev pub em_x86_64 : ℕ
em_x86_64 = 62

abbrev pub pt_load : ℕ
pt_load = 1

-- What `load_relocatable_elf` writes through its pointers.
pub record Loaded : Type 0 where
  pub entry : ℕ
  pub count : ℕ
  pub relocations : List Relocation

-- The entry point moves with the segment that holds it.
unfoldable pub move_entry : ℕ → Phdr → ℕ → ℕ
move_entry e_entry p entry =
    if entry == e_entry && leb p.p_vaddr entry && ltb entry (add64 p.p_vaddr p.p_memsz)
    then add64 (sub64 entry p.p_vaddr) p.p_paddr
    else entry

-- Behind the test of `create_relocation`.
unfoldable pub counted : ℕ → Phdr → Loaded → List Relocation → Loaded
counted e_entry p s list = record {
  entry = move_entry e_entry p s.entry;
  count = add64 s.count 1;
  relocations = list;
}

-- The loop over the program headers, from the `i`-th on with `n` left.
unfoldable pub phdr_loop : ℕ → Mem → ℕ → Ehdr → ℕ → Loaded → Loaded × ℤ
phdr_loop zero m buffer hdr i s = (s, pos 0)
phdr_loop (suc n) m buffer hdr i s =
    let p = phdr_at m (add64 (add64 buffer hdr.e_phoff) (i * hdr.e_phentsize)) in
    let made = create_relocation s.relocations (add64 buffer p.p_offset) p.p_paddr p.p_memsz in
    let skip = phdr_loop n m buffer hdr (i + 1) s in
    let next = phdr_loop n m buffer hdr (i + 1) (counted hdr.e_entry p s made.0) in
    if not (p.p_type == pt_load)
    then skip
    else elim made.1 [ none ↦ (record s { relocations = made.0 }, negsuc 0) | some _ ↦ next ]

-- `elfmag` is the address of the string ELFMAG.
unfoldable pub load_relocatable_elf : Mem → ℕ → ℕ → Loaded → Loaded × ℤ
load_relocatable_elf m elfmag buffer s =
    let hdr = ehdr_at m buffer in
    if not (memcmp m buffer elfmag 4)
    then (s, negsuc 0)
    else if not (hdr.e_machine == em_x86_64)
    then (s, negsuc 0)
    else phdr_loop hdr.e_phnum m buffer hdr 0 (record s { entry = hdr.e_entry; count = 0 })
