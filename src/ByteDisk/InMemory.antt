-- ===== src/ByteDisk/InMemory.antt =====
-- A device in memory, whose operations do not fail.
use light_loader.Common.{
  ℕ, ◌+◌, ◌-◌, ◌≤◌, ◌<◌, ◌≡◌, refl, ◌⊎◌, ltb, if◌then◌else◌, arith, pos, lt→ltb, ge→ltb,
}
use light_loader.Common.Bytes.{Mem}
use light_loader.ByteDisk.{ByteDisk}

abbrev read_memory : Mem → Mem → ℕ → ℕ → Mem
read_memory d b size offset x = if ltb x size then d (offset + x) else b x

abbrev pub write_memory : Mem → Mem → ℕ → ℕ → Mem
write_memory d b size offset a =
    if ltb a offset then d a else if ltb a (offset + size) then b (a - offset) else d a

pub write_memory-inside :
    (d b : Mem) (size offset j : ℕ) → j < size → write_memory d b size offset (offset + j) ≡ b j
write_memory-inside d b size offset j lt =
    let at : offset + j - offset ≡ j = omega arith in
    rw
      (
        ge→ltb (offset + j) offset (omega arith),
        lt→ltb (offset + j) (offset + size) (omega arith),
        at,
      )
      refl

pub write_memory-outside :
    (d b : Mem) (size offset a : ℕ)
    → (a < offset) ⊎ (offset + size ≤ a)
    → write_memory d b size offset a ≡ d a
write_memory-outside d b size offset a o = ground arith

abbrev pub memory_disk : ByteDisk
memory_disk = record {
  Dev = Mem;
  byte = λ d. d;
  reach = 1099511627776;
  Sound = λ d. Unit {0};
  f_read = λ d b size offset. (d, read_memory d b size offset, pos 0);
  f_write = λ d b size offset. (write_memory d b size offset, pos 0);
  read_ok = λ d b size offset s w. refl;
  read_inside = λ d b size offset j s w lt. rw (lt→ltb j size lt) refl;
  read_outside = λ d b size offset j s w le. rw (ge→ltb j size le) refl;
  read_sound = λ d b size offset s w. tt;
  read_keeps = λ d b size offset a s w. refl;
  write_ok = λ d b size offset s w. refl;
  write_sound = λ d b size offset s w. tt;
  write_inside = λ d b size offset j s w lt. write_memory-inside d b size offset j lt;
  write_outside = λ d b size offset a s w o. write_memory-outside d b size offset a o;
}
