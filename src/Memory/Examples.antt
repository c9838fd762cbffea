-- ===== src/Memory/Examples.antt =====
-- A memory that spells "abc" at address 0 and "abd" at address 8.
use light_loader.Common.{ℕ, ◌≡◌, ◌↔◌, refl, false, true, pos, negsuc, ◌==◌, if◌then◌else◌, arith}
use light_loader.Common.Bytes.{Mem}
use light_loader.Memory.{memcmp, strncmp, to_string}
use light_loader.Memory.Strings.{SameText, strncmp_iff}
use light_loader.Memory.Decimal.{HasDigits, Text, to_string-decimal}

abbrev words : Mem
words = λ a.
    if a == 0
    then b'a'
    else if a == 1
    then b'b'
    else if a == 2
    then b'c'
    else if a == 8
    then b'a'
    else if a == 9
    then b'b'
    else if a == 10
    then b'd'
    else 0

prefix_test : memcmp words 0 8 2 ≡ true
unfolding memcmp
prefix_test = refl

whole_test : memcmp words 0 8 3 ≡ false
unfolding memcmp
whole_test = refl

order_test : strncmp words 0 8 3 ≡ negsuc 0
unfolding strncmp
order_test = refl

to_string-decimal_example : (n : ℕ) × HasDigits n 4096 × Text n 4096 (to_string 4096)
to_string-decimal_example = to_string-decimal 4096 (omega arith)

strncmp_iff_example : (strncmp words 0 8 2 ≡ pos 0) ↔ SameText 2 words 0 8 0
strncmp_iff_example = strncmp_iff words 0 8 2
