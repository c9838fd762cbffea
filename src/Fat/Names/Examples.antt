-- ===== src/Fat/Names/Examples.antt =====
-- Names with an extension.
use light_loader.Common.{◌+◌, ◌≡◌, refl, ltb, ◌==◌, if◌then◌else◌, true, arith, none}
use light_loader.Common.Bytes.{Mem}
use light_loader.Fat.Names.{transform_fat_filename}
use light_loader.Fat.Names.Endless.{transform_fat_filename-LongExtension}
use light_loader.Fat.Names.Transform.{Split, Padded, Named, transform_fat_filename-Padded}

-- "abc.md" and "a.ttt".
abbrev split_name : Mem
split_name x =
    if ltb x 3
    then b'a' + x
    else if x == 3
    then b'.'
    else if x == 4
    then b'm'
    else if x == 5
    then b'd'
    else 0

abbrev long_name : Mem
long_name x = if x == 0 then b'a' else if x == 1 then b'.' else if ltb x 5 then b't' else 0

split_name-Split : Split split_name 3 2
split_name-Split = record {
  base = λ k lt. (ground arith, ground arith);
  dot = refl;
  extension = λ k lt. ground arith;
  end = refl;
  base_len = omega arith;
  extension_pos = omega arith;
  extension_len = omega arith;
  fits = omega arith;
}

transform_fat_filename-Padded_example :
    Named true (Padded split_name 3 2) (transform_fat_filename 6 split_name)
transform_fat_filename-Padded_example =
    transform_fat_filename-Padded split_name 3 2 6 split_name-Split (omega arith)

transform_fat_filename-LongExtension_example : transform_fat_filename 1000 long_name ≡ none
transform_fat_filename-LongExtension_example =
    transform_fat_filename-LongExtension long_name 1 1000
      (record {
        base = λ k lt. (ground arith, ground arith);
        dot = refl;
        extension = λ k le. ground arith;
        base_pos = omega arith;
        base_len = omega arith;
      })
      (omega arith)
