-- ===== src/Boot/Options/Config.antt =====
-- What boot_config_from_file takes from the group `boot` of a configuration file.
use light_loader.Common.{
  ℕ, ◌==◌, if◌then◌else◌, Bool, true, false, ◌&&◌, Option, none, some, List, [], ◌∷◌, ◌++◌, length,
  ltb,
}
use light_loader.Common.Bytes.{Mem}
use light_loader.Config.Nodes.{
  ConfigNode, string_node, num_node, list_node, group_node, config_file_get_node,
}
use light_loader.Boot.Options.{light_boot_kernel_opts_len, kernel_opts_add_str, cleared_opts}

-- LIGHT_BOOT_METHOD_t
pub data BootMethod : Type 0 where
  multiboot2 : BootMethod
  multiboot1 : BootMethod
  chainload : BootMethod
  linux : BootMethod
  raw : BootMethod

-- `strncmp` with a constant, which holds no NUL, and a length that takes in the constant's own NUL:
-- the string may end with its list or with a NUL in it.
unfoldable pub same_string : List ℕ → List ℕ → Bool
same_string [] [] = true
same_string [] (d ∷ ds) = false
same_string (c ∷ cs) [] = c == 0
same_string (c ∷ cs) (d ∷ ds) = c == d && same_string cs ds

abbrev pub boot_name : List ℕ
boot_name = b'b' ∷ b'o' ∷ b'o' ∷ b't' ∷ []

abbrev pub protocol_name : List ℕ
protocol_name = b'p' ∷ b'r' ∷ b'o' ∷ b't' ∷ b'o' ∷ b'c' ∷ b'o' ∷ b'l' ∷ []

abbrev pub kernel_cmd_name : List ℕ
kernel_cmd_name = b'k' ∷ b'e' ∷ b'r' ∷ b'n' ∷ b'e' ∷ b'l' ∷ b'_' ∷ b'c' ∷ b'm' ∷ b'd' ∷ []

abbrev pub kernel_image_name : List ℕ
kernel_image_name =
    b'k' ∷ b'e' ∷ b'r' ∷ b'n' ∷ b'e' ∷ b'l' ∷ b'_' ∷ b'i' ∷ b'm' ∷ b'a' ∷ b'g' ∷ b'e' ∷ []

abbrev pub ramdisk_image_name : List ℕ
ramdisk_image_name =
    b'r' ∷ b'a' ∷ b'm' ∷ b'd' ∷ b'i' ∷ b's' ∷ b'k' ∷ b'_' ∷ b'i' ∷ b'm' ∷ b'a' ∷ b'g' ∷ b'e' ∷ []

abbrev pub boot_path : List ℕ → List ℕ
boot_path name = boot_name ++ (b'.' ∷ name)

abbrev pub multiboot2_text : List ℕ
multiboot2_text = b'm' ∷ b'u' ∷ b'l' ∷ b't' ∷ b'i' ∷ b'b' ∷ b'o' ∷ b'o' ∷ b't' ∷ b'2' ∷ []

abbrev pub multiboot1_text : List ℕ
multiboot1_text = b'm' ∷ b'u' ∷ b'l' ∷ b't' ∷ b'i' ∷ b'b' ∷ b'o' ∷ b'o' ∷ b't' ∷ b'1' ∷ []

abbrev pub linux_text : List ℕ
linux_text = b'l' ∷ b'i' ∷ b'n' ∷ b'u' ∷ b'x' ∷ []

abbrev pub chain_text : List ℕ
chain_text = b'c' ∷ b'h' ∷ b'a' ∷ b'i' ∷ b'n' ∷ []

-- The tests of `__get_light_boot_protocol` on the string.
unfoldable pub method_of : List ℕ → BootMethod
method_of s =
    if same_string s multiboot2_text
    then multiboot2
    else if same_string s multiboot1_text
    then multiboot1
    else if same_string s linux_text
    then linux
    else if same_string s chain_text
    then chainload
    else raw

-- `str_value` of a node. A node of another type has something else in its place, which the source
-- reads as a string all the same: `none`.
unfoldable pub str_value : ConfigNode → Option (List ℕ)
str_value (string_node k v) = some v
str_value (num_node k n) = none
str_value (list_node k ns) = none
str_value (group_node k ns) = none

-- `none` is the read of a pointer that is none.
unfoldable pub get_light_boot_protocol : ConfigNode → Option BootMethod
get_light_boot_protocol file = elim (config_file_get_node file (boot_path protocol_name)) [
  | none ↦ some raw
  | some n ↦ elim (str_value n) [ none ↦ none | some s ↦ some (method_of s) ]
]

-- What `strlen` counts: the characters before the first NUL.
unfoldable pub cut_at_nul : List ℕ → List ℕ
cut_at_nul [] = []
cut_at_nul (c ∷ cs) = let rest = cut_at_nul cs in if c == 0 then [] else c ∷ rest

-- `strdup_ex` of a string with its `strlen`. The copy is taken to be allocated: the source writes to
-- it without a test.
unfoldable pub duplicate : Option (List ℕ) → Option (List ℕ)
duplicate none = none
duplicate (some s) = some (cut_at_nul s)

-- A copy of the string, or the null pointer.
unfoldable pub get_quick_node_string : ConfigNode → List ℕ → Option (List ℕ)
get_quick_node_string file path =
    duplicate (elim (config_file_get_node file path) [ none ↦ none | some n ↦ str_value n ])

-- The default paths.
abbrev pub default_kernel_path : List ℕ
default_kernel_path = b'a' ∷ b'n' ∷ b'i' ∷ b'v' ∷ b'a' ∷ b'.' ∷ b'e' ∷ b'l' ∷ b'f' ∷ []

abbrev pub default_ramdisk_path : List ℕ
default_ramdisk_path = b'r' ∷ b'd' ∷ b'i' ∷ b's' ∷ b'k' ∷ b'.' ∷ b'i' ∷ b'g' ∷ b'z' ∷ []

unfoldable pub or_default : Option (List ℕ) → List ℕ → List ℕ
or_default none d = d
or_default (some s) d = s

unfoldable pub get_light_kernel_image : ConfigNode → List ℕ
get_light_kernel_image file =
    or_default (get_quick_node_string file (boot_path kernel_image_name)) default_kernel_path

unfoldable pub get_light_ramdisk_image : ConfigNode → List ℕ
get_light_ramdisk_image file =
    or_default (get_quick_node_string file (boot_path ramdisk_image_name)) default_ramdisk_path

-- The copy to a cleared buffer, or the null pointer where the buffer cannot be allocated. `none` is a
-- text that does not fit: the source writes on behind the buffer.
unfoldable pub copy_opts : Bool → Mem → List ℕ → Option (Option Mem)
copy_opts false beyond opts = some none
copy_opts true beyond opts =
    if ltb light_boot_kernel_opts_len (length opts)
    then none
    else some (some (kernel_opts_add_str (cleared_opts beyond) opts 0).0)

unfoldable pub get_light_kernel_opts : Bool → Mem → ConfigNode → Option (Option Mem)
get_light_kernel_opts allocated beyond file =
    elim (get_quick_node_string file (boot_path kernel_cmd_name)) [
      | none ↦ some none
      | some opts ↦ copy_opts allocated beyond opts
    ]

-- `light_boot_config_t`, less the file itself.
pub record BootConfig : Type 0 where
  pub flags : ℕ
  pub method : BootMethod
  pub kernel_image : List ℕ
  pub ramdisk_image : List ℕ
  pub kernel_opts : Option Mem

-- `allocated` says whether the buffer of the options can be allocated. `none` is the read of a
-- pointer that is none, or a write behind the buffer.
unfoldable pub boot_config_from_file : Bool → Mem → ConfigNode → Option BootConfig
boot_config_from_file allocated beyond file = elim (get_light_boot_protocol file) [
  | none ↦ none
  | some m ↦ elim (get_light_kernel_opts allocated beyond file) [
    | none ↦ none
    | some opts ↦ some (record {
      flags = 4;
      method = m;
      kernel_image = get_light_kernel_image file;
      ramdisk_image = get_light_ramdisk_image file;
      kernel_opts = opts;
    })
  ]
]
