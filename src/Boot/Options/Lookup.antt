-- ===== src/Boot/Options/Lookup.antt =====
-- The look-ups of boot_config_from_file in the group `boot`, and what the configuration then holds.
use light_loader.Common.{
  ℕ, ◌≡◌, ◌<◌, inl, inr, refl, sym, ◌∙◌, ap, ◌==◌, ◌≤◌, Bool-cases, length, ge→ltb, Bool, true,
  false, not, ◌&&◌, Option, none, some, List, [], ◌∷◌, ◌++◌, lt→ltb, arith,
}
use mathlib.Core.List.{append-nil}
use light_loader.Common.Bytes.{Mem}
use light_loader.Config.Nodes.{
  ConfigNode, Nodes, group_node, nil, cons, group_value, is_null, list_of, find,
  config_file_get_node,
}
use light_loader.Config.Nodes.Paths.{NoDot, dotted, walk, get_node-walk}
use light_loader.Boot.Options.{
  light_boot_kernel_opts_len, kernel_opts_add_str, cleared_opts, HoldsText, NoNul, add_str_lem,
}
use light_loader.Boot.Options.Config.{
  BootMethod, raw, method_of, str_value, boot_name, protocol_name, kernel_cmd_name,
  kernel_image_name, ramdisk_image_name, boot_path, default_kernel_path, default_ramdisk_path,
  or_default, get_light_boot_protocol, get_quick_node_string, get_light_kernel_image,
  get_light_ramdisk_image, get_light_kernel_opts, boot_config_from_file, cut_at_nul, duplicate,
  copy_opts,
}

-- The string of an entry, if there is one and it is a string.
abbrev pub string_at : List ℕ → Nodes → Option (List ℕ)
string_at name ns = elim (find name ns) [ none ↦ none | some n ↦ str_value n ]

not_null :
    (name : List ℕ) (ns : Nodes) (g : ConfigNode) → find name ns ≡ some g → is_null ns ≡ false
unfolding find is_null
not_null name nil g h = absurd cc
not_null name (cons n ns) g h = refl

boot_walk :
    (file : ConfigNode) (k : List ℕ) (n : ConfigNode) (ns : Nodes) (name : List ℕ)
    → find boot_name (group_value file) ≡ some (group_node k (cons n ns))
    → walk (find boot_name (group_value file)) (name ∷ []) ≡ find name (cons n ns)
unfolding walk list_of group_value is_null
boot_walk file k n ns name f = rw f refl

dotted_one : (name : List ℕ) → boot_path name ≡ boot_name ++ dotted (name ∷ [])
unfolding dotted
dotted_one name = ap (λ l. boot_name ++ (b'.' ∷ l)) (sym (append-nil name))

-- An entry of the group.
boot_lookup :
    (file : ConfigNode) (k : List ℕ) (n : ConfigNode) (ns : Nodes) (c : ℕ) (name : List ℕ)
    → find boot_name (group_value file) ≡ some (group_node k (cons n ns))
    → NoDot (c ∷ name)
    → config_file_get_node file (boot_path (c ∷ name)) ≡ find (c ∷ name) (cons n ns)
boot_lookup file k n ns c name f d =
    ap (config_file_get_node file) (dotted_one (c ∷ name))
    ∙ get_node-walk file boot_name ((c ∷ name) ∷ [])
        (not_null boot_name (group_value file) (group_node k (cons n ns)) f)
        (omega arith, (omega arith, (omega arith, (omega arith, tt)))) (d, tt)
    ∙ boot_walk file k n ns (c ∷ name) f

string_lookup :
    (file : ConfigNode) (k : List ℕ) (n : ConfigNode) (ns : Nodes) (c : ℕ) (name : List ℕ)
    → find boot_name (group_value file) ≡ some (group_node k (cons n ns))
    → NoDot (c ∷ name)
    → get_quick_node_string file (boot_path (c ∷ name))
      ≡ duplicate (string_at (c ∷ name) (cons n ns))
unfolding get_quick_node_string
string_lookup file k n ns c name f d =
    rw (get_quick_node_string, boot_lookup file k n ns c name f d) refl

-- The names hold no dot.
abbrev dotless : List ℕ → Bool
dotless [] = true
dotless (c ∷ cs) = not (c == b'.') && dotless cs

dotless-NoDot : (cs : List ℕ) → dotless cs ≡ true → NoDot cs
dotless-NoDot [] h = tt
dotless-NoDot (c ∷ cs) h = (ground (arith, h), dotless-NoDot cs (ground (arith, h)))

-- The method for the entry of the protocol; a string that is not known, or no entry, stands for
-- `raw`.
abbrev pub method_at : Option ConfigNode → Option BootMethod
method_at o = elim o [
  | none ↦ some raw
  | some n ↦ elim (str_value n) [ none ↦ none | some s ↦ some (method_of s) ]
]

module _ (file : ConfigNode) (k : List ℕ) (n : ConfigNode) (ns : Nodes)
    (f : find boot_name (group_value file) ≡ some (group_node k (cons n ns))) where
  protocol_lem : get_light_boot_protocol file ≡ method_at (find protocol_name (cons n ns))
  unfolding get_light_boot_protocol
  protocol_lem =
      rw
        (
          get_light_boot_protocol,
          boot_lookup file k n ns b'p' _ f (dotless-NoDot protocol_name refl),
        )
        refl

  kernel_image_lem :
      get_light_kernel_image file
      ≡ or_default (duplicate (string_at kernel_image_name (cons n ns))) default_kernel_path
  unfolding get_light_kernel_image
  kernel_image_lem =
      ap (λ o. or_default o default_kernel_path)
        (string_lookup file k n ns b'k' _ f (dotless-NoDot kernel_image_name refl))

  ramdisk_image_lem :
      get_light_ramdisk_image file
      ≡ or_default (duplicate (string_at ramdisk_image_name (cons n ns))) default_ramdisk_path
  unfolding get_light_ramdisk_image
  ramdisk_image_lem =
      ap (λ o. or_default o default_ramdisk_path)
        (string_lookup file k n ns b'r' _ f (dotless-NoDot ramdisk_image_name refl))

  kernel_opts_lem :
      (allocated : Bool) (beyond : Mem)
      → get_light_kernel_opts allocated beyond file
        ≡ elim (duplicate (string_at kernel_cmd_name (cons n ns))) [
          | none ↦ some none
          | some s ↦ copy_opts allocated beyond s
        ]
  unfolding get_light_kernel_opts
  kernel_opts_lem allocated beyond =
      rw
        (
          get_light_kernel_opts,
          string_lookup file k n ns b'k' _ f (dotless-NoDot kernel_cmd_name refl),
        )
        refl

cut_at_nul-NoNul : (s : List ℕ) → NoNul (cut_at_nul s)
unfolding cut_at_nul
cut_at_nul-NoNul [] = tt
cut_at_nul-NoNul (c ∷ cs) = elim (Bool-cases (c == 0)) [
  | inl e ↦ rw e tt
  | inr e ↦ rw e (ground (arith, e), cut_at_nul-NoNul cs)
]

-- A command line, if there is one, holds no NUL, and fits in the buffer.
abbrev NoNulIn : Option (List ℕ) → Type 0
NoNulIn none = Unit {0}
NoNulIn (some s) = NoNul s

abbrev pub FitsIn : Option (List ℕ) → Type 0
FitsIn none = Unit {0}
FitsIn (some s) = length s ≤ light_boot_kernel_opts_len

duplicate-NoNulIn : (o : Option (List ℕ)) → NoNulIn (duplicate o)
unfolding duplicate
duplicate-NoNulIn none = tt
duplicate-NoNulIn (some s) = cut_at_nul-NoNul s

-- What a buffer that cannot be allocated leaves of the command line.
abbrev pub if_buffer : Bool → Option (List ℕ) → Option (List ℕ)
if_buffer false o = none
if_buffer true o = o

-- The options are null without a command line, and otherwise a buffer that holds it, with what lay
-- behind the buffer as it was.
abbrev pub OptionsHold : Mem → Option (List ℕ) → Option Mem → Type 0
OptionsHold beyond none opts = opts ≡ none
OptionsHold beyond (some s) opts =
    (buffer : Mem) × (opts ≡ some buffer)
    × HoldsText buffer s
    × ((i : ℕ) → light_boot_kernel_opts_len ≤ i → buffer i ≡ beyond i)

copied-HoldsText :
    (beyond : Mem) (s : List ℕ)
    → NoNul s
    → length s ≤ light_boot_kernel_opts_len
    → HoldsText (kernel_opts_add_str (cleared_opts beyond) s 0).0 s
      × ((i : ℕ)
          → light_boot_kernel_opts_len ≤ i
          → (kernel_opts_add_str (cleared_opts beyond) s 0).0 i ≡ beyond i)
unfolding cleared_opts
copied-HoldsText beyond s z fits =
    let (t, e, frame) = add_str_lem (cleared_opts beyond) s 0 z in
    (
      (t, λ i lo hi. frame i (inr (omega arith)) ∙ cleared i hi),
      λ i lo. frame i (inr (omega arith)) ∙ kept i lo,
    )
  where
    cleared : (i : ℕ) → i < light_boot_kernel_opts_len → cleared_opts beyond i ≡ 0
    cleared i h = rw (cleared_opts, lt→ltb i light_boot_kernel_opts_len h) refl

    kept : (i : ℕ) → light_boot_kernel_opts_len ≤ i → cleared_opts beyond i ≡ beyond i
    kept i h = rw (cleared_opts, ge→ltb i light_boot_kernel_opts_len h) refl

copy_opts-OptionsHold :
    (b : Bool) (beyond : Mem) (o : Option (List ℕ))
    → NoNulIn o
    → FitsIn o
    → (opts : Option Mem) × (elim o [ none ↦ some none | some s ↦ copy_opts b beyond s ]
        ≡ some opts)
      × OptionsHold beyond (if_buffer b o) opts
unfolding copy_opts
copy_opts-OptionsHold false beyond none z fits = (none, refl, refl)
copy_opts-OptionsHold true beyond none z fits = (none, refl, refl)
copy_opts-OptionsHold false beyond (some s) z fits = (none, refl, refl)
copy_opts-OptionsHold true beyond (some s) z fits =
    let buffer = (kernel_opts_add_str (cleared_opts beyond) s 0).0 in
    let held = copied-HoldsText beyond s z fits in
    (
      some buffer,
      rw (ge→ltb light_boot_kernel_opts_len (length s) fits) refl,
      (buffer, refl, held.0, held.1),
    )

-- Where the first group that a look-up of boot finds is not empty, the first entry that a look-up of
-- protocol finds in it is a string or there is none, and a string at kernel_cmd has at most as many
-- characters before its first NUL as the buffer of the options has bytes: the method is that of the
-- entry of the protocol; the paths are the strings at kernel_image and ramdisk_image up to their
-- first NUL, or the defaults; and the options are null if there is no string at kernel_cmd or the
-- buffer cannot be allocated, and otherwise begin with that string up to its first NUL, have NULs
-- behind it up to the end of the buffer, and leave what lies behind the buffer.
pub boot_config_from_file-group :
    (allocated : Bool) (beyond : Mem) (file : ConfigNode) (k : List ℕ) (n : ConfigNode) (ns : Nodes)
    (m : BootMethod)
    → find boot_name (group_value file) ≡ some (group_node k (cons n ns))
    → method_at (find protocol_name (cons n ns)) ≡ some m
    → FitsIn (duplicate (string_at kernel_cmd_name (cons n ns)))
    → (opts : Option Mem) × (boot_config_from_file allocated beyond file
        ≡ some (record {
          flags = 4;
          method = m;
          kernel_image =
              or_default (duplicate (string_at kernel_image_name (cons n ns))) default_kernel_path;
          ramdisk_image =
              or_default
                (duplicate (string_at ramdisk_image_name (cons n ns)))
                default_ramdisk_path;
          kernel_opts = opts;
        }))
      × OptionsHold beyond
          (if_buffer allocated (duplicate (string_at kernel_cmd_name (cons n ns))))
          opts
unfolding boot_config_from_file
boot_config_from_file-group allocated beyond file k n ns m f p fits =
    let o = duplicate (string_at kernel_cmd_name (cons n ns)) in
    let (opts, e, holds) =
      copy_opts-OptionsHold allocated beyond o
        (duplicate-NoNulIn (string_at kernel_cmd_name (cons n ns))) fits in
    (
      opts,
      rw
          (
            boot_config_from_file,
            protocol_lem file k n ns f ∙ p,
            kernel_opts_lem file k n ns f allocated beyond ∙ e,
            kernel_image_lem file k n ns f,
            ramdisk_image_lem file k n ns f,
          )
          refl,
      holds,
    )
