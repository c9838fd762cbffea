-- ===== src/Boot/Options.antt =====
-- The boot configuration: what boot_config_from_file takes from a configuration file, and the kernel
-- options that boot_add_kernel_opt appends.
pub mod Config
pub mod Lookup
use light_loader.Common.{
  ℕ, zero, suc, ◌+◌, ◌*◌, ◌≤◌, ◌<◌, ◌≡◌, ◌≢◌, refl, sym, ◌∙◌, ap, ◌⊎◌, inl, inr, ◌==◌, ==_refl,
  lt→==_false, gt→==_false, ge→ltb, lt→ltb, if◌then◌else◌, Bool, true, false, not, Option, none,
  some, List, [], ◌∷◌, ◌++◌, length, length-append, ltb, arith,
}
use mathlib.Core.Path.{subst}
use light_loader.Common.Bytes.{Mem, write}

abbrev pub light_boot_kernel_opts_len : ℕ
light_boot_kernel_opts_len = 0x1000

-- `_kernel_opts_add_str`, with the index behind the text: a buffer is a memory of its own, and a
-- string the list of its characters before the NUL.
unfoldable pub kernel_opts_add_str : Mem → List ℕ → ℕ → Mem × ℕ
kernel_opts_add_str opts [] idx = (opts, idx)
kernel_opts_add_str opts (c ∷ cs) idx = kernel_opts_add_str (write opts idx c) cs (idx + 1)

-- The search for the end of the text; `none` is out of fuel.
unfoldable pub end_loop : ℕ → Mem → ℕ → Option ℕ
end_loop zero opts idx = none
end_loop (suc fuel) opts idx =
    let rest = end_loop fuel opts (idx + 1) in if opts idx == 0 then some idx else rest

-- The five parts of an option.
unfoldable pub add_parts : Mem → ℕ → List ℕ → List ℕ → Mem
add_parts opts idx key value =
    let (o1, i1) = kernel_opts_add_str opts (b' ' ∷ []) idx in
    let (o2, i2) = kernel_opts_add_str o1 key i1 in
    let (o3, i3) = kernel_opts_add_str o2 (b'=' ∷ 0x27 ∷ []) i2 in
    let (o4, i4) = kernel_opts_add_str o3 value i3 in (kernel_opts_add_str o4 (0x27 ∷ []) i4).0

-- A buffer of the options, cleared; `beyond` is what lies behind it.
unfoldable pub cleared_opts : Mem → Mem
cleared_opts beyond i = if ltb i light_boot_kernel_opts_len then 0 else beyond i

-- `kernel_opts` of the configuration, with `none` for the null pointer. The allocation is taken to
-- succeed, as the source does.
unfoldable pub boot_add_kernel_opt : ℕ → Mem → Option Mem → List ℕ → List ℕ → Option Mem
boot_add_kernel_opt fuel beyond kernel_opts key value =
    let opts : Mem = elim kernel_opts [ none ↦ cleared_opts beyond | some o ↦ o ] in
    elim (end_loop fuel opts 0) [ none ↦ none | some idx ↦ some (add_parts opts idx key value) ]

-- The characters of a text stand in the buffer from `i` on, and none is a NUL.
abbrev pub TextAt : Mem → ℕ → List ℕ → Type 0
TextAt opts i [] = Unit {0}
TextAt opts i (c ∷ cs) = (opts i ≡ c) × (0 < c) × TextAt opts (i + 1) cs

-- No character is a NUL.
abbrev pub NoNul : List ℕ → Type 0
NoNul [] = Unit {0}
NoNul (c ∷ cs) = (0 < c) × NoNul cs

-- The buffer holds the text, and NULs from its end up to the end of the buffer.
abbrev pub HoldsText : Mem → List ℕ → Type 0
HoldsText opts text =
    TextAt opts 0 text × ((i : ℕ) → length text ≤ i → i < light_boot_kernel_opts_len → opts i ≡ 0)

end_loop_lem :
    (n : ℕ) (opts : Mem) (i : ℕ) (text : List ℕ)
    → length text ≤ n
    → TextAt opts i text
    → opts (i + length text) ≡ 0
    → end_loop (suc n) opts i ≡ some (i + length text)
unfolding end_loop
end_loop_lem n opts i [] l h z =
    let here : opts i ≡ 0 = ap opts (omega arith) ∙ z in rw (here) (ap some (omega arith))
end_loop_lem zero opts i (c ∷ cs) l h z = absurd (omega arith)
end_loop_lem (suc n) opts i (c ∷ cs) l (e, p, h) z =
    let used : (opts i == 0) ≡ false = ground (arith, e) in
    rw used (
      end_loop_lem n opts (i + 1) cs (omega arith) h (ap opts (omega arith) ∙ z)
      ∙ ap some (omega arith))

-- What adding a string does: the string stands behind the index, the index behind the string, and
-- every other byte is as it was.
pub add_str_lem :
    (opts : Mem) (cs : List ℕ) (i : ℕ)
    → NoNul cs
    → TextAt (kernel_opts_add_str opts cs i).0 i cs
      × ((kernel_opts_add_str opts cs i).1 ≡ i + length cs)
      × ((x : ℕ) → (x < i) ⊎ (i + length cs ≤ x) → (kernel_opts_add_str opts cs i).0 x ≡ opts x)
unfolding kernel_opts_add_str write
add_str_lem opts [] i h = (tt, omega arith, λ x o. refl)
add_str_lem opts (c ∷ cs) i (p, h) =
    let (t, e, f) = add_str_lem (write opts i c) cs (i + 1) h in
    (
      (f i (inl (omega arith)) ∙ ground arith, p, t),
      omega (arith, e),
      λ x o. f x (grind arith) ∙ ground arith,
    )

-- Adding two strings is adding them as one.
add_str_append :
    (opts : Mem) (xs ys : List ℕ) (i : ℕ)
    → kernel_opts_add_str (kernel_opts_add_str opts xs i).0 ys (kernel_opts_add_str opts xs i).1
      ≡ kernel_opts_add_str opts (xs ++ ys) i
unfolding kernel_opts_add_str
add_str_append opts [] ys i = refl
add_str_append opts (x ∷ xs) ys i = add_str_append (write opts i x) xs ys (i + 1)

-- An option as it reads.
abbrev pub option_text : List ℕ → List ℕ → List ℕ
option_text key value = b' ' ∷ (key ++ (b'=' ∷ 0x27 ∷ (value ++ (0x27 ∷ []))))

add_parts_lem :
    (opts : Mem) (idx : ℕ) (key value : List ℕ)
    → add_parts opts idx key value ≡ (kernel_opts_add_str opts (option_text key value) idx).0
unfolding add_parts
add_parts_lem opts idx key value =
    let (o1, i1) = kernel_opts_add_str opts (b' ' ∷ []) idx in
    let (o2, i2) = kernel_opts_add_str o1 key i1 in
    let (o3, i3) = kernel_opts_add_str o2 (b'=' ∷ 0x27 ∷ []) i2 in
    let quoted = value ++ (0x27 ∷ []) in
    let assigned = b'=' ∷ 0x27 ∷ quoted in
    ap (λ p. p.0)
      (add_str_append o3 value (0x27 ∷ []) i3
        ∙ add_str_append o2 (b'=' ∷ 0x27 ∷ []) quoted i2
        ∙ add_str_append o1 key assigned i1
        ∙ add_str_append opts (b' ' ∷ []) (key ++ assigned) idx)

TextAt-SameOn :
    (opts opts' : Mem) (i : ℕ) (cs : List ℕ)
    → ((x : ℕ) → i ≤ x → x < i + length cs → opts' x ≡ opts x)
    → TextAt opts i cs
    → TextAt opts' i cs
TextAt-SameOn opts opts' i [] s h = tt
TextAt-SameOn opts opts' i (c ∷ cs) s (e, p, h) = (
  s i (omega arith) (omega arith) ∙ e,
  p,
  TextAt-SameOn opts opts' (i + 1) cs (λ x l u. s x (omega arith) (omega arith)) h,
)

TextAt-append :
    (opts : Mem) (i : ℕ) (xs ys : List ℕ)
    → TextAt opts i xs
    → TextAt opts (i + length xs) ys
    → TextAt opts i (xs ++ ys)
TextAt-append opts i [] ys h g = subst (λ k. TextAt opts k ys) (omega arith) g
TextAt-append opts i (x ∷ xs) ys (e, p, h) g =
    (e, p, TextAt-append opts (i + 1) xs ys h (subst (λ k. TextAt opts k ys) (omega arith) g))

NoNul-append : (xs ys : List ℕ) → NoNul xs → NoNul ys → NoNul (xs ++ ys)
NoNul-append [] ys h g = g
NoNul-append (x ∷ xs) ys (p, h) g = (p, NoNul-append xs ys h g)

-- If the buffer holds a text, and an option without a NUL fits behind it with a byte left: with more
-- rounds than the text has characters, the buffer holds the text with the option behind it, and no
-- byte behind the buffer changes.
pub boot_add_kernel_opt-HoldsText :
    (n : ℕ) (beyond opts : Mem) (text key value : List ℕ)
    → length text < n
    → HoldsText opts text
    → NoNul key
    → NoNul value
    → length (text ++ option_text key value) < light_boot_kernel_opts_len
    → (new : Mem) × (boot_add_kernel_opt n beyond (some opts) key value ≡ some new)
      × HoldsText new (text ++ option_text key value)
      × ((i : ℕ) → light_boot_kernel_opts_len ≤ i → new i ≡ opts i)
unfolding boot_add_kernel_opt
boot_add_kernel_opt-HoldsText zero beyond opts text key value l h nk nv fits = absurd (omega arith)
boot_add_kernel_opt-HoldsText (suc n) beyond opts text key value l (t, z) nk nv fits =
    let all = option_text key value in
    let sizes = length-append text all in
    let nul : NoNul all = (
      omega arith,
      NoNul-append key (b'=' ∷ 0x27 ∷ (value ++ (0x27 ∷ []))) nk
          (omega arith, (omega arith, NoNul-append value (0x27 ∷ []) nv (omega arith, tt))),
    ) in
    let (at, e, f) = add_str_lem opts all (length text) nul in
    let found : end_loop (suc n) opts 0 ≡ some (length text) =
      end_loop_lem n opts 0 text (omega arith) t
        (ap opts (omega arith) ∙ z (length text) (omega arith) (omega (arith, sizes)))
      ∙ ap some (omega arith) in
    let new = (kernel_opts_add_str opts all (length text)).0 in
    (
      new,
      rw (boot_add_kernel_opt, found) (ap some (add_parts_lem opts (length text) key value)),
      (
        TextAt-append new 0 text all
            (TextAt-SameOn opts new 0 text (λ x lo hi. f x (inl (omega arith))) t)
            (subst (λ k. TextAt new k all) (omega arith) at),
        λ i lo hi. f i (inr (omega (arith, sizes))) ∙ z i (omega (arith, sizes)) hi,
      ),
      λ i lo. f i (inr (omega (arith, sizes))),
    )
