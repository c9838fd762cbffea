-- ===== src/Fat/Names/Endless.antt =====
-- On which names the transformation never ends.
use light_loader.Common.{
  ℕ, zero, suc, ◌+◌, ◌≤◌, ◌<◌, ◌≡◌, ◌≢◌, refl, ap, sym, ◌∙◌, inl, inr, true, false, not, leb, ◌&&◌,
  ◌||◌, arith, le-or-lt, lt→leb_false, none,
}
use light_loader.Common.Bytes.{Mem}
use light_loader.Fat.Names.{transform_loop, transform_fat_filename}
use light_loader.Fat.Names.Rounds.{extension_round, base_run, loop_dot, blank-InBase, dot_no_nul}

-- The extension is longer than the base.
pub record LongExtension (src : Mem) (n : ℕ) : Type 0 where
  pub base : (k : ℕ) → k < n → (src k ≢ 0) × (src k ≢ b'.')
  pub dot : src n ≡ b'.'
  pub extension : (k : ℕ) → k ≤ n → src (n + 1 + k) ≢ 0
  pub base_pos : 0 < n
  pub base_len : n < 8

long_round :
    (src : Mem) (n fuel i : ℕ) (dest : Mem)
    → LongExtension src n
    → i ≤ n
    → transform_loop fuel src i (n + 1) true dest ≡ none
unfolding transform_loop
long_round src n zero i dest l le = refl
long_round src n (suc fuel) i dest l le = elim (le-or-lt n i) [
  | inl at ↦
      let e : i ≡ n = omega arith in
      let go : leb 11 n || (leb 8 n && not true) ≡ false =
        rw (lt→leb_false 11 n (omega (arith, l.base_len)), lt→leb_false 8 n l.base_len) refl in
      rw (e, loop_dot fuel src n (n + 1) true dest (l.extension n (omega arith)) go l.dot)
        (long_round src n fuel 1 _ l l.base_pos)
  | inr before ↦
      rw
        (extension_round fuel src i (n + 1) dest (l.extension i le) (l.base i before).1
          (omega (arith, l.base_len)))
        (long_round src n fuel (i + 1) _ l (omega arith))
]

long_end :
    (src : Mem) (n left : ℕ) (d : Mem)
    → LongExtension src n
    → transform_loop left src n 0 false d ≡ none
unfolding transform_loop
long_end src n zero d l = refl
long_end src n (suc left) d l =
    let at : 0 + n ≡ n = omega arith in
    let nz : src (0 + n) ≢ 0 =
      λ (q : src (0 + n) ≡ 0). dot_no_nul src n l.dot (ap src (sym at) ∙ q) in
    let go : leb 11 n || (leb 8 n && not false) ≡ false =
      rw (lt→leb_false 11 n (omega (arith, l.base_len)), lt→leb_false 8 n l.base_len) refl in
    rw (loop_dot left src n 0 false d nz go l.dot) (long_round src n left 1 _ l l.base_pos)

-- For a name with a base of one to seven bytes and a longer extension, the transformation never ends:
-- no number of rounds is enough.
pub transform_fat_filename-LongExtension :
    (src : Mem) (n fuel : ℕ)
    → LongExtension src n
    → n ≤ fuel
    → transform_fat_filename fuel src ≡ none
unfolding transform_fat_filename
transform_fat_filename-LongExtension src n fuel l f =
    base_run (λ r. r ≡ none) src n l.base (omega (arith, l.base_len)) fuel 0 (λ _. 0x20)
      (omega arith) (omega arith) (blank-InBase src) (λ left d e h. long_end src n left d l)
