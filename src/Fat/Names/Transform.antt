-- ===== src/Fat/Names/Transform.antt =====
-- Which names the transformation pads as the file system wants them.
use light_loader.Common.{
  ℕ, zero, suc, ◌+◌, ◌-◌, ◌≤◌, ◌<◌, ◌≡◌, ◌≢◌, refl, ap, sym, ◌∙◌, inl, inr, Bool, true, false, not,
  leb, ◌&&◌, ◌||◌, arith, le-or-lt, lt→leb_false, Option, none, some,
}
use mathlib.Core.Path.{subst}
use light_loader.Common.Bytes.{Mem, write}
use light_loader.Fat.Names.{to_uppercase, transform_loop, transform_fat_filename}
use light_loader.Fat.Names.Rounds.{
  write_same, write_apart, extension_round, InBase, base_run, loop_stops, loop_dot, blank-InBase,
  dot_no_nul,
}

-- The name is `n` bytes that are no NUL and no '.', a '.', and an extension of `m` bytes, at most as
-- many as the base has.
pub record Split (src : Mem) (n m : ℕ) : Type 0 where
  pub base : (k : ℕ) → k < n → (src k ≢ 0) × (src k ≢ b'.')
  pub dot : src n ≡ b'.'
  pub extension : (k : ℕ) → k < m → src (n + 1 + k) ≢ 0
  pub end : src (n + 1 + m) ≡ 0
  pub base_len : n < 8
  pub extension_pos : 0 < m
  pub extension_len : m ≤ 3
  pub fits : m ≤ n

-- The entry's name: the base and the extension in upper case, both padded.
pub record Padded (src : Mem) (n m : ℕ) (dest : Mem) : Type 0 where
  pub base : (j : ℕ) → j < n → dest j ≡ to_uppercase (src j)
  pub base_pad : (j : ℕ) → n ≤ j → j < 8 → dest j ≡ 0x20
  pub extension : (k : ℕ) → k < m → dest (8 + k) ≡ to_uppercase (src (n + 1 + k))
  pub extension_pad : (k : ℕ) → m ≤ k → dest (8 + k) ≡ 0x20

-- The result is a name that meets `P`, with the mark of an extension.
abbrev pub Named : Bool → (Mem → Type 0) → Option (Mem × Bool) → Type 0
Named found P none = ⊥
Named found P (some (dest, found_ext)) = (found_ext ≡ found) × P dest

-- What the rounds in the extension have written.
record InExtension (src : Mem) (n i : ℕ) (dest : Mem) : Type 0 where
  base : (j : ℕ) → j < n → dest j ≡ to_uppercase (src j)
  base_pad : (j : ℕ) → n ≤ j → j < 8 → dest j ≡ 0x20
  copied : (k : ℕ) → k < i → dest (8 + k) ≡ to_uppercase (src (n + 1 + k))
  blank : (k : ℕ) → i ≤ k → dest (8 + k) ≡ 0x20

InExtension-round :
    (src : Mem) (n i : ℕ) (dest : Mem)
    → n ≤ 8
    → InExtension src n i dest
    → InExtension src n (i + 1) (write dest (8 + i) (to_uppercase (src (n + 1 + i))))
InExtension-round src n i dest le8 h = record {
  base = λ j lt. write_apart dest (8 + i) _ j (omega arith) ∙ h.base j lt;
  base_pad = λ j lo hi. write_apart dest (8 + i) _ j (omega arith) ∙ h.base_pad j lo hi;
  copied = λ k lt. elim (le-or-lt i k) [
    | inl at ↦
        let e : k ≡ i = omega arith in
        rw e (write_same dest (8 + i) (to_uppercase (src (n + 1 + i))))
    | inr before ↦ write_apart dest (8 + i) _ (8 + k) (omega arith) ∙ h.copied k before
  ];
  blank = λ k le. write_apart dest (8 + i) _ (8 + k) (omega arith) ∙ h.blank k (omega arith);
}

extension_run :
    (src : Mem) (n m : ℕ)
    → Split src n m
    → (fuel i : ℕ) (dest : Mem) → i ≤ m
    → m - i < fuel
    → InExtension src n i dest
    → Named true (Padded src n m) (transform_loop fuel src i (n + 1) true dest)
extension_run src n m s zero i dest le f h = absurd (omega arith)
extension_run src n m s (suc fuel) i dest le f h = elim (le-or-lt m i) [
  | inl done ↦
      let e : i ≡ m = omega arith in
      let h' : InExtension src n m dest = subst (λ x. InExtension src n x dest) e h in
      rw (e, loop_stops fuel src m (n + 1) true dest s.end)
        (
          refl,
          record {
            base = h'.base;
            base_pad = h'.base_pad;
            extension = h'.copied;
            extension_pad = h'.blank;
          },
        )
  | inr more ↦
      let inner : i < n = omega (arith, s.fits) in
      let low : i < 8 = omega (arith, s.base_len) in
      rw (extension_round fuel src i (n + 1) dest (s.extension i more) (s.base i inner).1 low) (
        extension_run src n m s fuel (i + 1) _ (omega arith) (omega arith)
          (InExtension-round src n i dest (omega (arith, s.base_len)) h))
]

-- The name in upper case, padded, with no extension.
pub record PlainName (src : Mem) (n : ℕ) (dest : Mem) : Type 0 where
  pub copied : (j : ℕ) → j < n → dest j ≡ to_uppercase (src j)
  pub pad : (j : ℕ) → n ≤ j → dest j ≡ 0x20

plain_end :
    (src : Mem) (n left : ℕ) (d : Mem)
    → src n ≡ 0
    → 0 < left
    → InBase src n d
    → Named false (PlainName src n) (transform_loop left src n 0 false d)
plain_end src n zero d z pos h = absurd (omega arith)
plain_end src n (suc left) d z pos h =
    rw (loop_stops left src n 0 false d (ap src (omega arith) ∙ z))
      (refl, record { copied = h.copied; pad = h.blank })

-- A name of at most eight bytes with no '.' becomes its bytes in upper case, padded with spaces,
-- within one round more than its length; no extension is reported.
pub transform_fat_filename-PlainName :
    (src : Mem) (n fuel : ℕ)
    → ((k : ℕ) → k < n → (src k ≢ 0) × (src k ≢ b'.'))
    → src n ≡ 0
    → n ≤ 8
    → n < fuel
    → Named false (PlainName src n) (transform_fat_filename fuel src)
unfolding transform_fat_filename
transform_fat_filename-PlainName src n fuel b z le8 f =
    base_run (Named false (PlainName src n)) src n b le8 fuel 0 (λ _. 0x20) (omega arith)
      (omega arith) (blank-InBase src) (λ left d e h. plain_end src n left d z (omega arith) h)

dotted_end :
    (src : Mem) (n m left : ℕ) (d : Mem)
    → Split src n m
    → m < left
    → InBase src n d
    → Named true (Padded src n m) (transform_loop left src n 0 false d)
dotted_end src n m zero d s f h = absurd (omega arith)
dotted_end src n m (suc left) d s f h =
    let at : 0 + n ≡ n = omega arith in
    let nz : src (0 + n) ≢ 0 =
      λ (q : src (0 + n) ≡ 0). dot_no_nul src n s.dot (ap src (sym at) ∙ q) in
    let go : leb 11 n || (leb 8 n && not false) ≡ false =
      rw (lt→leb_false 11 n (omega (arith, s.base_len)), lt→leb_false 8 n s.base_len) refl in
    rw (loop_dot left src n 0 false d nz go s.dot) (
      extension_run src n m s left 1 _ s.extension_pos (omega (arith, s.extension_pos)) record {
        base = λ j lt. write_apart d 8 _ j (omega (arith, s.base_len)) ∙ h.copied j lt;
        base_pad = λ j lo hi. write_apart d 8 _ j (omega arith) ∙ h.blank j lo;
        copied = λ k lt.
            let e : k ≡ 0 = omega arith in
            rw e (
              write_same d 8 (to_uppercase (src (n + 1)))
              ∙ ap (λ x. to_uppercase (src x)) (omega arith));
        blank = λ k le.
            write_apart d 8 _ (8 + k) (omega arith) ∙ h.blank (8 + k) (omega (arith, s.base_len));
      })

-- A name with a base of one to seven bytes and an extension of one to three, no longer than the base,
-- becomes the padded base and the padded extension in upper case, within as many rounds as the name
-- has bytes and one more; an extension is reported.
pub transform_fat_filename-Padded :
    (src : Mem) (n m fuel : ℕ)
    → Split src n m
    → n + m < fuel
    → Named true (Padded src n m) (transform_fat_filename fuel src)
unfolding transform_fat_filename
transform_fat_filename-Padded src n m fuel s f =
    base_run (Named true (Padded src n m)) src n s.base (omega (arith, s.base_len)) fuel 0
      (λ _. 0x20) (omega arith) (omega arith) (blank-InBase src)
      (λ left d e h. dotted_end src n m left d s (omega arith) h)
