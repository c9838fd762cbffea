-- ===== src/Fat/Names/Rounds.antt =====
-- The rounds of the transformation of a name.
use light_loader.Common.{
  ℕ, zero, suc, ◌+◌, ◌-◌, ◌≤◌, ◌<◌, ◌≡◌, ◌≢◌, refl, ◌∙◌, inl, inr, Bool, true, false, not, ◌==◌,
  leb, ◌&&◌, ◌||◌, arith, le-or-lt, ==_refl, lt→leb_false, Option, some,
}
use mathlib.Core.Path.{subst}
use light_loader.Common.Bytes.{Mem, write}
use light_loader.Fat.Names.{to_uppercase, transform_loop}

pub write_same : (m : Mem) (a v : ℕ) → write m a v a ≡ v
unfolding write
write_same m a v = rw (==_refl a)

pub write_apart : (m : Mem) (a v x : ℕ) → x ≢ a → write m a v x ≡ m x
unfolding write
write_apart m a v x ne = ground arith

pub eq_false : (a b : ℕ) → a ≢ b → (a == b) ≡ false
eq_false a b ne = ground arith

-- One round inside the base.
pub base_round :
    (fuel : ℕ) (src : Mem) (i : ℕ) (dest : Mem)
    → src i ≢ 0
    → src i ≢ b'.'
    → i < 8
    → transform_loop (suc fuel) src i 0 false dest
      ≡ transform_loop fuel src (i + 1) 0 false (write dest i (to_uppercase (src i)))
unfolding transform_loop
base_round fuel src i dest nz nd lt =
    let at : 0 + i ≡ i = omega arith in
    rw (
      at,
      eq_false (src i) 0 nz,
      lt→leb_false 11 i (omega arith),
      lt→leb_false 8 i lt,
      eq_false (src i) b'.' nd,
    )

-- One round inside the extension.
pub extension_round :
    (fuel : ℕ) (src : Mem) (i dot : ℕ) (dest : Mem)
    → src (dot + i) ≢ 0
    → src i ≢ b'.'
    → i < 8
    → transform_loop (suc fuel) src i dot true dest
      ≡ transform_loop fuel src (i + 1) dot true (write dest (8 + i) (to_uppercase (src (dot + i))))
unfolding transform_loop
extension_round fuel src i dot dest nz nd lt = rw (
  eq_false (src (dot + i)) 0 nz,
  lt→leb_false 11 i (omega arith),
  lt→leb_false 8 i lt,
  eq_false (src i) b'.' nd,
)

-- What the rounds in the base have written: the first `i` bytes, and no others.
pub record InBase (src : Mem) (i : ℕ) (dest : Mem) : Type 0 where
  pub copied : (j : ℕ) → j < i → dest j ≡ to_uppercase (src j)
  pub blank : (j : ℕ) → i ≤ j → dest j ≡ 0x20

InBase-round :
    (src : Mem) (i : ℕ) (dest : Mem)
    → InBase src i dest
    → InBase src (i + 1) (write dest i (to_uppercase (src i)))
InBase-round src i dest h = record {
  copied = λ j lt. elim (le-or-lt i j) [
    | inl at ↦ let e : j ≡ i = omega arith in rw e (write_same dest i (to_uppercase (src i)))
    | inr before ↦ write_apart dest i _ j (omega arith) ∙ h.copied j before
  ];
  blank = λ j le. write_apart dest i _ j (omega arith) ∙ h.blank j (omega arith);
}

-- What holds of every run that goes on behind the base holds of the run.
pub base_run :
    (S : Option (Mem × Bool) → Type 0) (src : Mem) (n : ℕ)
    → ((k : ℕ) → k < n → (src k ≢ 0) × (src k ≢ b'.'))
    → n ≤ 8
    → (fuel i : ℕ) (dest : Mem) → i ≤ n
    → n - i ≤ fuel
    → InBase src i dest
    → ((left : ℕ) (d : Mem)
        → fuel ≡ left + (n - i)
        → InBase src n d
        → S (transform_loop left src n 0 false d))
    → S (transform_loop fuel src i 0 false dest)
base_run S src n b le8 zero i dest le f h k =
    let e : i ≡ n = omega arith in
    rw e (k 0 dest (omega arith) (subst (λ x. InBase src x dest) e h))
base_run S src n b le8 (suc fuel) i dest le f h k = elim (le-or-lt n i) [
  | inl done ↦
      let e : i ≡ n = omega arith in
      rw e (k (suc fuel) dest (omega arith) (subst (λ x. InBase src x dest) e h))
  | inr more ↦ rw (base_round fuel src i dest (b i more).0 (b i more).1 (omega arith)) (
      base_run S src n b le8 fuel (i + 1) (write dest i (to_uppercase (src i))) (omega arith)
        (omega arith) (InBase-round src i dest h) (λ left d e. k left d (omega arith)))
]

pub loop_stops :
    (fuel : ℕ) (src : Mem) (i dot : ℕ) (found : Bool) (dest : Mem)
    → src (dot + i) ≡ 0
    → transform_loop (suc fuel) src i dot found dest ≡ some (dest, found)
unfolding transform_loop
loop_stops fuel src i dot found dest z = rw z refl

pub loop_dot :
    (fuel : ℕ) (src : Mem) (i dot : ℕ) (found : Bool) (dest : Mem)
    → src (dot + i) ≢ 0
    → leb 11 i || (leb 8 i && not found) ≡ false
    → src i ≡ b'.'
    → transform_loop (suc fuel) src i dot found dest
      ≡ transform_loop fuel src 1 (i + 1) true (write dest 8 (to_uppercase (src (i + 1))))
unfolding transform_loop
loop_dot fuel src i dot found dest nz stop at =
    rw (eq_false (src (dot + i)) 0 nz, stop, at, ==_refl b'.')

pub blank-InBase : (src : Mem) → InBase src 0 (λ _. 0x20)
blank-InBase src = record { copied = λ j lt. absurd (omega arith); blank = λ j le. refl }

pub dot_no_nul : (src : Mem) (n : ℕ) → src n ≡ b'.' → src n ≢ 0
dot_no_nul src n dot z = absurd (omega arith)
