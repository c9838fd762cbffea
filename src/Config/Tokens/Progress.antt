-- ===== src/Config/Tokens/Progress.antt =====
-- When the tokenizer returns: exactly when its loop meets no unknown character.
use light_loader.Common.{
  ℕ, zero, suc, ◌+◌, ◌≤◌, ◌<◌, ◌≡◌, refl, ◌∙◌, ◌⊎◌, inl, inr, true, false, arith, Option, none,
  some, List, [], ◌∷◌, length, length-append, lt→ltb, ge→ltb, le-or-lt, ◌==◌, Bool-cases,
}
use light_loader.Common.Bytes.{Mem}
use light_loader.Config.Tokens.{
  Token, Step, Linked, link_token, char_step, tokenize_loop, tokenize, max_toml_tokens,
}
use light_loader.Config.Tokens.Scan.{is_unknown, char_step-Moves}

-- From the tokens `l` and index `i` the loop reaches the tokens `l'` and index `k`.
pub data Reaches (m : Mem) (size : ℕ) : Linked → ℕ → Linked → ℕ → Type 0 where
  here : {l : Linked} {i : ℕ} → Reaches m size l i l i
  next :
      {l l' : Linked} {i k : ℕ} (s : Step)
      → i < size
      → char_step (suc size) m size l.prev_token i ≡ some s
      → Reaches m size (link_token l s.token) s.next l' k
      → Reaches m size l i l' k

-- One round of the loop.
loop_step :
    (fuel : ℕ) (m : Mem) (size : ℕ) (l : Linked) (i : ℕ) (s : Step)
    → i < size
    → char_step (suc size) m size l.prev_token i ≡ some s
    → tokenize_loop (suc fuel) m size l i ≡ tokenize_loop fuel m size (link_token l s.token) s.next
unfolding tokenize_loop
loop_step fuel m size l i s lt e = rw (tokenize_loop, lt→ltb i size lt, e)

stays :
    (fuel : ℕ) (m : Mem) (size : ℕ) (l : Linked) (i : ℕ)
    → i < size
    → is_unknown (m i) ≡ true
    → tokenize_loop fuel m size l i ≡ none
stays zero m size l i lt u = unfold tokenize_loop in refl
stays (suc fuel) m size l i lt u =
    go (char_step-Moves m size l.prev_token i lt) (stays fuel m size l i lt u)
  where
    again :
        (s : Step)
        → s.next ≡ i
        → s.token ≡ none
        → tokenize_loop fuel m size (link_token l s.token) s.next ≡ tokenize_loop fuel m size l i
    again s n t = unfold link_token in rw (n, t)

    go :
        ((s : Step) × (char_step (suc size) m size l.prev_token i ≡ some s)
          × (((is_unknown (m i) ≡ false) × (i < s.next))
              ⊎ ((is_unknown (m i) ≡ true) × (s.next ≡ i) × (s.token ≡ none))))
        → tokenize_loop fuel m size l i ≡ none
        → tokenize_loop (suc fuel) m size l i ≡ none
    go (s, e, inl (k, _)) ih = cc
    go (s, e, inr (_, n, t)) ih = loop_step fuel m size l i s lt e ∙ again s n t ∙ ih

-- Where the loop reaches an unknown character, no fuel is enough: the source never returns.
pub tokenize_loop-hangs :
    (m : Mem) (size fuel : ℕ) {l l' : Linked} {i k : ℕ}
    → Reaches m size l i l' k
    → k < size
    → is_unknown (m k) ≡ true
    → tokenize_loop fuel m size l i ≡ none
tokenize_loop-hangs m size fuel {l} {i} here lt u = stays fuel m size l i lt u
tokenize_loop-hangs m size zero (next s il e r) lt u = unfold tokenize_loop in refl
tokenize_loop-hangs m size (suc fuel) {l} {i} (next s il e r) lt u =
    loop_step fuel m size l i s il e ∙ tokenize_loop-hangs m size fuel r lt u

-- The loop meets an unknown character inside the file.
abbrev pub Meets : Mem → ℕ → Linked → ℕ → Type 0
Meets m size l i =
    (l' : Linked) × (k : ℕ) × Reaches m size l i l' k × (k < size) × (is_unknown (m k) ≡ true)

tokenize_loop-returns :
    (fuel : ℕ) (m : Mem) (size : ℕ) (l : Linked) (i : ℕ)
    → 0 < fuel
    → size < fuel + i
    → ((ts : List Token) × (tokenize_loop fuel m size l i ≡ some ts)) ⊎ Meets m size l i
tokenize_loop-returns zero m size l i pos f = absurd (omega arith)
tokenize_loop-returns (suc fuel) m size l i pos f = elim (le-or-lt size i) [
  | inl end ↦ inl (l.tokens, unfold tokenize_loop in rw (tokenize_loop, ge→ltb i size end))
  | inr more ↦
      go more f (char_step-Moves m size l.prev_token i more) (tokenize_loop-returns fuel m size)
]
  where
    go :
        i < size
        → size < suc fuel + i
        → ((s : Step) × (char_step (suc size) m size l.prev_token i ≡ some s)
            × (((is_unknown (m i) ≡ false) × (i < s.next))
                ⊎ ((is_unknown (m i) ≡ true) × (s.next ≡ i) × (s.token ≡ none))))
        → ((l : Linked) (i : ℕ)
            → 0 < fuel
            → size < fuel + i
            → ((ts : List Token) × (tokenize_loop fuel m size l i ≡ some ts)) ⊎ Meets m size l i)
        → ((ts : List Token) × (tokenize_loop (suc fuel) m size l i ≡ some ts)) ⊎ Meets m size l i
    go lt f (s, e, inr (u, n, t)) ih = inr (l, i, here, lt, u)
    go lt f (s, e, inl (k, far)) ih =
        elim (ih (link_token l s.token) s.next (omega arith) (omega arith)) [
          | inl (ts, done) ↦ inl (ts, loop_step fuel m size l i s lt e ∙ done)
          | inr (l', k', r, kl, u) ↦ inr (l', k', next s lt e r, kl, u)
        ]

abbrev pub start : Linked
start = record { tokens = []; prev_token = none }

-- A file of `size` bytes is tokenized within `size + 1` rounds, unless the loop meets a character
-- that no case knows; then no number of rounds is enough.
pub tokenize-returns :
    (fuel : ℕ) (m : Mem) (size : ℕ)
    → size < fuel
    → ((ts : List Token) × (tokenize fuel m size ≡ some ts))
      ⊎ (Meets m size start 0 × ((rounds : ℕ) → tokenize rounds m size ≡ none))
unfolding tokenize
tokenize-returns fuel m size f =
    elim (tokenize_loop-returns fuel m size start 0 (omega arith) (omega arith)) [
      | inl done ↦ inl done
      | inr (l', k, r, lt, u) ↦
          inr ((l', k, r, lt, u), λ rounds. tokenize_loop-hangs m size rounds r lt u)
    ]

link_token-le :
    (l : Linked) (t : Option Token)
    → length l.tokens ≤ max_toml_tokens
    → length (link_token l t).tokens ≤ max_toml_tokens
unfolding link_token
link_token-le l none h = h
link_token-le l (some t) h = elim (Bool-cases (length l.tokens == max_toml_tokens)) [
  | inl full ↦ rw full h
  | inr room ↦ rw room (ground (arith, length-append l.tokens (t ∷ [])))
]

-- The number of tokens never passes the size of the token cache.
pub Reaches-le :
    {m : Mem} {size i k : ℕ} {l l' : Linked}
    → Reaches m size l i l' k
    → length l.tokens ≤ max_toml_tokens
    → length l'.tokens ≤ max_toml_tokens
Reaches-le here h = h
Reaches-le {l} (next s lt e r) h = Reaches-le r (link_token-le l s.token h)
