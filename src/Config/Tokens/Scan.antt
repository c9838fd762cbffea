-- ===== src/Config/Tokens/Scan.antt =====
-- The scans of the tokenizer end within the file, and a step moves on unless it meets a character
-- that no case knows.
use light_loader.Common.{
  ℕ, zero, suc, ◌+◌, ◌-◌, ◌≤◌, ◌<◌, ◌≡◌, refl, ◌⊎◌, inl, inr, Bool, true, false, not, ◌&&◌, ◌||◌,
  ◌==◌, ltb, arith, if◌then◌else◌, Bool-cases, Option, none, some, ltb→lt, ==_iff,
}
use light_loader.Common.Bytes.{Mem}
use light_loader.Config.Tokens.{
  Token, is_word, c_isletter, is_quote, word_end, string_end, Step, default_step, char_step,
  one_char, word_step, string_step, istype, TokenType, group_start, group_end, list_start, list_end,
  assign, identifier,
}

-- A character that the `switch` has no case for, and `default` no branch.
unfoldable pub is_unknown : ℕ → Bool
unfolding c_isletter is_quote
is_unknown c = not (
    c == b'['
    || c == b']'
    || c == b'{'
    || c == b'}'
    || c == b'='
    || c == b','
    || c == 10
    || c == 32
    || c == 9
    || c_isletter c
    || is_quote c)

pub word_end-Option :
    (fuel : ℕ) (m : Mem) (size i : ℕ)
    → i ≤ size
    → size - i < fuel
    → (j : ℕ) × (word_end fuel m size i ≡ some j)
      × (i ≤ j)
      × (j ≤ size)
      × ((is_word (m i) ≡ true) → i < size → i < j)
unfolding word_end
word_end-Option zero m size i le f = absurd (omega arith)
word_end-Option (suc fuel) m size i le f = elim (Bool-cases (is_word (m i) && ltb i size)) [
  | inl more ↦
      let inside : i < size = ltb→lt i size (ground arith) in
      let (j, e, lo, hi, _) = word_end-Option fuel m size (i + 1) (omega arith) (omega arith) in
      (j, rw more e, omega arith, hi, λ _ _. omega arith)
  | inr done ↦ (i, rw done, omega arith, le, λ w lt. ground arith)
]

pub string_end-Option :
    (fuel : ℕ) (m : Mem) (size quote i : ℕ)
    → i ≤ size
    → size - i < fuel
    → (j : ℕ) × (string_end fuel m size quote i ≡ some j) × (i ≤ j) × (j ≤ size)
unfolding string_end
string_end-Option zero m size quote i le f = absurd (omega arith)
string_end-Option (suc fuel) m size quote i le f =
    elim (Bool-cases (not (m i == quote) && not (m i == 10) && ltb i size)) [
      | inl more ↦
          let inside : i < size = ltb→lt i size (ground arith) in
          let (j, e, lo, hi) =
            string_end-Option fuel m size quote (i + 1) (omega arith) (omega arith) in
          (j, rw more e, omega arith, hi)
      | inr done ↦ (i, rw done, omega arith, le)
    ]

-- What a step does: it moves on, or meets an unknown character and stays where it is.
abbrev pub Moves : Mem → ℕ → Option Step → Type 0
Moves m i r =
    (s : Step) × (r ≡ some s)
    × (((is_unknown (m i) ≡ false) × (i < s.next))
        ⊎ ((is_unknown (m i) ≡ true) × (s.next ≡ i) × (s.token ≡ none)))

default_step-Moves :
    (m : Mem) (size i : ℕ)
    → i < size
    → (c_isletter (m i) || is_quote (m i)) ≡ not (is_unknown (m i))
    → Moves m i (default_step (suc size) m size i)
unfolding default_step
default_step-Moves m size i lt e = elim (Bool-cases (c_isletter (m i))) [
  | inl letter ↦
      let (j, scan, lo, hi, moves) =
        word_end-Option (suc size) m size i (omega arith) (omega arith) in
      let word : is_word (m i) ≡ true = unfold is_word in rw letter in
      let known : is_unknown (m i) ≡ false = ground arith in
      (word_step m i j, rw (letter, scan), inl (known, moves word lt))
  | inr other ↦ elim (Bool-cases (is_quote (m i))) [
    | inl quote ↦
        let (j, scan, lo, hi) =
          string_end-Option (suc size) m size (m i) (i + 1) (omega arith) (omega arith) in
        let known : is_unknown (m i) ≡ false = ground arith in
        (string_step m i j, rw (other, quote, scan), inl (known, omega arith))
    | inr strange ↦
        let unknown : is_unknown (m i) ≡ true = ground arith in
        (record { token = none; next = i }, rw (other, strange), inr (unknown, refl, refl))
  ]
]

known_at : (c k : ℕ) → (c == k) ≡ true → (is_unknown k ≡ false) → is_unknown c ≡ false
known_at c k e h = rw ((==_iff c k).0 e) h

signs_known :
    (is_unknown b'[' ≡ false)
    × (is_unknown b']' ≡ false)
    × (is_unknown b'{' ≡ false)
    × (is_unknown b'}' ≡ false)
    × (is_unknown b'=' ≡ false)
    × (is_unknown b',' ≡ false)
    × (is_unknown 10 ≡ false)
unfolding is_unknown c_isletter is_quote
signs_known = (refl, refl, refl, refl, refl, refl, refl)

blank_known : (c : ℕ) → (c == 32 || c == 9) ≡ true → is_unknown c ≡ false
unfolding is_unknown
blank_known c w = ground arith

rest_known :
    (c : ℕ)
    → (c == b'[') ≡ false
    → (c == b']') ≡ false
    → (c == b'{') ≡ false
    → (c == b'}') ≡ false
    → (c == b'=') ≡ false
    → (c == b',') ≡ false
    → (c == 10) ≡ false
    → (c == 32 || c == 9) ≡ false
    → (c_isletter c || is_quote c) ≡ not (is_unknown c)
unfolding is_unknown
rest_known c e0 e1 e2 e3 e4 e5 e6 w = ground arith

one_char-Moves :
    (m : Mem) (i k : ℕ) (t : TokenType)
    → (m i == k) ≡ true
    → is_unknown k ≡ false
    → Moves m i (some (one_char m i t))
one_char-Moves m i k t e h = (one_char m i t, refl, inl (known_at (m i) k e h, omega arith))

-- Inside the file a step always gives a result, and either moves on or stays at an unknown
-- character.
pub char_step-Moves :
    (m : Mem) (size : ℕ) (prev : Option Token) (i : ℕ)
    → i < size
    → Moves m i (char_step (suc size) m size prev i)
unfolding char_step
char_step-Moves m size prev i lt = elim (Bool-cases (m i == b'[')) [
  | inl e0 ↦ rw (e0) (
      one_char-Moves m i b'[' (if istype prev assign then list_start else group_start) e0
        signs_known.0)
  | inr e0 ↦ elim (Bool-cases (m i == b']')) [
    | inl e1 ↦
        rw (e0, e1)
          (one_char-Moves m i b']' (if istype prev identifier then group_end else list_end) e1
            signs_known.1)
    | inr e1 ↦ elim (Bool-cases (m i == b'{')) [
      | inl e2 ↦ rw (e0, e1, e2) (one_char-Moves m i b'{' TokenType.obj_start e2 signs_known.2)
      | inr e2 ↦ elim (Bool-cases (m i == b'}')) [
        | inl e3 ↦ rw (e0, e1, e2, e3) (one_char-Moves m i b'}' TokenType.obj_end e3 signs_known.3)
        | inr e3 ↦ elim (Bool-cases (m i == b'=')) [
          | inl e4 ↦ rw (e0, e1, e2, e3, e4) (one_char-Moves m i b'=' assign e4 signs_known.4)
          | inr e4 ↦ elim (Bool-cases (m i == b',')) [
            | inl e5 ↦
                rw (e0, e1, e2, e3, e4, e5)
                  (one_char-Moves m i b',' TokenType.comma e5 signs_known.5)
            | inr e5 ↦ elim (Bool-cases (m i == 10)) [
              | inl e6 ↦
                  rw (e0, e1, e2, e3, e4, e5, e6)
                    (one_char-Moves m i 10 TokenType.newline e6 signs_known.6)
              | inr e6 ↦ elim (Bool-cases (m i == 32 || m i == 9)) [
                | inl w ↦
                    rw (e0, e1, e2, e3, e4, e5, e6, w)
                      (
                        record { token = none; next = i + 1 },
                        refl,
                        inl (blank_known (m i) w, omega arith),
                      )
                | inr w ↦
                    rw (e0, e1, e2, e3, e4, e5, e6, w)
                      (default_step-Moves m size i lt (rest_known (m i) e0 e1 e2 e3 e4 e5 e6 w))
              ]
            ]
          ]
        ]
      ]
    ]
  ]
]
