-- ===== src/Config/Tokens.antt =====
-- The tokenizer, `__tokenize_config_file`.
pub mod Scan
pub mod Progress
use light_loader.Common.{
  ℕ, zero, suc, ◌+◌, ◌-◌, ◌==◌, ltb, leb, if◌then◌else◌, Bool, true, false, not, ◌&&◌, ◌||◌, Option,
  none, some, List, [], ◌∷◌, ◌++◌, length,
}
use light_loader.Common.Bytes.{Mem}

-- `enum TOML_TOKEN_TYPE`
pub data TokenType : Type 0 where
  group_start group_end list_start list_end identifier assign string num obj_start obj_end comma
        newline unknown :
      TokenType

-- `toml_token_t`: the text is the copy that `strdup_ex` makes.
pub record Token : Type 0 where
  pub tok : List ℕ
  pub type : TokenType

abbrev pub max_toml_tokens : ℕ
max_toml_tokens = 0x5000

unfoldable pub same_type : TokenType → TokenType → Bool
same_type group_start group_start = true
same_type group_end group_end = true
same_type list_start list_start = true
same_type list_end list_end = true
same_type identifier identifier = true
same_type assign assign = true
same_type string string = true
same_type num num = true
same_type obj_start obj_start = true
same_type obj_end obj_end = true
same_type comma comma = true
same_type newline newline = true
same_type unknown unknown = true
same_type _ _ = false

-- `toml_token_istype`; no token is the null pointer.
unfoldable pub istype : Option Token → TokenType → Bool
unfolding same_type
istype none t = false
istype (some token) t = same_type token.type t

-- `char` comparisons with ASCII letters.
unfoldable pub c_isletter : ℕ → Bool
c_isletter c = (leb b'a' c && leb c b'z') || (leb b'A' c && leb c b'Z')

unfoldable pub is_word : ℕ → Bool
unfolding c_isletter
is_word c = c_isletter c || c == b'_'

unfoldable pub is_quote : ℕ → Bool
is_quote c = c == b'"' || c == 39

-- The text of `n` bytes from `start` on.
unfoldable pub text : Mem → ℕ → ℕ → List ℕ
text file_buffer start zero = []
text file_buffer start (suc n) = file_buffer start ∷ text file_buffer (start + 1) n

-- `while ((c_isletter(file_buffer[i]) || file_buffer[i] == '_') && i < filesize) i++`, on fuel.
unfoldable pub word_end : ℕ → Mem → ℕ → ℕ → Option ℕ
unfolding is_word
word_end zero file_buffer filesize i = none
word_end (suc fuel) file_buffer filesize i =
    let rest = word_end fuel file_buffer filesize (i + 1) in
    if is_word (file_buffer i) && ltb i filesize then rest else some i

-- `while (file_buffer[i] != *token_start && file_buffer[i] != '\n' && i < filesize) i++`, on fuel.
unfoldable pub string_end : ℕ → Mem → ℕ → ℕ → ℕ → Option ℕ
string_end zero file_buffer filesize quote i = none
string_end (suc fuel) file_buffer filesize quote i =
    let rest = string_end fuel file_buffer filesize quote (i + 1) in
    if not (file_buffer i == quote) && not (file_buffer i == 10) && ltb i filesize
    then rest
    else some i

-- What the `switch` makes of the character at `i`: a token, or none for a character that has no
-- type, and the index behind the round's `i++`.
pub record Step : Type 0 where
  pub token : Option Token
  pub next : ℕ

abbrev pub one_char : Mem → ℕ → TokenType → Step
one_char file_buffer i t = record {
  token = some (record { tok = file_buffer i ∷ []; type = t });
  next = i + 1;
}

-- An identifier from `i` up to `j`, and a string between the quote at `i` and the end `j`, which is
-- skipped too.
abbrev pub word_step : Mem → ℕ → ℕ → Step
word_step file_buffer i j = record {
  token = some (record { tok = text file_buffer i (j - i); type = identifier });
  next = j;
}

abbrev pub string_step : Mem → ℕ → ℕ → Step
string_step file_buffer i j = record {
  token = some (record { tok = text file_buffer (i + 1) (j - (i + 1)); type = string });
  next = j + 1;
}

-- The `default` case: behind it stands `i--`, which the loop's `i++` undoes.
unfoldable pub default_step : ℕ → Mem → ℕ → ℕ → Option Step
default_step fuel file_buffer filesize i =
    let c = file_buffer i in
    if c_isletter c
    then elim (word_end fuel file_buffer filesize i) [
      | none ↦ none
      | some j ↦ some (word_step file_buffer i j)
    ]
    else if is_quote c
    then elim (string_end fuel file_buffer filesize c (i + 1)) [
      | none ↦ none
      | some j ↦ some (string_step file_buffer i j)
    ]
    else some (record { token = none; next = i })

unfoldable pub char_step : ℕ → Mem → ℕ → Option Token → ℕ → Option Step
char_step fuel file_buffer filesize prev_token i =
    let c = file_buffer i in
    if c == b'['
    then some
        (one_char file_buffer i (if istype prev_token assign then list_start else group_start))
    else if c == b']'
    then some
        (one_char file_buffer i (if istype prev_token identifier then group_end else list_end))
    else if c == b'{'
    then some (one_char file_buffer i obj_start)
    else if c == b'}'
    then some (one_char file_buffer i obj_end)
    else if c == b'='
    then some (one_char file_buffer i assign)
    else if c == b','
    then some (one_char file_buffer i comma)
    else if c == 10
    then some (one_char file_buffer i newline)
    else if c == 32 || c == 9
    then some (record { token = none; next = i + 1 })
    else default_step fuel file_buffer filesize i

-- `create_toml_token` and `link_toml_token`: a token is linked if the cache has room for it. The
-- token cache counts the linked tokens. The last linked token is the previous one.
pub record Linked : Type 0 where
  pub tokens : List Token
  pub prev_token : Option Token

unfoldable pub link_token : Linked → Option Token → Linked
link_token l none = l
link_token l (some t) =
    if length l.tokens == max_toml_tokens
    then l
    else record { tokens = l.tokens ++ (t ∷ []); prev_token = some t }

-- The loop over the file; `none` is out of fuel.
unfoldable pub tokenize_loop : ℕ → Mem → ℕ → Linked → ℕ → Option (List Token)
tokenize_loop zero file_buffer filesize l i = none
tokenize_loop (suc fuel) file_buffer filesize l i =
    let step = char_step (suc filesize) file_buffer filesize l.prev_token i in
    elim (ltb i filesize) [
      | false ↦ some l.tokens
      | true ↦ elim step [
        | none ↦ none
        | some s ↦ tokenize_loop fuel file_buffer filesize (link_token l s.token) s.next
      ]
    ]

unfoldable pub tokenize : ℕ → Mem → ℕ → Option (List Token)
tokenize fuel file_buffer filesize =
    tokenize_loop fuel file_buffer filesize (record { tokens = []; prev_token = none }) 0
