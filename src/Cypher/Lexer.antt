-- ===== src/Cypher/Lexer.antt =====
-- crates/gemgraph-cypher/src/lexer.rs: the lexer, as a function of the characters from `pos` on.
-- Characters are their code points. The character classes and the upper case of Unicode and the
-- parsing of `f64` are the standard library's tables, which are parameters here.
pub mod Strings
pub mod Progress
pub mod Total
use gemgraph.Base.{
  ℕ, zero, suc, ◌+◌, ◌*◌, ◌-◌, ◌^◌, Bool, true, false, not, ◌&&◌, ◌||◌, List, [], ◌∷◌, Option, none,
  some, length, if◌then◌else◌, ◌==◌, leb, ltb, Result, ok, err,
}
use gemgraph.Bytes.Order.{eq_bytes}

pub data Token (F : Type 0) : Type 0 where
  match_kw return_kw where_kw create_kw delete_kw merge_kw limit_kw and_kw or_kw not_kw count_kw
        as_kw true_kw false_kw null_kw :
      Token F
  l_paren r_paren l_bracket r_bracket l_brace r_brace colon comma dot arrow dash : Token F
  gt_sign lt_sign gte lte eq_sign neq : Token F
  ident string_lit : List ℕ → Token F
  -- An `i64`; the lexer makes it of digits alone, so that it is never negative.
  int_lit : ℕ → Token F
  float_lit : F → Token F
  eof : Token F

-- `CypherError::Lex`, with its messages told apart.
pub data CypherError : Type 0 where
  unexpected_character : ℕ → CypherError
  unterminated_string bad_int bad_float : CypherError

-- What a step of the lexer returns: a value and the characters behind it.
abbrev pub Lexed : Type 0 → Type 0
Lexed A = Result (A × List ℕ) CypherError

abbrev push : ℕ → Lexed (List ℕ) → Lexed (List ℕ)
push c (ok (s, rest)) = ok (c ∷ s, rest)
push c (err e) = err e

-- The loop of `read_string` and `read_double_string`, which differ in their quote; `escaped` says
-- that a backslash stands in front.
unfoldable pub string_loop : ℕ → Bool → List ℕ → Lexed (List ℕ)
string_loop quote escaped [] = err unterminated_string
string_loop quote escaped (c ∷ cs) =
    let rest = string_loop quote (not escaped && (c == b'\\')) cs in
    if escaped
    then push c rest
    else if c == quote
    then ok ([], cs)
    else if c == b'\\'
    then rest
    else push c rest

unfoldable pub is_ascii_digit : ℕ → Bool
is_ascii_digit c = leb b'0' c && leb c b'9'

-- The loop of `read_number`: the text, whether it is a float, and the characters behind it.
unfoldable pub number_loop : Bool → List ℕ → List ℕ × Bool × List ℕ
number_loop is_float [] = ([], is_float, [])
number_loop is_float (c ∷ cs) =
    let (s, float, rest) = number_loop (is_float || (c == b'.')) cs in
    if is_ascii_digit c || ((c == b'.') && not is_float)
    then (c ∷ s, float, rest)
    else ([], is_float, c ∷ cs)

unfoldable digits_value : ℕ → List ℕ → ℕ
digits_value n [] = n
digits_value n (c ∷ cs) = digits_value (n * 10 + (c - b'0')) cs

-- `str::parse::<i64>` of a text of digits.
unfoldable pub parse_i64 : List ℕ → Option ℕ
unfolding digits_value
parse_i64 s = let n = digits_value 0 s in if ltb n (2 ^ 63) then some n else none

module _ (F : Type 0) (parse_f64 : List ℕ → Option F)
    (is_whitespace is_alphabetic is_alphanumeric : ℕ → Bool) (to_uppercase : List ℕ → List ℕ) where
  abbrev keywords : List (List ℕ × Token F)
  keywords =
      (b'M' ∷ b'A' ∷ b'T' ∷ b'C' ∷ b'H' ∷ [], match_kw)
      ∷ (b'R' ∷ b'E' ∷ b'T' ∷ b'U' ∷ b'R' ∷ b'N' ∷ [], return_kw)
      ∷ (b'W' ∷ b'H' ∷ b'E' ∷ b'R' ∷ b'E' ∷ [], where_kw)
      ∷ (b'C' ∷ b'R' ∷ b'E' ∷ b'A' ∷ b'T' ∷ b'E' ∷ [], create_kw)
      ∷ (b'D' ∷ b'E' ∷ b'L' ∷ b'E' ∷ b'T' ∷ b'E' ∷ [], delete_kw)
      ∷ (b'M' ∷ b'E' ∷ b'R' ∷ b'G' ∷ b'E' ∷ [], merge_kw)
      ∷ (b'L' ∷ b'I' ∷ b'M' ∷ b'I' ∷ b'T' ∷ [], limit_kw)
      ∷ (b'A' ∷ b'N' ∷ b'D' ∷ [], and_kw)
      ∷ (b'O' ∷ b'R' ∷ [], or_kw)
      ∷ (b'N' ∷ b'O' ∷ b'T' ∷ [], not_kw)
      ∷ (b'C' ∷ b'O' ∷ b'U' ∷ b'N' ∷ b'T' ∷ [], count_kw)
      ∷ (b'A' ∷ b'S' ∷ [], as_kw)
      ∷ (b'T' ∷ b'R' ∷ b'U' ∷ b'E' ∷ [], true_kw)
      ∷ (b'F' ∷ b'A' ∷ b'L' ∷ b'S' ∷ b'E' ∷ [], false_kw)
      ∷ (b'N' ∷ b'U' ∷ b'L' ∷ b'L' ∷ [], null_kw)
      ∷ []

  -- The `match` on the upper case of an identifier.
  unfoldable pub keyword_or : List (List ℕ × Token F) → List ℕ → Token F → Token F
  keyword_or [] upper other = other
  keyword_or ((text, token) ∷ table) upper other =
      if eq_bytes upper text then token else keyword_or table upper other

  unfoldable pub ident_loop : List ℕ → List ℕ × List ℕ
  ident_loop [] = ([], [])
  ident_loop (c ∷ cs) =
      let (s, rest) = ident_loop cs in
      if is_alphanumeric c || (c == b'_') then (c ∷ s, rest) else ([], c ∷ cs)

  unfoldable pub skip_whitespace : List ℕ → List ℕ
  skip_whitespace [] = []
  skip_whitespace (c ∷ cs) =
      let rest = skip_whitespace cs in if is_whitespace c then rest else c ∷ cs

  abbrev string_token : Lexed (List ℕ) → Lexed (Token F)
  string_token (ok (s, rest)) = ok (string_lit s, rest)
  string_token (err e) = err e

  abbrev int_token : Option ℕ → List ℕ → Lexed (Token F)
  int_token none rest = err bad_int
  int_token (some n) rest = ok (int_lit n, rest)

  abbrev float_token : Option F → List ℕ → Lexed (Token F)
  float_token none rest = err bad_float
  float_token (some x) rest = ok (float_lit x, rest)

  abbrev number_token : List ℕ × Bool × List ℕ → Lexed (Token F)
  number_token (s, is_float, rest) =
      if is_float then float_token (parse_f64 s) rest else int_token (parse_i64 s) rest

  unfoldable pub read_number : List ℕ → Lexed (Token F)
  unfolding number_loop parse_i64
  read_number cs = number_token (number_loop false cs)

  unfoldable pub read_ident_or_keyword : List ℕ → Lexed (Token F)
  unfolding keyword_or ident_loop
  read_ident_or_keyword cs =
      let (s, rest) = ident_loop cs in ok (keyword_or keywords (to_uppercase s) (ident s), rest)

  -- A token of one character, or of two where the next is the one given.
  abbrev one_or_two : ℕ → Token F → Token F → List ℕ → Lexed (Token F)
  one_or_two second two one [] = ok (one, [])
  one_or_two second two one (c ∷ cs) = if c == second then ok (two, cs) else ok (one, c ∷ cs)

  abbrev less : List ℕ → Lexed (Token F)
  less [] = ok (lt_sign, [])
  less (c ∷ cs) =
      if c == b'=' then ok (lte, cs) else if c == b'>' then ok (neq, cs) else ok (lt_sign, c ∷ cs)

  -- The `match` on the character `c`, with the characters `cs` behind it.
  unfoldable pub token_at : ℕ → List ℕ → Lexed (Token F)
  unfolding read_number read_ident_or_keyword string_loop
  token_at c cs =
      if c == b'('
      then ok (l_paren, cs)
      else if c == b')'
      then ok (r_paren, cs)
      else if c == b'['
      then ok (l_bracket, cs)
      else if c == b']'
      then ok (r_bracket, cs)
      else if c == b'{'
      then ok (l_brace, cs)
      else if c == b'}'
      then ok (r_brace, cs)
      else if c == b':'
      then ok (colon, cs)
      else if c == b','
      then ok (comma, cs)
      else if c == b'.'
      then ok (dot, cs)
      else if c == b'='
      then ok (eq_sign, cs)
      else if c == b'-'
      then one_or_two b'>' arrow dash cs
      else if c == b'>'
      then one_or_two b'=' gte gt_sign cs
      else if c == b'<'
      then less cs
      else if c == 39
      then string_token (string_loop 39 false cs)
      else if c == b'"'
      then string_token (string_loop b'"' false cs)
      else if is_ascii_digit c
      then read_number (c ∷ cs)
      else if is_alphabetic c || (c == b'_')
      then read_ident_or_keyword (c ∷ cs)
      else err (unexpected_character c)

  abbrev token_or_eof : List ℕ → Lexed (Token F)
  token_or_eof [] = ok (eof, [])
  token_or_eof (c ∷ cs) = token_at c cs

  unfoldable pub next_token : List ℕ → Lexed (Token F)
  unfolding token_at skip_whitespace
  next_token cs = token_or_eof (skip_whitespace cs)

  abbrev is_eof : Token F → Bool
  is_eof eof = true
  is_eof _ = false

  abbrev push_token :
      Token F
      → Option (Result (List (Token F)) CypherError)
      → Option (Result (List (Token F)) CypherError)
  push_token t none = none
  push_token t (some (ok ts)) = some (ok (t ∷ ts))
  push_token t (some (err e)) = some (err e)

  -- `none` means that the fuel ran out.
  unfoldable pub tokenize_loop : ℕ → List ℕ → Option (Result (List (Token F)) CypherError)
  unfolding next_token
  tokenize_loop zero cs = none
  tokenize_loop (suc fuel) cs = elim (next_token cs) [
    | err e ↦ some (err e)
    | ok (t, rest) ↦ push_token t (if is_eof t then some (ok []) else tokenize_loop fuel rest)
  ]

  -- A round for each character and one for the end.
  unfoldable pub tokenize : List ℕ → Option (Result (List (Token F)) CypherError)
  unfolding tokenize_loop
  tokenize cs = tokenize_loop (suc (length cs)) cs
