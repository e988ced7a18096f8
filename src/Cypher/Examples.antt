-- ===== src/Cypher/Examples.antt =====
-- The lexer on concrete inputs, with the character classes of ASCII and no floats.
use gemgraph.Base.{
  ℕ, ◌-◌, ◌≡◌, ◌≢◌, refl, Bool, true, false, ◌||◌, ◌&&◌, List, [], ◌∷◌, ◌++◌, map, Option, none,
  some, if◌then◌else◌, ◌==◌, leb, ok, arith,
}
use gemgraph.Bytes.Order.{compare_bytes}
use gemgraph.Cypher.Lexer.{return_kw, ident, eof, string_loop, is_ascii_digit, tokenize}
use gemgraph.Cypher.Lexer.Strings.{escape, string_loop-escape}
use gemgraph.Cypher.Lexer.Total.{tokenize-total}

abbrev is_space : ℕ → Bool
is_space c = c == 32

abbrev is_lower : ℕ → Bool
is_lower c = leb b'a' c && leb c b'z'

abbrev is_letter : ℕ → Bool
is_letter c = is_lower c || (leb b'A' c && leb c b'Z')

abbrev is_letter_or_digit : ℕ → Bool
is_letter_or_digit c = is_letter c || (leb b'0' c && leb c b'9')

abbrev upper : ℕ → ℕ
upper c = if is_lower c then c - 32 else c

abbrev no_float : List ℕ → Option ℕ
no_float s = none

letter_in : (c : ℕ) → is_letter c ≡ true → is_letter_or_digit c ≡ true
letter_in c h = ground arith

-- `return n12`
abbrev query : List ℕ
query = b'r' ∷ b'e' ∷ b't' ∷ b'u' ∷ b'r' ∷ b'n' ∷ 32 ∷ b'n' ∷ b'1' ∷ b'2' ∷ []

query_tokens :
    tokenize ℕ no_float is_space is_letter is_letter_or_digit (map upper) query
    ≡ some (ok (return_kw ∷ ident (b'n' ∷ b'1' ∷ b'2' ∷ []) ∷ eof ∷ []))
unfolding tokenize is_ascii_digit compare_bytes
query_tokens = refl

tokenize-total_example :
    tokenize ℕ no_float is_space is_letter is_letter_or_digit (map upper) query ≢ none
tokenize-total_example =
    tokenize-total ℕ no_float is_space is_letter is_letter_or_digit (map upper) letter_in query

string_loop-escape_example :
    string_loop 39 false (escape 39 (b'a' ∷ 39 ∷ 92 ∷ []) ++ 39 ∷ b')' ∷ [])
    ≡ ok (b'a' ∷ 39 ∷ 92 ∷ [], b')' ∷ [])
string_loop-escape_example = string_loop-escape 39 (b'a' ∷ 39 ∷ 92 ∷ []) (b')' ∷ []) (omega arith)
