-- ===== src/Cypher/Parser.antt =====
-- crates/gemgraph-cypher/src/parser.rs: recursive descent. A `Parser A` reads an `A` off the tokens
-- from `pos` on and returns it with the tokens that are left.
pub mod Expressions
pub mod Statements
mod Examples
use gemgraph.Base.{
  ℕ, zero, suc, Bool, true, false, List, [], ◌∷◌, Option, none, some, length, if◌then◌else◌,
}
use gemgraph.Cypher.Lexer.{Token, ident, dot, eof}

-- `CypherError::Parse`, with its messages told apart; the position is left out.
pub data ParseError : Type 0 where
  expected_statement expected_token expected_identifier expected_integer : ParseError
  bare_identifier unexpected_token : ParseError

-- `out_of_fuel` stands for no result of the source.
pub data Parsed (F A : Type 0) : Type 0 where
  parsed : A → List (Token F) → Parsed F A
  failed : ParseError → Parsed F A
  out_of_fuel : Parsed F A

abbrev pub Parser : Type 0 → Type 0 → Type 0
Parser F A = List (Token F) → Parsed F A

module _ {F : Type 0} where
  abbrev pub and_then : {A B : Type 0} → Parsed F A → (A → Parser F B) → Parsed F B
  and_then (parsed a rest) f = f a rest
  and_then (failed e) f = failed e
  and_then out_of_fuel f = out_of_fuel

  infixl 5 ◌>>=◌ ◌>>◌
  abbrev pub ◌>>=◌ : {A B : Type 0} → Parser F A → (A → Parser F B) → Parser F B
  ◌>>=◌ p f ts = and_then (p ts) f

  abbrev pub ◌>>◌ : {A B : Type 0} → Parser F A → Parser F B → Parser F B
  p >> q = p >>= λ _. q

  abbrev pub pure : {A : Type 0} → A → Parser F A
  pure a ts = parsed a ts

  abbrev pub fail : {A : Type 0} → ParseError → Parser F A
  fail e ts = failed e

  -- The token at the position, and behind the last one.
  abbrev pub peek : List (Token F) → Token F
  peek [] = eof
  peek (t ∷ ts) = t

  -- The tokens behind the next.
  abbrev pub advance : List (Token F) → List (Token F)
  advance [] = []
  advance (t ∷ ts) = ts

  abbrev ident_or_fail : Token F → Parser F (List ℕ)
  ident_or_fail (ident s) = pure s
  ident_or_fail _ = fail expected_identifier

  unfoldable pub expect_ident : Parser F (List ℕ)
  expect_ident ts = ident_or_fail (peek ts) (advance ts)

-- `matches!(self.peek(), …)`, and the comparison of discriminants in `expect`: a test on tokens.
abbrev pub Test : Type 0 → Type 0
Test F = Token F → Bool

module _ {F : Type 0} where
  unfoldable pub expect : Test F → Parser F (Unit {0})
  expect is_expected ts =
      if is_expected (peek ts) then parsed tt (advance ts) else failed expected_token

  -- The parser for a token that may stand there, and the default where it does not.
  abbrev pub when : {A : Type 0} → Test F → Parser F A → Parser F A → Parser F A
  when test p q ts = if test (peek ts) then p (advance ts) else q ts
