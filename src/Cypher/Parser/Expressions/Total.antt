-- ===== src/Cypher/Parser/Expressions/Total.antt =====
-- The fuel of the expression parser is enough, and what is parsed takes a token at least.
use gemgraph.Base.{
  ℕ, zero, suc, ◌≤◌, ◌<◌, ◌-◌, Bool, true, false, List, [], ◌∷◌, Option, none, some, length,
  if◌then◌else◌, arith,
}
use gemgraph.Cypher.Lexer.{
  Token, ident, string_lit, int_lit, float_lit, true_kw, false_kw, null_kw, and_kw, or_kw, not_kw,
  l_paren, dot, eof,
}
use gemgraph.Cypher.Tokens.{is_r_paren}
use gemgraph.Cypher.Ast.{Expr, CmpOp, and_expr, or_expr}
use gemgraph.Cypher.Parser.{
  Parsed, Parser, parsed, failed, out_of_fuel, and_then, peek, expect_ident, expect, expected_token,
}
use gemgraph.Cypher.Parser.Expressions.{
  cmp_op, compare_with, parse_comparison, parse_not_expr, and_loop, parse_and_expr, or_loop,
  parse_or_expr, property_of_name, parse_atom, parse_expr,
}

module _ {F : Type 0} where
  -- A result, with at most `n` tokens left where it is no error.
  abbrev pub Leaves : {A : Type 0} → ℕ → Parsed F A → Type 0
  Leaves n (parsed a rest) = length rest ≤ n
  Leaves n (failed e) = Unit {0}
  Leaves n out_of_fuel = ⊥

  pub Leaves-mono : {A : Type 0} (m n : ℕ) (r : Parsed F A) → m ≤ n → Leaves m r → Leaves n r
  Leaves-mono m n (parsed a rest) le h = omega arith
  Leaves-mono m n (failed e) le h = tt
  Leaves-mono m n out_of_fuel le h = h

  pub and_then-Leaves :
      {A B : Type 0} (m n : ℕ) (r : Parsed F A) (f : A → Parser F B)
      → Leaves m r
      → ((a : A) (rest : List (Token F)) → length rest ≤ m → Leaves n (f a rest))
      → Leaves n (and_then r f)
  and_then-Leaves m n (parsed a rest) f h k = k a rest h
  and_then-Leaves m n (failed e) f h k = tt
  and_then-Leaves m n out_of_fuel f h k = absurd h

  -- On up to `n` tokens a parser returns, and takes a token at least of what it parses.
  abbrev pub Returns : {A : Type 0} → ℕ → Parser F A → Type 0
  Returns n p = (ts : List (Token F)) → length ts ≤ n → Leaves (length ts - 1) (p ts)

  module _ (atom : Parser F (Expr F)) (n : ℕ) (h : Returns n atom) where
    compare_with-Leaves :
        (o : Option CmpOp) (left : Expr F) (ts : List (Token F))
        → length ts ≤ n
        → Leaves (length ts) (compare_with atom o left ts)
    compare_with-Leaves none left ts le = omega arith
    compare_with-Leaves (some op) left [] le =
        and_then-Leaves 0 0 (atom []) _ (h [] le) (λ right rest k. k)
    compare_with-Leaves (some op) left (t ∷ ts) le =
        and_then-Leaves (length ts) (suc (length ts)) (atom ts) _
          (Leaves-mono (length ts - 1) (length ts) (atom ts) (omega arith) (h ts (omega arith)))
          (λ right rest k. omega arith)

    parse_comparison-Returns : Returns n (parse_comparison atom)
    unfolding parse_comparison
    parse_comparison-Returns ts le =
        and_then-Leaves (length ts - 1) (length ts - 1) (atom ts) _ (h ts le) (λ left rest k.
          Leaves-mono (length rest) (length ts - 1)
            (compare_with atom (cmp_op (peek rest)) left rest) k
            (compare_with-Leaves (cmp_op (peek rest)) left rest (omega arith)))

    parse_not_expr-Returns : Returns n (parse_not_expr atom)
    unfolding parse_not_expr
    parse_not_expr-Returns [] le = parse_comparison-Returns [] le
    parse_not_expr-Returns (not_kw ∷ ts) le =
        and_then-Leaves (length ts - 1) (suc (length ts) - 1) (parse_not_expr atom ts) _
          (parse_not_expr-Returns ts (omega arith)) (λ inner rest k. omega arith)
    parse_not_expr-Returns (t ∷ ts) le = parse_comparison-Returns (t ∷ ts) le

    and_loop-Leaves :
        (fuel : ℕ) (left : Expr F) (ts : List (Token F))
        → length ts < fuel
        → length ts ≤ n
        → Leaves (length ts) (and_loop atom fuel left ts)
    unfolding and_loop
    and_loop-Leaves zero left ts enough le = absurd (omega arith)
    and_loop-Leaves (suc fuel) left [] enough le = omega arith
    and_loop-Leaves (suc fuel) left (and_kw ∷ ts) enough le =
        and_then-Leaves (length ts) (suc (length ts)) (parse_not_expr atom ts) _
          (Leaves-mono (length ts - 1) (length ts) (parse_not_expr atom ts) (omega arith)
            (parse_not_expr-Returns ts (omega arith)))
          (λ right rest k.
            Leaves-mono (length rest) (suc (length ts))
              (and_loop atom fuel (and_expr left right) rest) (omega arith)
              (and_loop-Leaves fuel (and_expr left right) rest (omega arith) (omega arith)))
    and_loop-Leaves (suc fuel) left (t ∷ ts) enough le = omega arith

    parse_and_expr-Returns : Returns n (parse_and_expr atom)
    unfolding parse_and_expr
    parse_and_expr-Returns ts le =
        and_then-Leaves (length ts - 1) (length ts - 1) (parse_not_expr atom ts) _
          (parse_not_expr-Returns ts le)
          (λ left rest k.
            Leaves-mono (length rest) (length ts - 1) (and_loop atom (suc (length rest)) left rest)
              k (and_loop-Leaves (suc (length rest)) left rest (omega arith) (omega arith)))

    or_loop-Leaves :
        (fuel : ℕ) (left : Expr F) (ts : List (Token F))
        → length ts < fuel
        → length ts ≤ n
        → Leaves (length ts) (or_loop atom fuel left ts)
    unfolding or_loop
    or_loop-Leaves zero left ts enough le = absurd (omega arith)
    or_loop-Leaves (suc fuel) left [] enough le = omega arith
    or_loop-Leaves (suc fuel) left (or_kw ∷ ts) enough le =
        and_then-Leaves (length ts) (suc (length ts)) (parse_and_expr atom ts) _
          (Leaves-mono (length ts - 1) (length ts) (parse_and_expr atom ts) (omega arith)
            (parse_and_expr-Returns ts (omega arith)))
          (λ right rest k.
            Leaves-mono (length rest) (suc (length ts))
              (or_loop atom fuel (or_expr left right) rest) (omega arith)
              (or_loop-Leaves fuel (or_expr left right) rest (omega arith) (omega arith)))
    or_loop-Leaves (suc fuel) left (t ∷ ts) enough le = omega arith

    parse_or_expr-Returns : Returns n (parse_or_expr atom)
    unfolding parse_or_expr
    parse_or_expr-Returns ts le =
        and_then-Leaves (length ts - 1) (length ts - 1) (parse_and_expr atom ts) _
          (parse_and_expr-Returns ts le)
          (λ left rest k.
            Leaves-mono (length rest) (length ts - 1) (or_loop atom (suc (length rest)) left rest) k
              (or_loop-Leaves (suc (length rest)) left rest (omega arith) (omega arith)))

  pub expect_ident-Leaves : (ts : List (Token F)) → Leaves (length ts) (expect_ident ts)
  unfolding expect_ident
  expect_ident-Leaves [] = tt
  expect_ident-Leaves (ident s ∷ ts) = omega arith
  expect_ident-Leaves (_ ∷ ts) = tt

  pub expect-Leaves :
      (test : Token F → Bool) (ts : List (Token F)) → Leaves (length ts) (expect test ts)
  unfolding expect
  expect-Leaves test [] = by_test (test eof)
    where
      by_test : (b : Bool) → Leaves 0 (if b then parsed tt [] else failed expected_token)
      by_test true = omega arith
      by_test false = tt
  expect-Leaves test (t ∷ ts) = by_test (test t)
    where
      by_test :
          (b : Bool) → Leaves (suc (length ts)) (if b then parsed tt ts else failed expected_token)
      by_test true = omega arith
      by_test false = tt

  property-Leaves :
      (name : List ℕ) (ts : List (Token F)) → Leaves (length ts) (property_of_name name ts)
  property-Leaves name [] = tt
  property-Leaves name (dot ∷ ts) =
      and_then-Leaves (length ts) (suc (length ts)) (expect_ident ts) _ (expect_ident-Leaves ts)
        (λ prop rest k. omega arith)
  property-Leaves name (_ ∷ ts) = tt

  -- An atom, on no more tokens than there is fuel.
  parse_atom-Returns : (fuel : ℕ) → Returns fuel (parse_atom fuel)
  unfolding parse_atom
  parse_atom-Returns fuel [] le = tt
  parse_atom-Returns fuel (int_lit n ∷ ts) le = omega arith
  parse_atom-Returns fuel (float_lit n ∷ ts) le = omega arith
  parse_atom-Returns fuel (string_lit n ∷ ts) le = omega arith
  parse_atom-Returns fuel (true_kw ∷ ts) le = omega arith
  parse_atom-Returns fuel (false_kw ∷ ts) le = omega arith
  parse_atom-Returns fuel (null_kw ∷ ts) le = omega arith
  parse_atom-Returns fuel (ident name ∷ ts) le =
      Leaves-mono (length ts) (suc (length ts) - 1) (property_of_name name ts) (omega arith)
        (property-Leaves name ts)
  parse_atom-Returns zero (l_paren ∷ ts) le = absurd (omega arith)
  parse_atom-Returns (suc fuel) (l_paren ∷ ts) le =
      and_then-Leaves (length ts - 1) (suc (length ts) - 1) (parse_or_expr (parse_atom fuel) ts) _
        (parse_or_expr-Returns (parse_atom fuel) fuel (parse_atom-Returns fuel) ts (omega arith))
        (λ inner rest k.
          and_then-Leaves (length rest) (suc (length ts) - 1) (expect is_r_paren rest) _
            (expect-Leaves is_r_paren rest) (λ u more l. omega arith))
  parse_atom-Returns fuel (_ ∷ ts) le = tt

  -- The expression parser returns on every input, and takes a token at least where it succeeds.
  pub parse_expr-Leaves : (ts : List (Token F)) → Leaves (length ts - 1) (parse_expr ts)
  unfolding parse_expr
  parse_expr-Leaves ts =
      parse_or_expr-Returns (parse_atom (length ts)) (length ts) (parse_atom-Returns (length ts)) ts
        (omega arith)
