-- ===== src/Cypher/Parser/Expressions.antt =====
-- The expressions of crates/gemgraph-cypher/src/parser.rs, from `parse_atom` up to `parse_expr`. Each
-- level is a function of the parser for atoms; the fuel of `parse_atom` is the depth of parentheses,
-- and a loop's is the number of tokens.
pub mod Printer
pub mod RoundTrip
pub mod Total
use gemgraph.Base.{
  ℕ, zero, suc, Bool, true, false, List, [], ◌∷◌, Option, none, some, length, if◌then◌else◌,
}
use gemgraph.Cypher.Lexer.{
  Token, ident, string_lit, int_lit, float_lit, true_kw, false_kw, null_kw, and_kw, or_kw, not_kw,
  l_paren, dot, eq_sign, neq, lt_sign, gt_sign, lte, gte,
}
use gemgraph.Cypher.Tokens.{is_r_paren, is_dot}
use gemgraph.Cypher.Ast.{
  Expr, CmpOp, property, literal, comparison, and_expr, or_expr, not_expr, int_value, float_value,
  string_value, bool_value, null_value, eq_op, neq_op, lt_op, gt_op, lte_op, gte_op,
}
use gemgraph.Cypher.Parser.{
  Parsed, Parser, parsed, failed, out_of_fuel, bare_identifier, unexpected_token, and_then, ◌>>=◌,
  ◌>>◌, pure, fail, peek, advance, expect_ident, expect,
}

-- The `match` on the token behind the left operand.
abbrev pub cmp_op : {F : Type 0} → Token F → Option CmpOp
cmp_op eq_sign = some eq_op
cmp_op neq = some neq_op
cmp_op lt_sign = some lt_op
cmp_op gt_sign = some gt_op
cmp_op lte = some lte_op
cmp_op gte = some gte_op
cmp_op _ = none

module _ {F : Type 0} where
  -- The levels above the parser `parse_atom` of atoms.
  module _ (parse_atom : Parser F (Expr F)) where
    abbrev compare_with : Option CmpOp → Expr F → Parser F (Expr F)
    compare_with none left ts = parsed left ts
    compare_with (some op) left ts =
        and_then (parse_atom (advance ts)) (λ right. pure (comparison left op right))

    unfoldable pub parse_comparison : Parser F (Expr F)
    parse_comparison ts =
        and_then (parse_atom ts) (λ left rest. compare_with (cmp_op (peek rest)) left rest)

    unfoldable pub parse_not_expr : Parser F (Expr F)
    unfolding parse_comparison
    parse_not_expr (not_kw ∷ ts) = and_then (parse_not_expr ts) (λ inner. pure (not_expr inner))
    parse_not_expr ts = parse_comparison ts

    -- The `while` loop behind the left operand. A round takes a token, so that as many rounds as there
    -- are tokens are enough.
    unfoldable pub and_loop : ℕ → Expr F → Parser F (Expr F)
    unfolding parse_not_expr
    and_loop zero left ts = out_of_fuel
    and_loop (suc fuel) left (and_kw ∷ ts) =
        and_then (parse_not_expr ts) (λ right. and_loop fuel (and_expr left right))
    and_loop (suc fuel) left ts = parsed left ts

    unfoldable pub parse_and_expr : Parser F (Expr F)
    unfolding and_loop
    parse_and_expr ts =
        and_then (parse_not_expr ts) (λ left rest. and_loop (suc (length rest)) left rest)

    unfoldable pub or_loop : ℕ → Expr F → Parser F (Expr F)
    unfolding parse_and_expr
    or_loop zero left ts = out_of_fuel
    or_loop (suc fuel) left (or_kw ∷ ts) =
        and_then (parse_and_expr ts) (λ right. or_loop fuel (or_expr left right))
    or_loop (suc fuel) left ts = parsed left ts

    unfoldable pub parse_or_expr : Parser F (Expr F)
    unfolding or_loop
    parse_or_expr ts =
        and_then (parse_and_expr ts) (λ left rest. or_loop (suc (length rest)) left rest)

  -- A name needs a property behind it.
  abbrev property_of_name : List ℕ → Parser F (Expr F)
  property_of_name name (dot ∷ ts) = and_then (expect_ident ts) (λ prop. pure (property name prop))
  property_of_name name _ = failed bare_identifier

  unfoldable pub parse_atom : ℕ → Parser F (Expr F)
  unfolding parse_or_expr expect expect_ident
  parse_atom fuel (int_lit n ∷ ts) = parsed (literal (int_value n)) ts
  parse_atom fuel (float_lit x ∷ ts) = parsed (literal (float_value x)) ts
  parse_atom fuel (string_lit s ∷ ts) = parsed (literal (string_value s)) ts
  parse_atom fuel (true_kw ∷ ts) = parsed (literal (bool_value true)) ts
  parse_atom fuel (false_kw ∷ ts) = parsed (literal (bool_value false)) ts
  parse_atom fuel (null_kw ∷ ts) = parsed (literal null_value) ts
  parse_atom fuel (ident name ∷ ts) = property_of_name name ts
  parse_atom zero (l_paren ∷ ts) = out_of_fuel
  parse_atom (suc fuel) (l_paren ∷ ts) =
      and_then (parse_or_expr (parse_atom fuel) ts)
        (λ inner rest. and_then (expect is_r_paren rest) (λ _. pure inner))
  parse_atom fuel _ = failed unexpected_token

  -- Parentheses are no deeper than there are tokens.
  unfoldable pub parse_expr : Parser F (Expr F)
  unfolding parse_atom
  parse_expr ts = parse_or_expr (parse_atom (length ts)) ts
