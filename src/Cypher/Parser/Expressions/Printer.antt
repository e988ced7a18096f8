-- ===== src/Cypher/Parser/Expressions/Printer.antt =====
-- Expressions as the tokens that stand for them, with parentheses where the grammar needs them and
-- nowhere else.
use gemgraph.Base.{ℕ, Bool, true, false, List, [], ◌∷◌, ◌++◌, if◌then◌else◌, ltb}
use gemgraph.Cypher.Lexer.{
  Token, ident, string_lit, int_lit, float_lit, true_kw, false_kw, null_kw, and_kw, or_kw, not_kw,
  l_paren, r_paren, dot, eq_sign, neq, lt_sign, gt_sign, lte, gte,
}
use gemgraph.Cypher.Ast.{
  Expr, LiteralValue, CmpOp, property, literal, comparison, and_expr, or_expr, not_expr, int_value,
  float_value, string_value, bool_value, null_value, eq_op, neq_op, lt_op, gt_op, lte_op, gte_op,
}

module _ {F : Type 0} where
  abbrev pub emit_op : CmpOp → Token F
  emit_op eq_op = eq_sign
  emit_op neq_op = neq
  emit_op lt_op = lt_sign
  emit_op gt_op = gt_sign
  emit_op lte_op = lte
  emit_op gte_op = gte

  abbrev pub emit_literal : LiteralValue F → Token F
  emit_literal (int_value n) = int_lit n
  emit_literal (float_value x) = float_lit x
  emit_literal (string_value s) = string_lit s
  emit_literal (bool_value true) = true_kw
  emit_literal (bool_value false) = false_kw
  emit_literal null_value = null_kw

  -- How tightly an expression binds: as a disjunction, a conjunction, a negation, a comparison or an
  -- atom.
  abbrev pub level : Expr F → ℕ
  level (or_expr a b) = 0
  level (and_expr a b) = 1
  level (not_expr a) = 2
  level (comparison a op b) = 3
  level _ = 4

  abbrev pub parens : Bool → List (Token F) → List (Token F)
  parens needed ts = if needed then l_paren ∷ ts ++ r_paren ∷ [] else ts

  unfoldable pub emit : Expr F → List (Token F)
  emit (property name prop) = ident name ∷ dot ∷ ident prop ∷ []
  emit (literal v) = emit_literal v ∷ []
  emit (comparison a op b) =
      parens (ltb (level a) 4) (emit a) ++ emit_op op ∷ parens (ltb (level b) 4) (emit b)
  emit (not_expr a) = not_kw ∷ parens (ltb (level a) 2) (emit a)
  emit (and_expr a b) =
      parens (ltb (level a) 1) (emit a) ++ and_kw ∷ parens (ltb (level b) 2) (emit b)
  emit (or_expr a b) = emit a ++ or_kw ∷ parens (ltb (level b) 1) (emit b)

  -- An expression where one that binds at least as tightly as `least` is wanted.
  abbrev pub emit_at : ℕ → Expr F → List (Token F)
  emit_at least e = parens (ltb (level e) least) (emit e)
