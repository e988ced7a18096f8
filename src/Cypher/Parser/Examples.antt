-- ===== src/Cypher/Parser/Examples.antt =====
-- The parser on a concrete query.
use gemgraph.Base.{ℕ, ◌≡◌, ◌≢◌, refl, List, [], ◌∷◌, ◌++◌, none, some}
use gemgraph.Cypher.Lexer.{
  Token, ident, int_lit, match_kw, return_kw, limit_kw, arrow, dash, l_paren, r_paren, colon, eof,
}
use gemgraph.Cypher.Ast.{
  Expr, literal, int_value, property, comparison, gt_op, eq_op, and_expr, or_expr, not_expr,
  right_edge, NodePattern, EdgePattern, Pattern, node, edge, variable_item, match_statement,
}
use gemgraph.Cypher.Parser.{parsed, out_of_fuel}
use gemgraph.Cypher.Parser.Expressions.{parse_expr}
use gemgraph.Cypher.Parser.Expressions.Printer.{emit}
use gemgraph.Cypher.Parser.Expressions.RoundTrip.{parse_expr-emit}
use gemgraph.Cypher.Parser.Statements.{parse, parse_pattern}
use gemgraph.Cypher.Parser.Statements.Total.{parse-total}
use gemgraph.Cypher.Parser.Statements.Shape.{Alternates, parse_pattern-Alternates}

-- `(a:P)-->(b)`
abbrev pattern_tokens : List (Token ℕ)
pattern_tokens =
    l_paren
    ∷ ident (b'a' ∷ [])
    ∷ colon
    ∷ ident (b'P' ∷ [])
    ∷ r_paren
    ∷ dash
    ∷ arrow
    ∷ l_paren
    ∷ ident (b'b' ∷ [])
    ∷ r_paren
    ∷ []

abbrev node_a : NodePattern ℕ
node_a = record { variable = some (b'a' ∷ []); label = some (b'P' ∷ []); properties = [] }

abbrev node_b : NodePattern ℕ
node_b = record { variable = some (b'b' ∷ []); label = none; properties = [] }

abbrev to_right : EdgePattern
to_right = record { variable = none; edge_type = none; direction = right_edge }

abbrev two_nodes : Pattern ℕ
two_nodes = record { elements = node node_a ∷ edge to_right ∷ node node_b ∷ [] }

-- `MATCH (a:P)-->(b) RETURN a LIMIT 7`
abbrev query : List (Token ℕ)
query =
    (match_kw ∷ pattern_tokens) ++ (return_kw ∷ ident (b'a' ∷ []) ∷ limit_kw ∷ int_lit 7 ∷ eof ∷ [])

query_parsed :
    parse query
    ≡ parsed
        (match_statement (record {
          pattern = two_nodes;
          where_clause = none;
          return_clause = some (record { items = variable_item (b'a' ∷ []) ∷ []; limit = some 7 });
          delete_clause = none;
        }))
        []
unfolding parse
query_parsed = refl

parse-total_example : parse query ≢ out_of_fuel
parse-total_example = parse-total query

parse_pattern-Alternates_example : Alternates (Pattern.elements two_nodes)
unfolding parse_pattern
parse_pattern-Alternates_example = parse_pattern-Alternates pattern_tokens [] two_nodes refl

-- `NOT (a.x > 3 OR a.x = 1) AND a.x = 2`
abbrev condition : Expr ℕ
condition =
    let x = property (b'a' ∷ []) (b'x' ∷ []) in
    and_expr
      (not_expr (
        or_expr (comparison x gt_op (literal (int_value 3)))
          (comparison x eq_op (literal (int_value 1)))))
      (comparison x eq_op (literal (int_value 2)))

parse_expr-emit_example :
    parse_expr (emit condition ++ return_kw ∷ []) ≡ parsed condition (return_kw ∷ [])
parse_expr-emit_example = parse_expr-emit condition (return_kw ∷ []) refl refl refl
