-- ===== src/Cypher/Parser/Statements.antt =====
-- The patterns, clauses and statements of crates/gemgraph-cypher/src/parser.rs. A loop over commas or
-- edges takes a token in each round, so that as many rounds as there are tokens are enough.
pub mod Total
pub mod Shape
use gemgraph.Base.{
  ℕ, zero, suc, Bool, true, false, List, [], ◌∷◌, ◌++◌, Option, none, some, length, if◌then◌else◌,
}
use gemgraph.Bytes.Order.{eq_bytes}
use gemgraph.Cypher.Lexer.{
  Token, ident, int_lit, match_kw, create_kw, merge_kw, where_kw, return_kw, delete_kw, arrow, dash,
  lt_sign,
}
use gemgraph.Cypher.Tokens
use gemgraph.Cypher.Tokens.{
  is_match_kw, is_create_kw, is_merge_kw, is_where_kw, is_return_kw, is_delete_kw, is_limit_kw,
  is_count_kw, is_as_kw, is_comma, is_dot, is_colon, is_l_paren, is_r_paren, is_l_brace, is_r_brace,
  is_l_bracket, is_r_bracket, is_dash, is_arrow, is_lt_sign, is_eof, is_ident,
}
use gemgraph.Cypher.Ast.{
  Expr, EdgeDirection, right_edge, left_edge, both_edges, EdgePattern, NodePattern, PatternElement,
  node, edge, Pattern, ReturnItem, variable_item, property_of, function_call, alias, ReturnClause,
  MatchClause, CreateClause, MergeClause, Statement, match_statement, create_statement,
  merge_statement,
}
use gemgraph.Cypher.Parser.{
  Parsed, Parser, parsed, failed, out_of_fuel, expected_statement, expected_integer, and_then,
  ◌>>=◌, ◌>>◌, pure, fail, peek, advance, expect_ident, expect, when,
}
use gemgraph.Cypher.Parser.Expressions.{parse_expr}

-- `HashMap::insert`
unfoldable pub insert_property :
    {F : Type 0} → List ℕ → Expr F → List (List ℕ × Expr F) → List (List ℕ × Expr F)
insert_property key value [] = (key, value) ∷ []
insert_property key value ((k, v) ∷ props) =
    let rest = insert_property key value props in
    if eq_bytes k key then (key, value) ∷ props else (k, v) ∷ rest

-- "count"
abbrev pub count_name : List ℕ
count_name = b'c' ∷ b'o' ∷ b'u' ∷ b'n' ∷ b't' ∷ []

module _ {F : Type 0} where
  abbrev some_ident : Parser F (Option (List ℕ))
  some_ident ts = and_then (expect_ident ts) (λ s. pure (some s))

  -- Further names behind commas, for the loop of `parse_delete`.
  unfoldable pub names_loop : ℕ → Parser F (List (List ℕ))
  unfolding expect_ident
  names_loop zero ts = out_of_fuel
  names_loop (suc fuel) ts =
      let more =
        and_then (expect_ident (advance ts))
          (λ name rest. and_then (names_loop fuel rest) (λ names. pure (name ∷ names))) in
      if is_comma (peek ts) then more else parsed [] ts

  unfoldable pub parse_delete : Parser F (List (List ℕ))
  unfolding names_loop expect
  parse_delete ts =
      (do
        expect is_delete_kw
        name ← expect_ident
        names ← λ rest. names_loop (suc (length rest)) rest
        pure (name ∷ names))
        ts

  unfoldable pub parse_return_item_atom : Parser F ReturnItem
  unfolding expect_ident
  parse_return_item_atom ts =
      (do
        name ← expect_ident
        when is_dot (expect_ident >>= λ prop. pure (property_of name prop))
            (pure (variable_item name)))
        ts

  abbrev count_item : Parser F ReturnItem
  count_item = do
    expect is_l_paren
    inner ← parse_return_item_atom
    expect is_r_paren
    pure (function_call count_name inner)

  unfoldable pub parse_return_item : Parser F ReturnItem
  unfolding parse_return_item_atom expect expect_ident
  parse_return_item ts =
      (do
        item ← when is_count_kw count_item parse_return_item_atom
        when is_as_kw (expect_ident >>= λ name. pure (alias item name)) (pure item))
        ts

  unfoldable pub items_loop : ℕ → Parser F (List ReturnItem)
  unfolding parse_return_item
  items_loop zero ts = out_of_fuel
  items_loop (suc fuel) ts =
      let more =
        and_then (parse_return_item (advance ts))
          (λ item rest. and_then (items_loop fuel rest) (λ items. pure (item ∷ items))) in
      if is_comma (peek ts) then more else parsed [] ts

  -- `n as u64`: a token has no sign, so that its `i64` is not negative and the cast keeps it.
  abbrev limit_or_fail : Token F → Parser F (Option ℕ)
  limit_or_fail (int_lit n) = pure (some n)
  limit_or_fail _ = fail expected_integer

  -- The count behind LIMIT.
  unfoldable pub parse_limit : Parser F (Option ℕ)
  parse_limit ts = limit_or_fail (peek ts) (advance ts)

  unfoldable pub parse_return : Parser F ReturnClause
  unfolding items_loop expect parse_limit
  parse_return ts =
      (do
        expect is_return_kw
        item ← parse_return_item
        items ← λ rest. items_loop (suc (length rest)) rest
        limit ← when is_limit_kw parse_limit (pure none)
        pure (record { items = item ∷ items; limit = limit }))
        ts

  abbrev parse_property : Parser F (List ℕ × Expr F)
  parse_property = do key ← expect_ident; expect is_colon; value ← parse_expr; pure (key, value)

  -- The properties so far, and those behind further commas.
  unfoldable pub properties_loop : ℕ → List (List ℕ × Expr F) → Parser F (List (List ℕ × Expr F))
  unfolding expect expect_ident parse_expr insert_property
  properties_loop zero props ts = out_of_fuel
  properties_loop (suc fuel) props ts =
      let more =
        and_then (parse_property (advance ts))
          (λ (key, value) rest. properties_loop fuel (insert_property key value props) rest) in
      if is_comma (peek ts) then more else parsed props ts

  abbrev some_properties : Parser F (List (List ℕ × Expr F))
  some_properties = do
    (key, value) ← parse_property
    λ rest. properties_loop (suc (length rest)) ((key, value) ∷ []) rest

  unfoldable pub parse_properties : Parser F (List (List ℕ × Expr F))
  unfolding properties_loop
  parse_properties ts =
      (do
        expect is_l_brace
        props ← λ rest. if is_r_brace (peek rest) then parsed [] rest else some_properties rest
        expect is_r_brace
        pure props)
        ts

  -- An identifier where one stands there, without taking a token first.
  abbrev optional_ident : Parser F (Option (List ℕ))
  optional_ident ts = if is_ident (peek ts) then some_ident ts else parsed none ts

  unfoldable pub parse_node_pattern : Parser F (NodePattern F)
  unfolding parse_properties
  parse_node_pattern ts =
      (do
        expect is_l_paren
        variable ← optional_ident
        label ← when is_colon some_ident (pure none)
        properties ←
            λ rest. if is_l_brace (peek rest) then parse_properties rest else parsed [] rest
        expect is_r_paren
        pure (record { variable = variable; label = label; properties = properties }))
        ts

  -- What stands between the brackets of an edge: its variable and its type.
  abbrev edge_brackets : Parser F (Option (List ℕ) × Option (List ℕ))
  edge_brackets = do
    variable ← optional_ident
    edge_type ← when is_colon some_ident (pure none)
    expect is_r_bracket
    pure (variable, edge_type)

  abbrev edge_direction : Bool → Parser F EdgeDirection
  edge_direction true = expect is_dash >> pure left_edge
  edge_direction false =
      when is_arrow (pure right_edge) (when is_dash (pure both_edges) (pure both_edges))

  unfoldable pub parse_edge_pattern : Parser F EdgePattern
  unfolding expect expect_ident
  parse_edge_pattern ts =
      (do
        left_arrow ← when is_lt_sign (pure true) (pure false)
        expect is_dash
        (variable, edge_type) ← when is_l_bracket edge_brackets (pure (none, none))
        direction ← edge_direction left_arrow
        pure (record { variable = variable; edge_type = edge_type; direction = direction }))
        ts

  abbrev starts_edge : Token F → Bool
  starts_edge dash = true
  starts_edge lt_sign = true
  starts_edge _ = false

  unfoldable pub elements_loop : ℕ → Parser F (List (PatternElement F))
  unfolding parse_edge_pattern parse_node_pattern
  elements_loop zero ts = out_of_fuel
  elements_loop (suc fuel) ts =
      let more = and_then (parse_edge_pattern ts) (λ e rest.
        and_then (parse_node_pattern rest) (λ n rest'.
          and_then (elements_loop fuel rest') (λ elements. pure (edge e ∷ node n ∷ elements)))) in
      if starts_edge (peek ts) then more else parsed [] ts

  unfoldable pub parse_pattern : Parser F (Pattern F)
  unfolding elements_loop
  parse_pattern ts =
      (do
        n ← parse_node_pattern
        elements ← λ rest. elements_loop (suc (length rest)) rest
        pure (record { elements = node n ∷ elements }))
        ts

  abbrev optional_where : Parser F (Option (Expr F))
  optional_where = when is_where_kw (parse_expr >>= λ e. pure (some e)) (pure none)

  -- The clause behind the pattern and WHERE: RETURN, DELETE or none.
  abbrev last_clause : Token F → Parser F (Option ReturnClause × Option (List (List ℕ)))
  last_clause return_kw = parse_return >>= λ r. pure (some r, none)
  last_clause delete_kw = parse_delete >>= λ names. pure (none, some names)
  last_clause _ = pure (none, none)

  unfoldable pub parse_match : Parser F (Statement F)
  unfolding parse_pattern parse_return parse_delete
  parse_match ts =
      (do
        expect is_match_kw
        pattern_of ← parse_pattern
        where_clause ← optional_where
        (return_clause, delete_clause) ← λ rest. last_clause (peek rest) rest
        pure (
            match_statement (record {
              pattern = pattern_of;
              where_clause = where_clause;
              return_clause = return_clause;
              delete_clause = delete_clause;
            })))
        ts

  unfoldable pub parse_create : Parser F (Statement F)
  unfolding parse_pattern
  parse_create ts =
      (do expect is_create_kw; p ← parse_pattern; pure (create_statement (record { pattern = p })))
        ts

  unfoldable pub parse_merge : Parser F (Statement F)
  unfolding parse_node_pattern
  parse_merge ts =
      (do
        expect is_merge_kw
        n ← parse_node_pattern
        pure (merge_statement (record { pattern = n })))
        ts

  abbrev statement_at : Token F → Parser F (Statement F)
  statement_at match_kw = parse_match
  statement_at create_kw = parse_create
  statement_at merge_kw = parse_merge
  statement_at _ = fail expected_statement

  unfoldable pub parse : Parser F (Statement F)
  unfolding parse_match parse_create parse_merge
  parse ts = (do stmt ← λ rest. statement_at (peek rest) rest; expect is_eof; pure stmt) ts
