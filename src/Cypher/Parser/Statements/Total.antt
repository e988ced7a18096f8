-- ===== src/Cypher/Parser/Statements/Total.antt =====
-- The parser returns a statement or an error on every input.
use gemgraph.Base.{
  ℕ, zero, suc, ◌-◌, ◌≤◌, ◌<◌, ◌≢◌, Bool, true, false, List, [], ◌∷◌, none, length, if◌then◌else◌,
  arith,
}
use gemgraph.Cypher.Lexer.{Token, int_lit, match_kw, create_kw, merge_kw, return_kw, delete_kw, eof}
use gemgraph.Cypher.Tokens.{
  is_match_kw, is_create_kw, is_merge_kw, is_where_kw, is_return_kw, is_delete_kw, is_limit_kw,
  is_count_kw, is_as_kw, is_comma, is_dot, is_colon, is_l_paren, is_r_paren, is_l_brace, is_r_brace,
  is_l_bracket, is_r_bracket, is_dash, is_arrow, is_lt_sign, is_eof, is_ident,
}
use gemgraph.Cypher.Ast.{Expr}
use gemgraph.Cypher.Parser.{
  Parsed, Parser, parsed, failed, out_of_fuel, and_then, ◌>>=◌, pure, fail, peek, advance,
  expect_ident, expect, when, expected_token, expected_statement, ParseError,
}
use gemgraph.Cypher.Parser.Expressions.{parse_expr}
use gemgraph.Cypher.Parser.Expressions.Total.{
  Leaves, Leaves-mono, and_then-Leaves, expect_ident-Leaves, expect-Leaves, parse_expr-Leaves,
}
use gemgraph.Cypher.Parser.Statements.{
  insert_property, some_ident, names_loop, parse_delete, parse_return_item_atom, count_item,
  parse_return_item, items_loop, limit_or_fail, parse_limit, parse_return, parse_property,
  properties_loop, some_properties, parse_properties, optional_ident, parse_node_pattern,
  edge_brackets, edge_direction, parse_edge_pattern, starts_edge, elements_loop, parse_pattern,
  optional_where, last_clause, parse_match, parse_create, parse_merge, statement_at, parse,
  some_properties,
}

module _ (F : Type 0) where
  -- A parser that returns on every input, with no more tokens than there were.
  AtMost : {A : Type 0} → Parser F A → Type 0
  AtMost p = (ts : List (Token F)) → Leaves (length ts) (p ts)

  -- One that takes a token at least of what it parses.
  Takes : {A : Type 0} → Parser F A → Type 0
  Takes p = (ts : List (Token F)) → Leaves (length ts - 1) (p ts)

  bind :
      {A B : Type 0} (p : Parser F A) (f : A → Parser F B)
      → AtMost p
      → ((a : A) → AtMost (f a))
      → AtMost (p >>= f)
  unfolding AtMost
  bind p f h k ts =
      and_then-Leaves (length ts) (length ts) (p ts) f (h ts)
        (λ a rest le. Leaves-mono (length rest) (length ts) (f a rest) le (k a rest))

  pure-AtMost : {A : Type 0} (a : A) → AtMost (pure a)
  unfolding AtMost
  pure-AtMost a ts = omega arith

  advance-le : (ts : List (Token F)) → length (advance ts) ≤ length ts
  advance-le [] = omega arith
  advance-le (t ∷ ts) = omega arith

  when-AtMost :
      {A : Type 0} (test : Token F → Bool) (p q : Parser F A)
      → AtMost p
      → AtMost q
      → AtMost (when test p q)
  unfolding AtMost
  when-AtMost test p q h k ts = by_test (test (peek ts))
    where
      by_test : (b : Bool) → Leaves (length ts) (if b then p (advance ts) else q ts)
      by_test true =
          Leaves-mono (length (advance ts)) (length ts) (p (advance ts)) (advance-le ts)
            (h (advance ts))
      by_test false = k ts

  expect-AtMost : (test : Token F → Bool) → AtMost (expect test)
  unfolding AtMost
  expect-AtMost test ts = expect-Leaves test ts

  expect_ident-AtMost : AtMost expect_ident
  unfolding AtMost
  expect_ident-AtMost ts = expect_ident-Leaves ts

  parse_expr-AtMost : AtMost parse_expr
  unfolding AtMost
  parse_expr-AtMost ts =
      Leaves-mono (length ts - 1) (length ts) (parse_expr ts) (omega arith) (parse_expr-Leaves ts)

  if-Leaves :
      {A : Type 0} (n : ℕ) (b : Bool) (x y : Parsed F A)
      → Leaves n x
      → Leaves n y
      → Leaves n (if b then x else y)
  if-Leaves n true x y h k = h
  if-Leaves n false x y h k = k

  -- A loop that reads one more and goes on, and its list.
  cons-Leaves :
      {A B C : Type 0} (n : ℕ) (p : Parser F A) (loop : A → Parser F B) (g : A → B → C)
      (ts : List (Token F))
      → length ts ≤ n
      → AtMost p
      → ((a : A) (rest : List (Token F)) → length rest ≤ n → Leaves (length rest) (loop a rest))
      → Leaves n (and_then (p ts) (λ a rest. and_then (loop a rest) (λ b. pure (g a b))))
  unfolding AtMost
  cons-Leaves n p loop g ts le h k = and_then-Leaves (length ts) n (p ts) _ (h ts) (λ a rest l.
      and_then-Leaves (length rest) n (loop a rest) _ (k a rest (omega arith))
        (λ b more m. omega arith))

  names_loop-Leaves :
      (fuel : ℕ) (ts : List (Token F)) → length ts < fuel → Leaves (length ts) (names_loop fuel ts)
  unfolding names_loop
  names_loop-Leaves zero ts h = absurd (omega arith)
  names_loop-Leaves (suc fuel) [] h = omega arith
  names_loop-Leaves (suc fuel) (t ∷ ts) h =
      if-Leaves (suc (length ts)) (is_comma t) _ (parsed [] (t ∷ ts))
        (Leaves-mono (length ts) (suc (length ts)) _ (omega arith) (
          cons-Leaves (length ts) expect_ident (λ _. names_loop fuel) _ ts (omega arith)
            expect_ident-AtMost (λ _ rest le. names_loop-Leaves fuel rest (omega arith))))
        (omega arith)

  names_loop-AtMost : AtMost (λ rest. names_loop (suc (length rest)) rest)
  unfolding AtMost
  names_loop-AtMost rest = names_loop-Leaves (suc (length rest)) rest (omega arith)

  parse_delete-AtMost : AtMost parse_delete
  unfolding parse_delete
  parse_delete-AtMost = bind _ _ (expect-AtMost is_delete_kw) λ _.
      bind _ _ expect_ident-AtMost
        λ name. bind _ _ names_loop-AtMost λ names. pure-AtMost (name ∷ names)

  when-pure-AtMost :
      {A : Type 0} (test : Token F → Bool) (a b : A) → AtMost (when test (pure a) (pure b))
  when-pure-AtMost test a b = when-AtMost test (pure a) (pure b) (pure-AtMost a) (pure-AtMost b)

  parse_return_item_atom-AtMost : AtMost parse_return_item_atom
  unfolding parse_return_item_atom
  parse_return_item_atom-AtMost = bind _ _ expect_ident-AtMost λ name.
      when-AtMost is_dot _ _ (bind _ _ expect_ident-AtMost λ prop. pure-AtMost _) (pure-AtMost _)

  count_item-AtMost : AtMost count_item
  count_item-AtMost = bind _ _ (expect-AtMost is_l_paren) λ _.
      bind _ _ parse_return_item_atom-AtMost
        λ inner. bind _ _ (expect-AtMost is_r_paren) λ _. pure-AtMost _

  parse_return_item-AtMost : AtMost parse_return_item
  unfolding parse_return_item
  parse_return_item-AtMost =
      bind _ _ (when-AtMost is_count_kw _ _ count_item-AtMost parse_return_item_atom-AtMost) λ item.
        when-AtMost is_as_kw _ _ (bind _ _ expect_ident-AtMost λ name. pure-AtMost _)
          (pure-AtMost item)

  items_loop-Leaves :
      (fuel : ℕ) (ts : List (Token F)) → length ts < fuel → Leaves (length ts) (items_loop fuel ts)
  unfolding items_loop
  items_loop-Leaves zero ts h = absurd (omega arith)
  items_loop-Leaves (suc fuel) [] h = omega arith
  items_loop-Leaves (suc fuel) (t ∷ ts) h =
      if-Leaves (suc (length ts)) (is_comma t) _ (parsed [] (t ∷ ts))
        (Leaves-mono (length ts) (suc (length ts)) _ (omega arith) (
          cons-Leaves (length ts) parse_return_item (λ _. items_loop fuel) _ ts (omega arith)
            parse_return_item-AtMost (λ _ rest le. items_loop-Leaves fuel rest (omega arith))))
        (omega arith)

  items_loop-AtMost : AtMost (λ rest. items_loop (suc (length rest)) rest)
  unfolding AtMost
  items_loop-AtMost rest = items_loop-Leaves (suc (length rest)) rest (omega arith)

  limit_or_fail-AtMost : (t : Token F) → AtMost (limit_or_fail t)
  unfolding AtMost
  limit_or_fail-AtMost (int_lit n) ts = omega arith
  limit_or_fail-AtMost _ ts = tt

  parse_limit-AtMost : AtMost parse_limit
  unfolding parse_limit AtMost
  parse_limit-AtMost ts =
      Leaves-mono (length (advance ts)) (length ts) _ (advance-le ts)
        (limit_or_fail-AtMost (peek ts) (advance ts))

  parse_return-AtMost : AtMost parse_return
  unfolding parse_return
  parse_return-AtMost = bind _ _ (expect-AtMost is_return_kw) λ _.
      bind _ _ parse_return_item-AtMost λ item. bind _ _ items_loop-AtMost λ items.
        bind _ _ (when-AtMost is_limit_kw _ _ parse_limit-AtMost (pure-AtMost none))
          λ limit. pure-AtMost _

  parse_property-AtMost : AtMost parse_property
  parse_property-AtMost = bind _ _ expect_ident-AtMost λ key.
      bind _ _ (expect-AtMost is_colon) λ _. bind _ _ parse_expr-AtMost λ value. pure-AtMost _

  properties_loop-Leaves :
      (fuel : ℕ) (props : List (List ℕ × Expr F)) (ts : List (Token F))
      → length ts < fuel
      → Leaves (length ts) (properties_loop fuel props ts)
  unfolding properties_loop AtMost
  properties_loop-Leaves zero props ts h = absurd (omega arith)
  properties_loop-Leaves (suc fuel) props [] h = omega arith
  properties_loop-Leaves (suc fuel) props (t ∷ ts) h =
      if-Leaves (suc (length ts)) (is_comma t) _ (parsed props (t ∷ ts))
        (and_then-Leaves (length ts) (suc (length ts)) (parse_property ts) _
          (parse_property-AtMost ts)
          (λ (key, value) rest le.
            Leaves-mono (length rest) (suc (length ts)) _ (omega arith)
              (properties_loop-Leaves fuel (insert_property key value props) rest (omega arith))))
        (omega arith)

  properties_loop-AtMost :
      (props : List (List ℕ × Expr F))
      → AtMost (λ rest. properties_loop (suc (length rest)) props rest)
  unfolding AtMost
  properties_loop-AtMost props rest =
      properties_loop-Leaves (suc (length rest)) props rest (omega arith)

  some_properties-AtMost : AtMost some_properties
  some_properties-AtMost =
      bind _ _ parse_property-AtMost λ (key, value). properties_loop-AtMost ((key, value) ∷ [])

  at_token-AtMost :
      {A : Type 0} (test : Token F → Bool) (p q : Parser F A)
      → AtMost p
      → AtMost q
      → AtMost (λ ts. if test (peek ts) then p ts else q ts)
  unfolding AtMost
  at_token-AtMost test p q h k ts =
      if-Leaves (length ts) (test (peek ts)) (p ts) (q ts) (h ts) (k ts)

  parse_properties-AtMost : AtMost parse_properties
  unfolding parse_properties
  parse_properties-AtMost = bind _ _ (expect-AtMost is_l_brace) λ _.
      bind _ _ (at_token-AtMost is_r_brace _ _ (pure-AtMost []) some_properties-AtMost)
        λ props. bind _ _ (expect-AtMost is_r_brace) λ _. pure-AtMost _

  some_ident-AtMost : AtMost some_ident
  some_ident-AtMost = bind _ _ expect_ident-AtMost λ s. pure-AtMost _

  optional_ident-AtMost : AtMost optional_ident
  optional_ident-AtMost = at_token-AtMost is_ident _ _ some_ident-AtMost (pure-AtMost none)

  parse_node_pattern-AtMost : AtMost parse_node_pattern
  unfolding parse_node_pattern
  parse_node_pattern-AtMost = bind _ _ (expect-AtMost is_l_paren) λ _.
      bind _ _ optional_ident-AtMost λ variable.
        bind _ _ (when-AtMost is_colon _ _ some_ident-AtMost (pure-AtMost none)) λ label.
          bind _ _ (at_token-AtMost is_l_brace _ _ parse_properties-AtMost (pure-AtMost []))
            λ properties. bind _ _ (expect-AtMost is_r_paren) λ _. pure-AtMost _

  bind-Takes :
      {A B : Type 0} (p : Parser F A) (f : A → Parser F B)
      → Takes p
      → ((a : A) → AtMost (f a))
      → Takes (p >>= f)
  unfolding AtMost Takes
  bind-Takes p f h k ts =
      and_then-Leaves (length ts - 1) (length ts - 1) (p ts) f (h ts)
        (λ a rest le. Leaves-mono (length rest) (length ts - 1) (f a rest) le (k a rest))

  then-Takes :
      {A B : Type 0} (p : Parser F A) (f : A → Parser F B)
      → AtMost p
      → ((a : A) → Takes (f a))
      → Takes (p >>= f)
  unfolding AtMost Takes
  then-Takes p f h k ts = and_then-Leaves (length ts) (length ts - 1) (p ts) f (h ts) (λ a rest le.
      Leaves-mono (length rest - 1) (length ts - 1) (f a rest) (omega arith) (k a rest))

  expect-Takes : (test : Token F → Bool) → Takes (expect test)
  unfolding expect Takes
  expect-Takes test [] = if-Leaves 0 (test eof) _ (failed expected_token) (omega arith) tt
  expect-Takes test (t ∷ ts) =
      if-Leaves (suc (length ts) - 1) (test t) (parsed tt ts) (failed expected_token) (omega arith)
        tt

  edge_brackets-AtMost : AtMost edge_brackets
  edge_brackets-AtMost = bind _ _ optional_ident-AtMost λ variable.
      bind _ _ (when-AtMost is_colon _ _ some_ident-AtMost (pure-AtMost none))
        λ edge_type. bind _ _ (expect-AtMost is_r_bracket) λ _. pure-AtMost _

  edge_direction-AtMost : (b : Bool) → AtMost (edge_direction b)
  edge_direction-AtMost true = bind _ _ (expect-AtMost is_dash) λ _. pure-AtMost _
  edge_direction-AtMost false =
      when-AtMost is_arrow _ _ (pure-AtMost _) (when-pure-AtMost is_dash _ _)

  parse_edge_pattern-Takes : Takes parse_edge_pattern
  unfolding parse_edge_pattern
  parse_edge_pattern-Takes = then-Takes _ _ (when-pure-AtMost is_lt_sign true false) λ left_arrow.
      bind-Takes _ _ (expect-Takes is_dash) λ _.
        bind _ _ (when-AtMost is_l_bracket _ _ edge_brackets-AtMost (pure-AtMost _))
          λ (variable, edge_type).
            bind _ _ (edge_direction-AtMost left_arrow) λ direction. pure-AtMost _

  elements_loop-Leaves :
      (fuel : ℕ) (ts : List (Token F))
      → length ts < fuel
      → Leaves (length ts) (elements_loop fuel ts)
  unfolding elements_loop AtMost Takes
  elements_loop-Leaves zero ts h = absurd (omega arith)
  elements_loop-Leaves (suc fuel) [] h = omega arith
  elements_loop-Leaves (suc fuel) (t ∷ ts) h =
      if-Leaves (suc (length ts)) (starts_edge t) _ (parsed [] (t ∷ ts))
        (and_then-Leaves (length ts) (suc (length ts)) (parse_edge_pattern (t ∷ ts)) _
          (Leaves-mono (suc (length ts) - 1) (length ts) (parse_edge_pattern (t ∷ ts)) (omega arith)
            (parse_edge_pattern-Takes (t ∷ ts)))
          (λ e rest le. Leaves-mono (length ts) (suc (length ts)) _ (omega arith) (
            cons-Leaves (length ts) parse_node_pattern (λ _. elements_loop fuel) _ rest le
              parse_node_pattern-AtMost
              (λ _ more l. elements_loop-Leaves fuel more (omega arith)))))
        (omega arith)

  elements_loop-AtMost : AtMost (λ rest. elements_loop (suc (length rest)) rest)
  unfolding AtMost
  elements_loop-AtMost rest = elements_loop-Leaves (suc (length rest)) rest (omega arith)

  parse_pattern-AtMost : AtMost parse_pattern
  unfolding parse_pattern
  parse_pattern-AtMost =
      bind _ _ parse_node_pattern-AtMost
        λ n. bind _ _ elements_loop-AtMost λ elements. pure-AtMost _

  optional_where-AtMost : AtMost optional_where
  optional_where-AtMost =
      when-AtMost is_where_kw _ _ (bind _ _ parse_expr-AtMost λ e. pure-AtMost _) (pure-AtMost none)

  last_clause-AtMost : (t : Token F) → AtMost (last_clause t)
  last_clause-AtMost return_kw = bind _ _ parse_return-AtMost λ r. pure-AtMost _
  last_clause-AtMost delete_kw = bind _ _ parse_delete-AtMost λ names. pure-AtMost _
  last_clause-AtMost _ = pure-AtMost _

  by_peek-AtMost :
      {A : Type 0} (p : Token F → Parser F A)
      → ((t : Token F) → AtMost (p t))
      → AtMost (λ ts. p (peek ts) ts)
  unfolding AtMost
  by_peek-AtMost p h ts = h (peek ts) ts

  parse_match-AtMost : AtMost parse_match
  unfolding parse_match
  parse_match-AtMost = bind _ _ (expect-AtMost is_match_kw) λ _.
      bind _ _ parse_pattern-AtMost λ pattern_of.
        bind _ _ optional_where-AtMost
          λ w. bind _ _ (by_peek-AtMost last_clause last_clause-AtMost) λ (r, d). pure-AtMost _

  parse_create-AtMost : AtMost parse_create
  unfolding parse_create
  parse_create-AtMost =
      bind _ _ (expect-AtMost is_create_kw) λ _. bind _ _ parse_pattern-AtMost λ p. pure-AtMost _

  parse_merge-AtMost : AtMost parse_merge
  unfolding parse_merge
  parse_merge-AtMost =
      bind _ _ (expect-AtMost is_merge_kw)
        λ _. bind _ _ parse_node_pattern-AtMost λ p. pure-AtMost _

  fail-AtMost : (A : Type 0) (e : ParseError) → AtMost (fail {A = A} e)
  unfolding AtMost
  fail-AtMost A e ts = tt

  statement_at-AtMost : (t : Token F) → AtMost (statement_at t)
  statement_at-AtMost match_kw = parse_match-AtMost
  statement_at-AtMost create_kw = parse_create-AtMost
  statement_at-AtMost merge_kw = parse_merge-AtMost
  statement_at-AtMost _ = fail-AtMost _ expected_statement

  Leaves-total : {A : Type 0} (n : ℕ) (r : Parsed F A) → Leaves n r → r ≢ out_of_fuel
  Leaves-total n (parsed a rest) h e = cc
  Leaves-total n (failed x) h e = cc
  Leaves-total n out_of_fuel h e = h

  parse-AtMost : AtMost parse
  unfolding parse
  parse-AtMost =
      bind _ _ (by_peek-AtMost statement_at statement_at-AtMost)
        λ stmt. bind _ _ (expect-AtMost is_eof) λ _. pure-AtMost _

-- On any tokens the parser returns a statement or an error: no input makes it run on for ever, and the
-- fuel of the loops over commas, edges and parentheses is enough.
pub parse-total : {F : Type 0} → (ts : List (Token F)) → parse ts ≢ out_of_fuel
unfolding AtMost
parse-total ts = Leaves-total _ (length ts) (parse ts) (parse-AtMost _ ts)
