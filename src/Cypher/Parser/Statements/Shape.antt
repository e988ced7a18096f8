-- ===== src/Cypher/Parser/Statements/Shape.antt =====
-- A parsed pattern alternates nodes and edges, as `match_pattern` of
-- crates/gemgraph-cypher/src/executor.rs takes for granted.
use mathlib.Core.Path.{subst}
use gemgraph.Base.{ℕ, zero, suc, ◌≡◌, Bool, true, false, List, [], ◌∷◌, length, if◌then◌else◌}
use gemgraph.Cypher.Lexer.{Token}
use gemgraph.Cypher.Ast.{PatternElement, node, edge, Pattern}
use gemgraph.Cypher.Parser.{Parsed, Parser, parsed, failed, out_of_fuel, and_then, peek}
use gemgraph.Cypher.Parser.Statements.{
  parse_node_pattern, parse_edge_pattern, starts_edge, elements_loop, parse_pattern,
}

module _ {F : Type 0} where
  -- Edges, each with a node behind it.
  unfoldable pub IsTail : List (PatternElement F) → Type 0
  IsTail [] = Unit {0}
  IsTail (edge e ∷ node n ∷ elements) = IsTail elements
  IsTail _ = ⊥

  -- A node, and edges with nodes behind it.
  unfoldable pub Alternates : List (PatternElement F) → Type 0
  unfolding IsTail
  Alternates (node n ∷ elements) = IsTail elements
  Alternates _ = ⊥

  Holds : {A : Type 0} → (A → Type 0) → Parsed F A → Type 0
  Holds P (parsed a rest) = P a
  Holds P (failed e) = Unit {0}
  Holds P out_of_fuel = Unit {0}

  and_then-Holds :
      {A B : Type 0} (P : A → Type 0) (Q : B → Type 0) (r : Parsed F A) (f : A → Parser F B)
      → Holds P r
      → ((a : A) (rest : List (Token F)) → P a → Holds Q (f a rest))
      → Holds Q (and_then r f)
  unfolding Holds
  and_then-Holds P Q (parsed a rest) f h k = k a rest h
  and_then-Holds P Q (failed e) f h k = tt
  and_then-Holds P Q out_of_fuel f h k = tt

  any-Holds : {A : Type 0} (r : Parsed F A) → Holds (λ _. Unit {0}) r
  unfolding Holds
  any-Holds (parsed a rest) = tt
  any-Holds (failed e) = tt
  any-Holds out_of_fuel = tt

  if-Holds :
      {A : Type 0} (P : A → Type 0) (b : Bool) (x y : Parsed F A)
      → Holds P x
      → Holds P y
      → Holds P (if b then x else y)
  if-Holds P true x y h k = h
  if-Holds P false x y h k = k

  elements_loop-IsTail : (fuel : ℕ) (ts : List (Token F)) → Holds IsTail (elements_loop fuel ts)
  unfolding elements_loop Holds IsTail
  elements_loop-IsTail zero ts = tt
  elements_loop-IsTail (suc fuel) ts =
      if-Holds IsTail (starts_edge (peek ts)) _ (parsed [] ts)
        (and_then-Holds (λ _. Unit {0}) IsTail (parse_edge_pattern ts) _ (any-Holds _)
          λ e rest _.
            and_then-Holds (λ _. Unit {0}) IsTail (parse_node_pattern rest) _ (any-Holds _)
              λ n rest' _.
                and_then-Holds IsTail IsTail (elements_loop fuel rest') _
                  (elements_loop-IsTail fuel rest') λ elements more h. h)
        tt

-- A pattern that parses starts with a node, and behind each of its edges stands a node.
pub parse_pattern-Alternates :
    {F : Type 0} (ts rest : List (Token F)) (p : Pattern F)
    → parse_pattern ts ≡ parsed p rest
    → Alternates (Pattern.elements p)
unfolding parse_pattern Holds Alternates
parse_pattern-Alternates {F = F} ts rest p e =
    subst (Holds (λ (q : Pattern F). Alternates (Pattern.elements q))) e all
  where
    all : Holds (λ (q : Pattern F). Alternates (Pattern.elements q)) (parse_pattern ts)
    all =
        and_then-Holds (λ _. Unit {0}) _ (parse_node_pattern ts) _ (any-Holds _)
          λ n rest' _.
            and_then-Holds IsTail _ (elements_loop (suc (length rest')) rest') _
              (elements_loop-IsTail (suc (length rest')) rest') λ elements more h. h
