-- ===== src/Cypher/Ast.antt =====
-- crates/gemgraph-cypher/src/ast.rs: the syntax of statements. `F` stands for f64 and strings are
-- lists of code points, as in the lexer.
use gemgraph.Base.{ℕ, Bool, List, Option}

pub data LiteralValue (F : Type 0) : Type 0 where
  int_value : ℕ → LiteralValue F
  float_value : F → LiteralValue F
  string_value : List ℕ → LiteralValue F
  bool_value : Bool → LiteralValue F
  null_value : LiteralValue F

pub data CmpOp : Type 0 where
  eq_op neq_op lt_op gt_op lte_op gte_op : CmpOp

pub data Expr (F : Type 0) : Type 0 where
  property : List ℕ → List ℕ → Expr F
  literal : LiteralValue F → Expr F
  comparison : Expr F → CmpOp → Expr F → Expr F
  and_expr or_expr : Expr F → Expr F → Expr F
  not_expr : Expr F → Expr F

pub data EdgeDirection : Type 0 where
  right_edge left_edge both_edges : EdgeDirection

pub record EdgePattern : Type 0 where
  pub variable : Option (List ℕ)
  pub edge_type : Option (List ℕ)
  pub direction : EdgeDirection

-- `properties` is a `HashMap`: an association list in which no key is twice.
pub record NodePattern (F : Type 0) : Type 0 where
  pub variable : Option (List ℕ)
  pub label : Option (List ℕ)
  pub properties : List (List ℕ × Expr F)

pub data PatternElement (F : Type 0) : Type 0 where
  node : NodePattern F → PatternElement F
  edge : EdgePattern → PatternElement F

pub record Pattern (F : Type 0) : Type 0 where
  pub elements : List (PatternElement F)

pub data ReturnItem : Type 0 where
  variable_item : List ℕ → ReturnItem
  property_of : List ℕ → List ℕ → ReturnItem
  function_call : List ℕ → ReturnItem → ReturnItem
  alias : ReturnItem → List ℕ → ReturnItem

pub record ReturnClause : Type 0 where
  pub items : List ReturnItem
  pub limit : Option ℕ

pub record MatchClause (F : Type 0) : Type 0 where
  pub pattern : Pattern F
  pub where_clause : Option (Expr F)
  pub return_clause : Option ReturnClause
  pub delete_clause : Option (List (List ℕ))

pub record CreateClause (F : Type 0) : Type 0 where
  pub pattern : Pattern F

pub record MergeClause (F : Type 0) : Type 0 where
  pub pattern : NodePattern F

pub data Statement (F : Type 0) : Type 0 where
  match_statement : MatchClause F → Statement F
  create_statement : CreateClause F → Statement F
  merge_statement : MergeClause F → Statement F
