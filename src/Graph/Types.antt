-- ===== src/Graph/Types.antt =====
-- crates/gemgraph-graph/src/types.rs and lib.rs: values, records and errors. `F` stands for f64,
-- strings are lists of bytes, and a `HashMap` of properties is an association list.
use gemgraph.Base.{ℕ, Bool, List, [], ◌∷◌, Option, none, some, if◌then◌else◌}
use gemgraph.Bytes.Order.{eq_bytes}
use gemgraph.Mvcc.{MvccError}

-- `i64`
pub data ℤ : Type 0 where
  pos : ℕ → ℤ
  negsuc : ℕ → ℤ

pub data Value (F : Type 0) : Type 0 where
  null_prop : Value F
  bool_prop : Bool → Value F
  int_prop : ℤ → Value F
  float_prop : F → Value F
  string_prop : List ℕ → Value F

pub record NodeRecord (F : Type 0) : Type 0 where
  pub label : List ℕ
  pub props : List (List ℕ × Value F)

pub record EdgeRecord (F : Type 0) : Type 0 where
  pub src : ℕ
  pub dst : ℕ
  pub edge_type : List ℕ
  pub props : List (List ℕ × Value F)

pub record Node (F : Type 0) : Type 0 where
  pub id : ℕ
  pub label : List ℕ
  pub properties : List (List ℕ × Value F)

pub record Edge (F : Type 0) : Type 0 where
  pub id : ℕ
  pub src : ℕ
  pub dst : ℕ
  pub edge_type : List ℕ
  pub properties : List (List ℕ × Value F)

pub data GraphError : Type 0 where
  mvcc : MvccError → GraphError
  serialization : GraphError
  node_not_found edge_not_found : ℕ → GraphError
  invalid_database : GraphError

-- `panicked` is an `expect` or an `unwrap` that fails, and `out_of_fuel` stands for no result of the
-- source.
pub data GraphFailure : Type 0 where
  graph_error : GraphError → GraphFailure
  panicked : GraphFailure
  out_of_fuel : GraphFailure

module _ {F : Type 0} where
  -- `HashMap::get`
  unfoldable pub property : List ℕ → List (List ℕ × Value F) → Option (Value F)
  property key [] = none
  property key ((k, v) ∷ props) =
      let rest = property key props in if eq_bytes k key then some v else rest

  -- `HashMap::insert`
  unfoldable pub set_property : List ℕ → Value F → List (List ℕ × Value F) → List (List ℕ × Value F)
  set_property key value [] = (key, value) ∷ []
  set_property key value ((k, v) ∷ props) =
      let rest = set_property key value props in
      if eq_bytes k key then (key, value) ∷ props else (k, v) ∷ rest
