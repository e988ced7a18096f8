-- ===== src/Cypher/Parser/Expressions/RoundTrip.antt =====
-- An expression that is printed parses back.
use gemgraph.Base.{
  ℕ, zero, suc, ◌≤◌, ◌<◌, ◌≡◌, refl, ◌∙◌, true, false, List, [], ◌∷◌, ◌++◌, none, some, length,
  length-append, arith,
}
use mathlib.Core.List.{append_assoc}
use gemgraph.Cypher.Lexer.{Token, and_kw, or_kw, not_kw, r_paren}
use gemgraph.Cypher.Tokens.{is_and_kw, is_or_kw, is_not_kw}
use gemgraph.Cypher.Ast.{
  Expr, LiteralValue, CmpOp, property, literal, comparison, and_expr, or_expr, not_expr, int_value,
  float_value, string_value, bool_value, null_value, eq_op,
}
use gemgraph.Cypher.Parser.{Parser, parsed, peek, expect_ident}
use gemgraph.Cypher.Parser.Expressions.{
  cmp_op, parse_comparison, parse_not_expr, and_loop, parse_and_expr, or_loop, parse_or_expr,
  parse_atom, parse_expr,
}
use gemgraph.Cypher.Parser.Expressions.Printer.{emit, emit_at, emit_op, parens}

cmp_op-emit_op : (F : Type 0) (op : CmpOp) → cmp_op {F = F} (emit_op op) ≡ some op
cmp_op-emit_op F eq_op = refl
cmp_op-emit_op F _ = refl

module _ {F : Type 0} where
  -- What stands behind an expression does not go on with it: no operator of a comparison, no AND, no
  -- OR.
  abbrev pub EndsCmp : List (Token F) → Type 0
  EndsCmp rest = cmp_op (peek rest) ≡ none

  abbrev pub EndsAnd : List (Token F) → Type 0
  EndsAnd rest = is_and_kw (peek rest) ≡ false

  abbrev pub EndsOr : List (Token F) → Type 0
  EndsOr rest = is_or_kw (peek rest) ≡ false

  and_loop-stop :
      (atom : Parser F (Expr F)) (k : ℕ) (e : Expr F) (rest : List (Token F))
      → length rest < k
      → EndsAnd rest
      → and_loop atom k e rest ≡ parsed e rest
  unfolding and_loop
  and_loop-stop atom zero e rest h ends = absurd (omega arith)
  and_loop-stop atom (suc k) e [] h ends = refl
  and_loop-stop atom (suc k) e (and_kw ∷ rest) h ends = cc
  and_loop-stop atom (suc k) e (_ ∷ rest) h ends = refl

  or_loop-stop :
      (atom : Parser F (Expr F)) (k : ℕ) (e : Expr F) (rest : List (Token F))
      → length rest < k
      → EndsOr rest
      → or_loop atom k e rest ≡ parsed e rest
  unfolding or_loop
  or_loop-stop atom zero e rest h ends = absurd (omega arith)
  or_loop-stop atom (suc k) e [] h ends = refl
  or_loop-stop atom (suc k) e (or_kw ∷ rest) h ends = cc
  or_loop-stop atom (suc k) e (_ ∷ rest) h ends = refl

  -- Tokens that each level reads as an expression, with fuel for as many parentheses as tokens.
  abbrev ReadsAtom : List (Token F) → Expr F → Type 0
  ReadsAtom ts e =
      (rest : List (Token F)) (f : ℕ) → length ts ≤ f → parse_atom f (ts ++ rest) ≡ parsed e rest

  abbrev ReadsCmp : List (Token F) → Expr F → Type 0
  ReadsCmp ts e =
      (rest : List (Token F)) (f : ℕ)
      → length ts ≤ f
      → EndsCmp rest
      → parse_comparison (parse_atom f) (ts ++ rest) ≡ parsed e rest

  abbrev ReadsNot : List (Token F) → Expr F → Type 0
  ReadsNot ts e =
      (rest : List (Token F)) (f : ℕ)
      → length ts ≤ f
      → EndsCmp rest
      → parse_not_expr (parse_atom f) (ts ++ rest) ≡ parsed e rest

  -- A conjunction is read up to a state of the loop, which may go on.
  abbrev ReadsAnd : List (Token F) → Expr F → Type 0
  ReadsAnd ts e =
      (rest : List (Token F)) (f : ℕ)
      → length ts ≤ f
      → EndsCmp rest
      → (k : ℕ) × (length rest < k)
        × (parse_and_expr (parse_atom f) (ts ++ rest) ≡ and_loop (parse_atom f) k e rest)

  abbrev ReadsOr : List (Token F) → Expr F → Type 0
  ReadsOr ts e =
      (rest : List (Token F)) (f : ℕ)
      → length ts ≤ f
      → EndsCmp rest
      → EndsAnd rest
      → (k : ℕ) × (length rest < k)
        × (parse_or_expr (parse_atom f) (ts ++ rest) ≡ or_loop (parse_atom f) k e rest)

  -- Tokens that do not start with NOT.
  abbrev IsPlain : List (Token F) → Type 0
  IsPlain [] = ⊥
  IsPlain (t ∷ ts) = is_not_kw t ≡ false

  IsPlain-append : (ts us : List (Token F)) → IsPlain ts → IsPlain (ts ++ us)
  IsPlain-append [] us h = absurd h
  IsPlain-append (t ∷ ts) us h = h

  parse_not_expr-plain :
      (atom : Parser F (Expr F)) (ts : List (Token F))
      → IsPlain ts
      → parse_not_expr atom ts ≡ parse_comparison atom ts
  unfolding parse_not_expr
  parse_not_expr-plain atom [] h = refl
  parse_not_expr-plain atom (not_kw ∷ ts) h = cc
  parse_not_expr-plain atom (_ ∷ ts) h = refl

  cmp-of-atom : (ts : List (Token F)) (e : Expr F) → ReadsAtom ts e → ReadsCmp ts e
  unfolding parse_comparison
  cmp-of-atom ts e h rest f le ends = rw (h rest f le, ends) refl

  not-of-cmp : (ts : List (Token F)) (e : Expr F) → IsPlain ts → ReadsCmp ts e → ReadsNot ts e
  not-of-cmp ts e plain h rest f le ends =
      parse_not_expr-plain (parse_atom f) (ts ++ rest) (IsPlain-append ts rest plain)
      ∙ h rest f le ends

  and-of-not : (ts : List (Token F)) (e : Expr F) → ReadsNot ts e → ReadsAnd ts e
  unfolding parse_and_expr
  and-of-not ts e h rest f le ends = (suc (length rest), omega arith, rw (h rest f le ends) refl)

  or-of-and : (ts : List (Token F)) (e : Expr F) → ReadsAnd ts e → ReadsOr ts e
  unfolding parse_or_expr
  or-of-and ts e h rest f le ends ends_and =
      let (k, enough, read) = h rest f le ends in
      (
        suc (length rest),
        omega arith,
        rw (read, and_loop-stop (parse_atom f) k e rest enough ends_and) refl,
      )

  atom-of-or : (ts : List (Token F)) (e : Expr F) → ReadsOr ts e → ReadsAtom (parens true ts) e
  unfolding parse_atom
  atom-of-or ts e h rest zero le = absurd (omega arith)
  atom-of-or ts e h rest (suc f) le =
      let (k, enough, read) =
        h (r_paren ∷ rest) f (omega (arith, length-append ts (r_paren ∷ []))) refl refl in
      rw
        (
          append_assoc ts (r_paren ∷ []) rest,
          read,
          or_loop-stop (parse_atom f) k e (r_paren ∷ rest) enough refl,
        )
        refl

  -- An expression is read at every level, with parentheses where the level needs them.
  record Reads (e : Expr F) : Type 0 where
    atom : ReadsAtom (emit_at 4 e) e
    neg : ReadsNot (emit_at 2 e) e
    conj : ReadsAnd (emit_at 1 e) e
    disj : ReadsOr (emit e) e

  IsPlain-emit : (e : Expr F) → IsPlain (emit_at 4 e)
  unfolding emit
  IsPlain-emit (property name prop) = refl
  IsPlain-emit (literal (int_value n)) = refl
  IsPlain-emit (literal (float_value x)) = refl
  IsPlain-emit (literal (string_value s)) = refl
  IsPlain-emit (literal (bool_value true)) = refl
  IsPlain-emit (literal (bool_value false)) = refl
  IsPlain-emit (literal null_value) = refl
  IsPlain-emit (comparison a op b) = refl
  IsPlain-emit (and_expr a b) = refl
  IsPlain-emit (or_expr a b) = refl
  IsPlain-emit (not_expr a) = refl

  IsPlain-emit_comparison :
      (a : Expr F) (op : CmpOp) (b : Expr F) → IsPlain (emit (comparison a op b))
  unfolding emit
  IsPlain-emit_comparison a op b =
      IsPlain-append (emit_at 4 a) (emit_op op ∷ emit_at 4 b) (IsPlain-emit a)

  reads_atom :
      (ts : List (Token F)) (e : Expr F)
      → IsPlain ts
      → ReadsAtom ts e
      → ReadsNot ts e × ReadsAnd ts e × ReadsOr ts e
  reads_atom ts e plain h =
      let n = not-of-cmp ts e plain (cmp-of-atom ts e h) in
      let d = and-of-not ts e n in (n, d, or-of-and ts e d)

  comparison-ReadsCmp :
      (a b : Expr F) (op : CmpOp)
      → ReadsAtom (emit_at 4 a) a
      → ReadsAtom (emit_at 4 b) b
      → ReadsCmp (emit (comparison a op b)) (comparison a op b)
  unfolding emit parse_comparison
  comparison-ReadsCmp a b op ha hb rest f le ends =
      let size = length-append (emit_at 4 a) (emit_op op ∷ emit_at 4 b) in
      rw
        (
          append_assoc (emit_at 4 a) (emit_op op ∷ emit_at 4 b) rest,
          ha (emit_op op ∷ emit_at 4 b ++ rest) f (omega (arith, size)),
          cmp_op-emit_op F op,
          hb rest f (omega (arith, size)),
        )
        refl

  not_expr-ReadsNot :
      (a : Expr F) → ReadsNot (emit_at 2 a) a → ReadsNot (emit (not_expr a)) (not_expr a)
  unfolding emit parse_not_expr
  not_expr-ReadsNot a h rest f le ends = rw (h rest f (omega arith) ends) refl

  and_expr-ReadsAnd :
      (a b : Expr F)
      → ReadsAnd (emit_at 1 a) a
      → ReadsNot (emit_at 2 b) b
      → ReadsAnd (emit (and_expr a b)) (and_expr a b)
  unfolding emit and_loop
  and_expr-ReadsAnd a b ha hb rest f le ends =
      let size = length-append (emit_at 1 a) (and_kw ∷ emit_at 2 b) in
      let more = emit_at 2 b ++ rest in
      let (k, enough, read) = ha (and_kw ∷ more) f (omega (arith, size)) refl in
      step k enough (rw (append_assoc (emit_at 1 a) (and_kw ∷ emit_at 2 b) rest) read)
        (hb rest f (omega (arith, size)) ends)
    where
      step :
          (k : ℕ)
          → length (and_kw ∷ emit_at 2 b ++ rest) < k
          → parse_and_expr (parse_atom f) (emit (and_expr a b) ++ rest)
            ≡ and_loop (parse_atom f) k a (and_kw ∷ emit_at 2 b ++ rest)
          → parse_not_expr (parse_atom f) (emit_at 2 b ++ rest) ≡ parsed b rest
          → (k : ℕ) × (length rest < k)
            × (parse_and_expr (parse_atom f) (emit (and_expr a b) ++ rest)
                ≡ and_loop (parse_atom f) k (and_expr a b) rest)
      step zero enough read last = absurd (omega arith)
      step (suc k) enough read last =
          (k, omega (arith, length-append (emit_at 2 b) rest), read ∙ rw last refl)

  or_expr-ReadsOr :
      (a b : Expr F)
      → ReadsOr (emit a) a
      → ReadsAnd (emit_at 1 b) b
      → ReadsOr (emit (or_expr a b)) (or_expr a b)
  unfolding emit or_loop
  or_expr-ReadsOr a b ha hb rest f le ends ends_and =
      let size = length-append (emit a) (or_kw ∷ emit_at 1 b) in
      let (k, enough, read) = ha (or_kw ∷ emit_at 1 b ++ rest) f (omega (arith, size)) refl refl in
      let (j, enough', last) = hb rest f (omega (arith, size)) ends in
      step k enough (rw (append_assoc (emit a) (or_kw ∷ emit_at 1 b) rest) read)
        (last ∙ and_loop-stop (parse_atom f) j b rest enough' ends_and)
    where
      step :
          (k : ℕ)
          → length (or_kw ∷ emit_at 1 b ++ rest) < k
          → parse_or_expr (parse_atom f) (emit (or_expr a b) ++ rest)
            ≡ or_loop (parse_atom f) k a (or_kw ∷ emit_at 1 b ++ rest)
          → parse_and_expr (parse_atom f) (emit_at 1 b ++ rest) ≡ parsed b rest
          → (k : ℕ) × (length rest < k)
            × (parse_or_expr (parse_atom f) (emit (or_expr a b) ++ rest)
                ≡ or_loop (parse_atom f) k (or_expr a b) rest)
      step zero enough read last = absurd (omega arith)
      step (suc k) enough read last =
          (k, omega (arith, length-append (emit_at 1 b) rest), read ∙ rw last refl)

  literal-ReadsAtom : (v : LiteralValue F) → ReadsAtom (emit (literal v)) (literal v)
  unfolding emit parse_atom
  literal-ReadsAtom (int_value n) rest f le = refl
  literal-ReadsAtom (float_value x) rest f le = refl
  literal-ReadsAtom (string_value s) rest f le = refl
  literal-ReadsAtom (bool_value true) rest f le = refl
  literal-ReadsAtom (bool_value false) rest f le = refl
  literal-ReadsAtom null_value rest f le = refl

  property-ReadsAtom :
      (name prop : List ℕ) → ReadsAtom (emit (property name prop)) (property name prop)
  unfolding emit parse_atom expect_ident
  property-ReadsAtom name prop rest f le = refl

  -- What is read as a disjunction, in parentheses, is an atom and all that an atom is.
  in_parens :
      (ts : List (Token F)) (e : Expr F)
      → ReadsOr ts e
      → ReadsAtom (parens true ts) e × ReadsNot (parens true ts) e × ReadsAnd (parens true ts) e
  in_parens ts e h =
      let a = atom-of-or ts e h in let (n, d, o) = reads_atom (parens true ts) e refl a in (a, n, d)

  reads : (e : Expr F) → Reads e
  reads (property name prop) =
      let e = property name prop in
      let a = property-ReadsAtom name prop in
      let (n, d, o) = reads_atom (emit e) e (IsPlain-emit e) a in
      record { atom = a; neg = n; conj = d; disj = o }
  reads (literal v) =
      let a = literal-ReadsAtom v in
      let (n, d, o) = reads_atom (emit (literal v)) (literal v) (IsPlain-emit (literal v)) a in
      record { atom = a; neg = n; conj = d; disj = o }
  reads (comparison l op r) =
      let e = comparison l op r in
      let c = comparison-ReadsCmp l r op (reads l).atom (reads r).atom in
      let n = not-of-cmp (emit e) e (IsPlain-emit_comparison l op r) c in
      let d = and-of-not (emit e) e n in
      let o = or-of-and (emit e) e d in
      record { atom = (in_parens (emit e) e o).0; neg = n; conj = d; disj = o }
  reads (not_expr x) =
      let e = not_expr x in
      let n = not_expr-ReadsNot x (reads x).neg in
      let d = and-of-not (emit e) e n in
      let o = or-of-and (emit e) e d in
      record { atom = (in_parens (emit e) e o).0; neg = n; conj = d; disj = o }
  reads (and_expr l r) =
      let e = and_expr l r in
      let d = and_expr-ReadsAnd l r (reads l).conj (reads r).neg in
      let o = or-of-and (emit e) e d in
      let (a, n, d') = in_parens (emit e) e o in record { atom = a; neg = n; conj = d; disj = o }
  reads (or_expr l r) =
      let e = or_expr l r in
      let o = or_expr-ReadsOr l r (reads l).disj (reads r).conj in
      let (a, n, d) = in_parens (emit e) e o in record { atom = a; neg = n; conj = d; disj = o }

  -- A printed expression parses to itself in front of any tokens that do not go on with it, and those
  -- tokens are left.
  pub parse_expr-emit :
      (e : Expr F) (rest : List (Token F))
      → EndsCmp rest
      → EndsAnd rest
      → EndsOr rest
      → parse_expr (emit e ++ rest) ≡ parsed e rest
  unfolding parse_expr
  parse_expr-emit e rest c a o =
      let f = length (emit e ++ rest) in
      let (k, enough, read) =
        (reads e).disj rest f (omega (arith, length-append (emit e) rest)) c a in
      read ∙ or_loop-stop (parse_atom f) k e rest enough o
