-- ===== src/Cypher/Lexer/Strings.antt =====
-- String literals read back as they were written.
use gemgraph.Base.{ℕ, ◌≡◌, ◌≢◌, false, ◌||◌, List, [], ◌∷◌, ◌++◌, if◌then◌else◌, ◌==◌, ok, arith}
use gemgraph.Cypher.Lexer.{string_loop}

-- The text of a literal: a quote and a backslash get a backslash in front.
unfoldable pub escape : ℕ → List ℕ → List ℕ
escape quote [] = []
escape quote (c ∷ s) =
    let rest = escape quote s in if (c == quote) || (c == b'\\') then b'\\' ∷ c ∷ rest else c ∷ rest

-- A literal that is written with escapes and closed by its quote reads back, up to the characters
-- behind it.
pub string_loop-escape :
    (quote : ℕ) (s rest : List ℕ)
    → quote ≢ 92
    → string_loop quote false (escape quote s ++ quote ∷ rest) ≡ ok (s, rest)
unfolding string_loop escape
string_loop-escape quote [] rest ne = ground arith
string_loop-escape quote (c ∷ s) rest ne = ground (arith, string_loop-escape quote s rest ne)
