-- ===== src/Cypher/Tokens.antt =====
-- Tests on the kind of a token.
use gemgraph.Base.{Bool, true, false}
use gemgraph.Cypher.Lexer.{
  Token, ident, match_kw, return_kw, where_kw, create_kw, delete_kw, merge_kw, limit_kw, and_kw,
  or_kw, not_kw, count_kw, as_kw, l_paren, r_paren, l_bracket, r_bracket, l_brace, r_brace, colon,
  comma, dot, arrow, dash, lt_sign, eof,
}

module _ {F : Type 0} where
  abbrev pub is_match_kw : Token F → Bool
  is_match_kw match_kw = true
  is_match_kw _ = false

  abbrev pub is_return_kw : Token F → Bool
  is_return_kw return_kw = true
  is_return_kw _ = false

  abbrev pub is_where_kw : Token F → Bool
  is_where_kw where_kw = true
  is_where_kw _ = false

  abbrev pub is_create_kw : Token F → Bool
  is_create_kw create_kw = true
  is_create_kw _ = false

  abbrev pub is_delete_kw : Token F → Bool
  is_delete_kw delete_kw = true
  is_delete_kw _ = false

  abbrev pub is_merge_kw : Token F → Bool
  is_merge_kw merge_kw = true
  is_merge_kw _ = false

  abbrev pub is_limit_kw : Token F → Bool
  is_limit_kw limit_kw = true
  is_limit_kw _ = false

  abbrev pub is_and_kw : Token F → Bool
  is_and_kw and_kw = true
  is_and_kw _ = false

  abbrev pub is_or_kw : Token F → Bool
  is_or_kw or_kw = true
  is_or_kw _ = false

  abbrev pub is_not_kw : Token F → Bool
  is_not_kw not_kw = true
  is_not_kw _ = false

  abbrev pub is_count_kw : Token F → Bool
  is_count_kw count_kw = true
  is_count_kw _ = false

  abbrev pub is_as_kw : Token F → Bool
  is_as_kw as_kw = true
  is_as_kw _ = false

  abbrev pub is_l_paren : Token F → Bool
  is_l_paren l_paren = true
  is_l_paren _ = false

  abbrev pub is_r_paren : Token F → Bool
  is_r_paren r_paren = true
  is_r_paren _ = false

  abbrev pub is_l_bracket : Token F → Bool
  is_l_bracket l_bracket = true
  is_l_bracket _ = false

  abbrev pub is_r_bracket : Token F → Bool
  is_r_bracket r_bracket = true
  is_r_bracket _ = false

  abbrev pub is_l_brace : Token F → Bool
  is_l_brace l_brace = true
  is_l_brace _ = false

  abbrev pub is_r_brace : Token F → Bool
  is_r_brace r_brace = true
  is_r_brace _ = false

  abbrev pub is_colon : Token F → Bool
  is_colon colon = true
  is_colon _ = false

  abbrev pub is_comma : Token F → Bool
  is_comma comma = true
  is_comma _ = false

  abbrev pub is_dot : Token F → Bool
  is_dot dot = true
  is_dot _ = false

  abbrev pub is_arrow : Token F → Bool
  is_arrow arrow = true
  is_arrow _ = false

  abbrev pub is_dash : Token F → Bool
  is_dash dash = true
  is_dash _ = false

  abbrev pub is_lt_sign : Token F → Bool
  is_lt_sign lt_sign = true
  is_lt_sign _ = false

  abbrev pub is_eof : Token F → Bool
  is_eof eof = true
  is_eof _ = false

  abbrev pub is_ident : Token F → Bool
  is_ident (ident s) = true
  is_ident _ = false
