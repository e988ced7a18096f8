-- ===== src/Cypher/Lexer/Total.antt =====
-- The lexer returns on every input.
use gemgraph.Base.{
  ℕ, zero, suc, ◌≡◌, ◌≢◌, ◌≤◌, ◌<◌, ◌-◌, refl, Bool, true, false, List, [], ◌∷◌, Option, none, some,
  length, if◌then◌else◌, Result, ok, err, arith,
}
use gemgraph.Cypher.Lexer.{
  Token, CypherError, Lexed, skip_whitespace, token_at, token_or_eof, next_token, push_token,
  is_eof, tokenize_loop, tokenize,
}
use gemgraph.Cypher.Lexer.Progress.{Leaves, Leaves-mono, skip-length, token_at-Leaves}

module _ (F : Type 0) (parse_f64 : List ℕ → Option F)
    (is_whitespace is_alphabetic is_alphanumeric : ℕ → Bool) (to_uppercase : List ℕ → List ℕ)
    (alphabetic : (c : ℕ) → is_alphabetic c ≡ true → is_alphanumeric c ≡ true) where
  push_token-some :
      (t : Token F) (o : Option (Result (List (Token F)) CypherError))
      → o ≢ none
      → push_token F parse_f64 is_whitespace is_alphabetic is_alphanumeric to_uppercase t o ≢ none
  push_token-some t none h = λ _. h refl
  push_token-some t (some (ok ts)) h = λ e. cc e
  push_token-some t (some (err x)) h = λ e. cc e

  tokenize_loop-some :
      (fuel : ℕ) (cs : List ℕ)
      → length cs < fuel
      → tokenize_loop F parse_f64 is_whitespace is_alphabetic is_alphanumeric to_uppercase fuel cs
        ≢ none
  unfolding tokenize_loop next_token
  tokenize_loop-some zero cs h = absurd (omega arith)
  tokenize_loop-some (suc fuel) cs h =
      by_start
        (skip_whitespace F parse_f64 is_whitespace is_alphabetic is_alphanumeric to_uppercase cs)
        (skip-length F parse_f64 is_whitespace is_alphabetic is_alphanumeric to_uppercase alphabetic
          cs)
        (λ rest k. tokenize_loop-some fuel rest k)
    where
      by_token :
          (r : Lexed (Token F))
          → Leaves (length cs - 1) r
          → 0 < length cs
          → ((rest : List ℕ)
              → length rest < fuel
              → tokenize_loop F parse_f64 is_whitespace is_alphabetic is_alphanumeric to_uppercase
                  fuel rest
                ≢ none)
          → elim r [
            | err e ↦ some (err e)
            | ok (t, rest) ↦
                push_token F parse_f64 is_whitespace is_alphabetic is_alphanumeric to_uppercase t (
                  if is_eof F parse_f64 is_whitespace is_alphabetic is_alphanumeric to_uppercase t
                  then some (ok [])
                  else tokenize_loop F parse_f64 is_whitespace is_alphabetic is_alphanumeric
                      to_uppercase fuel rest)
          ]
            ≢ none
      by_token (err e) l pos later = λ e. cc e
      by_token (ok (t, rest)) l pos later = push_token-some t _ (
          by_eof (is_eof F parse_f64 is_whitespace is_alphabetic is_alphanumeric to_uppercase t)
            (later rest (omega arith)))
        where
          by_eof :
              (b : Bool)
              → tokenize_loop F parse_f64 is_whitespace is_alphabetic is_alphanumeric to_uppercase
                  fuel rest
                ≢ none
              → (if b
                  then some (ok [])
                  else tokenize_loop F parse_f64 is_whitespace is_alphabetic is_alphanumeric
                      to_uppercase fuel rest)
                ≢ none
          by_eof true k = λ e. cc e
          by_eof false k = k

      by_start :
          (start : List ℕ)
          → length start ≤ length cs
          → ((rest : List ℕ)
              → length rest < fuel
              → tokenize_loop F parse_f64 is_whitespace is_alphabetic is_alphanumeric to_uppercase
                  fuel rest
                ≢ none)
          → elim (token_or_eof F parse_f64 is_whitespace is_alphabetic is_alphanumeric to_uppercase
              start) [
                | err e ↦ some (err e)
                | ok (t, rest) ↦
                    push_token F parse_f64 is_whitespace is_alphabetic is_alphanumeric to_uppercase
                      t
                      (if is_eof F parse_f64 is_whitespace is_alphabetic is_alphanumeric
                          to_uppercase t
                        then some (ok [])
                        else tokenize_loop F parse_f64 is_whitespace is_alphabetic is_alphanumeric
                            to_uppercase fuel rest)
              ]
            ≢ none
      by_start [] l later = λ e. cc e
      by_start (c ∷ start) l later =
          by_token
            (token_at F parse_f64 is_whitespace is_alphabetic is_alphanumeric to_uppercase c start)
            (Leaves-mono (length start) (length cs - 1) _ (omega arith) (
              token_at-Leaves F parse_f64 is_whitespace is_alphabetic is_alphanumeric to_uppercase
                alphabetic c start))
            (omega arith) later

  -- The lexer returns the tokens or an error on every input.
  pub tokenize-total :
      (cs : List ℕ)
      → tokenize F parse_f64 is_whitespace is_alphabetic is_alphanumeric to_uppercase cs ≢ none
  unfolding tokenize
  tokenize-total cs = tokenize_loop-some (suc (length cs)) cs (omega arith)
