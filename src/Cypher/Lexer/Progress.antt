-- ===== src/Cypher/Lexer/Progress.antt =====
-- Every token takes the character that it starts with.
use gemgraph.Base.{
  ℕ, suc, ◌≡◌, ◌≤◌, refl, Bool, true, false, not, ◌||◌, ◌&&◌, List, [], ◌∷◌, Option, none, some,
  length, if◌then◌else◌, ◌==◌, ok, err, arith,
}
use gemgraph.Cypher.Lexer.{
  Token, arrow, dash, gte, gt_sign, Lexed, push, string_loop, number_loop, is_ascii_digit,
  ident_loop, skip_whitespace, read_number, read_ident_or_keyword, int_token, float_token,
  string_token, one_or_two, less, token_at,
}

-- What is left is no longer than a bound.
abbrev pub Leaves : {A : Type 0} → ℕ → Lexed A → Type 0
Leaves n (ok (a, rest)) = length rest ≤ n
Leaves n (err e) = Unit {0}

if-Leaves :
    {A : Type 0} (n : ℕ) (b : Bool) (x y : Lexed A)
    → (b ≡ true → Leaves n x)
    → Leaves n y
    → Leaves n (if b then x else y)
if-Leaves n true x y h k = h refl
if-Leaves n false x y h k = k

pub Leaves-mono : {A : Type 0} (m n : ℕ) (x : Lexed A) → m ≤ n → Leaves m x → Leaves n x
Leaves-mono m n (ok (a, rest)) h k = omega arith
Leaves-mono m n (err e) h k = tt

push-Leaves : (n c : ℕ) (x : Lexed (List ℕ)) → Leaves n x → Leaves n (push c x)
push-Leaves n c (ok (s, rest)) h = h
push-Leaves n c (err e) h = tt

string_loop-Leaves :
    (quote : ℕ) (escaped : Bool) (cs : List ℕ) → Leaves (length cs) (string_loop quote escaped cs)
unfolding string_loop
string_loop-Leaves quote escaped [] = tt
string_loop-Leaves quote escaped (c ∷ cs) =
    let r = string_loop quote (not escaped && (c == b'\\')) cs in
    let n = length cs in
    let h : Leaves (suc n) r =
      Leaves-mono n (suc n) r (omega arith)
        (string_loop-Leaves quote (not escaped && (c == b'\\')) cs) in
    let p = push-Leaves (suc n) c r h in
    if-Leaves (suc n) escaped (push c r) _ (λ _. p)
      (if-Leaves (suc n) (c == quote) (ok ([], cs)) _ (λ _. omega arith)
        (if-Leaves (suc n) (c == b'\\') r (push c r) (λ _. h) p))

number_loop-length :
    (is_float : Bool) (cs : List ℕ) → length (number_loop is_float cs).2 ≤ length cs
unfolding number_loop
number_loop-length is_float [] = omega arith
number_loop-length is_float (c ∷ cs) =
    ground (arith, number_loop-length (is_float || (c == b'.')) cs)

module _ (F : Type 0) (parse_f64 : List ℕ → Option F)
    (is_whitespace is_alphabetic is_alphanumeric : ℕ → Bool) (to_uppercase : List ℕ → List ℕ)
    (alphabetic : (c : ℕ) → is_alphabetic c ≡ true → is_alphanumeric c ≡ true) where
  pub skip-length :
      (cs : List ℕ)
      → length
          (skip_whitespace F parse_f64 is_whitespace is_alphabetic is_alphanumeric to_uppercase cs)
        ≤ length cs
  unfolding skip_whitespace
  skip-length [] = omega arith
  skip-length (c ∷ cs) = ground (arith, skip-length cs)

  ident_loop-length :
      (cs : List ℕ)
      → length
          (ident_loop F parse_f64 is_whitespace is_alphabetic is_alphanumeric to_uppercase cs).1
        ≤ length cs
  unfolding ident_loop
  ident_loop-length [] = omega arith
  ident_loop-length (c ∷ cs) = ground (arith, ident_loop-length cs)

  string_token-Leaves :
      (n : ℕ) (x : Lexed (List ℕ))
      → Leaves n x
      → Leaves n
          (string_token F parse_f64 is_whitespace is_alphabetic is_alphanumeric to_uppercase x)
  string_token-Leaves n (ok (s, rest)) h = h
  string_token-Leaves n (err e) h = tt

  int_token-Leaves :
      (n : ℕ) (o : Option ℕ) (rest : List ℕ)
      → length rest ≤ n
      → Leaves n
          (int_token F parse_f64 is_whitespace is_alphabetic is_alphanumeric to_uppercase o rest)
  int_token-Leaves n none rest h = tt
  int_token-Leaves n (some v) rest h = h

  float_token-Leaves :
      (n : ℕ) (o : Option F) (rest : List ℕ)
      → length rest ≤ n
      → Leaves n
          (float_token F parse_f64 is_whitespace is_alphabetic is_alphanumeric to_uppercase o rest)
  float_token-Leaves n none rest h = tt
  float_token-Leaves n (some v) rest h = h

  read_number-Leaves :
      (c : ℕ) (cs : List ℕ)
      → is_ascii_digit c ≡ true
      → Leaves (length cs) (
          read_number F parse_f64 is_whitespace is_alphabetic is_alphanumeric to_uppercase (c ∷ cs))
  unfolding read_number number_loop
  read_number-Leaves c cs digit =
      let h = number_loop-length (c == b'.') cs in
      rw digit (
        if-Leaves (length cs) (number_loop (c == b'.') cs).1
          (float_token F parse_f64 is_whitespace is_alphabetic is_alphanumeric to_uppercase
            (parse_f64 (c ∷ (number_loop (c == b'.') cs).0)) (number_loop (c == b'.') cs).2)
          _ (λ _. float_token-Leaves (length cs) _ _ h) (int_token-Leaves (length cs) _ _ h))

  read_ident-Leaves :
      (c : ℕ) (cs : List ℕ)
      → (is_alphabetic c || (c == b'_')) ≡ true
      → Leaves (length cs) (
          read_ident_or_keyword F parse_f64 is_whitespace is_alphabetic is_alphanumeric to_uppercase
            (c ∷ cs))
  unfolding read_ident_or_keyword ident_loop
  read_ident-Leaves c cs start = ground (arith, alphabetic c, ident_loop-length cs)

  one_or_two-Leaves :
      (second : ℕ) (two one : Token F) (cs : List ℕ)
      → Leaves (length cs) (
          one_or_two F parse_f64 is_whitespace is_alphabetic is_alphanumeric to_uppercase second two
            one cs)
  one_or_two-Leaves second two one [] = omega arith
  one_or_two-Leaves second two one (c ∷ cs) =
      if-Leaves (suc (length cs)) (c == second) (ok (two, cs)) (ok (one, c ∷ cs)) (λ _. omega arith)
        (omega arith)

  less-Leaves :
      (cs : List ℕ)
      → Leaves
          (length cs)
          (less F parse_f64 is_whitespace is_alphabetic is_alphanumeric to_uppercase cs)
  less-Leaves [] = omega arith
  less-Leaves (c ∷ cs) =
      if-Leaves (suc (length cs)) (c == b'=') _ _ (λ _. omega arith)
        (if-Leaves (suc (length cs)) (c == b'>') _ _ (λ _. omega arith) (omega arith))

  -- A token takes the character that it starts with.
  pub token_at-Leaves :
      (c : ℕ) (cs : List ℕ)
      → Leaves
          (length cs)
          (token_at F parse_f64 is_whitespace is_alphabetic is_alphanumeric to_uppercase c cs)
  unfolding token_at
  token_at-Leaves c cs =
      let n = length cs in
      let same : length cs ≤ n = omega arith in
      if-Leaves n (c == b'(') _ _ (λ _. same)
        (if-Leaves n (c == b')') _ _ (λ _. same)
          (if-Leaves n (c == b'[') _ _ (λ _. same)
            (if-Leaves n (c == b']') _ _ (λ _. same)
              (if-Leaves n (c == b'{') _ _ (λ _. same)
                (if-Leaves n (c == b'}') _ _ (λ _. same)
                  (if-Leaves n (c == b':') _ _ (λ _. same)
                    (if-Leaves n (c == b',') _ _ (λ _. same)
                      (if-Leaves n (c == b'.') _ _ (λ _. same)
                        (if-Leaves n (c == b'=') _ _ (λ _. same)
                          (if-Leaves n (c == b'-') _ _ (λ _. one_or_two-Leaves b'>' arrow dash cs)
                            (if-Leaves n (c == b'>') _ _
                              (λ _. one_or_two-Leaves b'=' gte gt_sign cs)
                              (if-Leaves n (c == b'<') _ _ (λ _. less-Leaves cs)
                                (if-Leaves n (c == 39) _ _
                                  (λ _. string_token-Leaves n _ (string_loop-Leaves 39 false cs))
                                  (if-Leaves n (c == b'"') _ _
                                    (λ _.
                                      string_token-Leaves n _ (string_loop-Leaves b'"' false cs))
                                    (if-Leaves n (is_ascii_digit c) _ _
                                      (λ d. read_number-Leaves c cs d)
                                      (if-Leaves n (is_alphabetic c || (c == b'_')) _ _
                                        (λ d. read_ident-Leaves c cs d) tt))))))))))))))))
