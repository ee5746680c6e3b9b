-- ===== src/Examples/Parser.antt =====
-- Token streams as the `syn` crate would show them, for a few texts.
use rtfm.Common.{
  ℕ, suc, ◌<◌, ◌≡◌, ◌≢◌, ap, ◌∙◌, Bool, true, false, List, [], ◌∷◌, String, string_eq, ◌==◌, length,
  arith, if◌then◌else◌,
}
use rtfm.Macro.Result.{
  Result, ok, err, panic, ◌>>=◌, >>=-eq-ok, >>=-ne-panic, ok-injective, syntax_error,
}
use rtfm.Macro.Parse.Tokens.{ParseStream}
use rtfm.Macro.Parse.Body.{is_nil}

pub data Token : Type 0 where
  word : String → Token
  number : ℕ → Token
  equals : Token
  comma : Token
  lparen : Token
  rparen : Token
  lbracket : Token
  rbracket : Token

abbrev Tokens : Type 0
Tokens = List Token

abbrev ident : Tokens → Result (String × Tokens)
ident (word x ∷ s) = ok (x, s)
ident s = err syntax_error

abbrev an_equals : Tokens → Result (Unit {0} × Tokens)
an_equals (equals ∷ s) = ok (tt, s)
an_equals s = err syntax_error

abbrev a_comma : Tokens → Result (Unit {0} × Tokens)
a_comma (comma ∷ s) = ok (tt, s)
a_comma s = err syntax_error

abbrev lit_int : Tokens → Result ((ℕ × Bool) × Tokens)
lit_int (number n ∷ s) = ok ((n, true), s)
lit_int s = err syntax_error

abbrev path : Tokens → Result (List String × Tokens)
path (word x ∷ s) = ok (x ∷ [], s)
path s = err syntax_error

abbrev to_rparen : Tokens → Result (Tokens × Tokens)
to_rparen [] = err syntax_error
to_rparen (rparen ∷ s) = ok ([], s)
to_rparen (t ∷ s) = to_rparen s >>= λ x. ok (t ∷ x.0, x.1)

abbrev to_rbracket : Tokens → Result (Tokens × Tokens)
to_rbracket [] = err syntax_error
to_rbracket (rbracket ∷ s) = ok ([], s)
to_rbracket (t ∷ s) = to_rbracket s >>= λ x. ok (t ∷ x.0, x.1)

abbrev in_parens : Tokens → Result (Tokens × Tokens)
in_parens (lparen ∷ s) = to_rparen s
in_parens s = err syntax_error

abbrev in_brackets : Tokens → Result (Tokens × Tokens)
in_brackets (lbracket ∷ s) = to_rbracket s
in_brackets s = err syntax_error

-- Names with a comma after each, where the last one is optional.
abbrev names : Bool → Tokens → Result (List String)
names b [] = ok []
names true (comma ∷ s) = names false s
names false (word x ∷ s) = names true s >>= λ xs. ok (x ∷ xs)
names b s = err syntax_error

abbrev sys_tick_args : String
sys_tick_args = "(priority = 2, resources = [count])"

abbrev blink_args : String
blink_args = "(capacity = 3, spawn = [log,])"

abbrev pub sys_tick_tokens : Tokens
sys_tick_tokens =
    lparen
    ∷ word "priority"
    ∷ equals
    ∷ number 2
    ∷ comma
    ∷ word "resources"
    ∷ equals
    ∷ lbracket
    ∷ word "count"
    ∷ rbracket
    ∷ rparen
    ∷ []

abbrev pub blink_tokens : Tokens
blink_tokens =
    lparen
    ∷ word "capacity"
    ∷ equals
    ∷ number 3
    ∷ comma
    ∷ word "spawn"
    ∷ equals
    ∷ lbracket
    ∷ word "log"
    ∷ comma
    ∷ rbracket
    ∷ rparen
    ∷ []

-- The tokens of the texts that the examples use.
abbrev scan : String → Tokens
scan text =
    if text == sys_tick_args
    then sys_tick_tokens
    else if text == blink_args
    then blink_tokens
    else []

abbrev finish : {A : Type 0} → A × Tokens → Result A
finish (a, []) = ok a
finish (a, t ∷ s) = err syntax_error

abbrev with_token : Token → Tokens × Tokens → Result (Tokens × Tokens)
with_token t x = ok (t ∷ x.0, x.1)

shrinks :
    (n : ℕ) (t : Token) (o : Result (Tokens × Tokens)) (s' c : Tokens)
    → ((x : Tokens × Tokens) → o ≡ ok x → length x.1 < n)
    → (o >>= with_token t) ≡ ok (c, s')
    → length s' < suc n
shrinks n t o s' c ih h =
    let (x, p, e) = >>=-eq-ok o _ h in omega (arith, ap (λ z. length z.1) (ok-injective e), ih x p)

to_rbracket-lt : (s s' c : Tokens) → to_rbracket s ≡ ok (c, s') → length s' < length s
to_rbracket-lt [] s' c h = cc
to_rbracket-lt (rbracket ∷ s) s' c h =
    omega (arith, ap (λ (z : Tokens × Tokens). length z.1) (ok-injective h))
to_rbracket-lt (t ∷ s) s' c h =
    shrinks (length s) t (to_rbracket s) s' c (λ x p. to_rbracket-lt s x.1 x.0 p) h

to_rbracket-ne-panic : (s : Tokens) → to_rbracket s ≢ panic
to_rbracket-ne-panic [] h = cc
to_rbracket-ne-panic (rbracket ∷ s) h = cc
to_rbracket-ne-panic (t ∷ s) h =
    >>=-ne-panic (to_rbracket s) _ (to_rbracket-ne-panic s) (λ x _ e. cc) h

to_rparen-ne-panic : (s : Tokens) → to_rparen s ≢ panic
to_rparen-ne-panic [] h = cc
to_rparen-ne-panic (rparen ∷ s) h = cc
to_rparen-ne-panic (t ∷ s) h = >>=-ne-panic (to_rparen s) _ (to_rparen-ne-panic s) (λ x _ e. cc) h

pub in_brackets-lt : (s s' c : Tokens) → in_brackets s ≡ ok (c, s') → length s' < length s
in_brackets-lt (lbracket ∷ s) s' c h = omega (arith, to_rbracket-lt s s' c h)
in_brackets-lt s s' c h = cc

pub in_brackets-ne-panic : (s : Tokens) → in_brackets s ≢ panic
in_brackets-ne-panic (lbracket ∷ s) h = to_rbracket-ne-panic s h
in_brackets-ne-panic s h = cc

pub in_parens-ne-panic : (s : Tokens) → in_parens s ≢ panic
in_parens-ne-panic (lparen ∷ s) h = to_rparen-ne-panic s h
in_parens-ne-panic s h = cc

pub names-ne-panic : (b : Bool) (s : Tokens) → names b s ≢ panic
names-ne-panic true [] h = cc
names-ne-panic false [] h = cc
names-ne-panic true (comma ∷ s) h = names-ne-panic false s h
names-ne-panic false (word x ∷ s) h =
    >>=-ne-panic (names true s) _ (names-ne-panic true s) (λ xs _ e. cc) h
names-ne-panic b s h = cc

pub ident-lt : (s s' : Tokens) (x : String) → ident s ≡ ok (x, s') → length s' < length s
ident-lt (word y ∷ s) s' x h =
    omega (arith, ap (λ (z : String × Tokens). length z.1) (ok-injective h))
ident-lt s s' x h = cc

pub equals-lt : (s s' : Tokens) (u : Unit {0}) → an_equals s ≡ ok (u, s') → length s' < length s
equals-lt (equals ∷ s) s' x h =
    omega (arith, ap (λ (z : Unit {0} × Tokens). length z.1) (ok-injective h))
equals-lt s s' x h = cc

pub comma-lt : (s s' : Tokens) (u : Unit {0}) → a_comma s ≡ ok (u, s') → length s' < length s
comma-lt (comma ∷ s) s' x h =
    omega (arith, ap (λ (z : Unit {0} × Tokens). length z.1) (ok-injective h))
comma-lt s s' x h = cc

pub lit_int-lt : (s s' : Tokens) (x : ℕ × Bool) → lit_int s ≡ ok (x, s') → length s' < length s
lit_int-lt (number n ∷ s) s' x h =
    omega (arith, ap (λ (z : (ℕ × Bool) × Tokens). length z.1) (ok-injective h))
lit_int-lt s s' x h = cc

pub path-lt : (s s' : Tokens) (x : List String) → path s ≡ ok (x, s') → length s' < length s
path-lt (word y ∷ s) s' x h =
    omega (arith, ap (λ (z : List String × Tokens). length z.1) (ok-injective h))
path-lt s s' x h = cc

pub ident-ne-panic : (s : Tokens) → ident s ≢ panic
ident-ne-panic (word x ∷ s) h = cc
ident-ne-panic s h = cc

pub equals-ne-panic : (s : Tokens) → an_equals s ≢ panic
equals-ne-panic (equals ∷ s) h = cc
equals-ne-panic s h = cc

pub comma-ne-panic : (s : Tokens) → a_comma s ≢ panic
comma-ne-panic (comma ∷ s) h = cc
comma-ne-panic s h = cc

pub lit_int-ne-panic : (s : Tokens) → lit_int s ≢ panic
lit_int-ne-panic (number n ∷ s) h = cc
lit_int-ne-panic s h = cc

pub path-ne-panic : (s : Tokens) → path s ≢ panic
path-ne-panic (word x ∷ s) h = cc
path-ne-panic s h = cc

finish→ : {A : Type 0} (b : A) (rest : Tokens) (a : A) → finish (b, rest) ≡ ok a → b ≡ a
finish→ b [] a e = ok-injective e
finish→ b (t ∷ rest) a e = cc

pub finished :
    {A : Type 0} (p : Tokens → Result (A × Tokens)) (text : String) (a : A)
    → (p (scan text) >>= finish) ≡ ok a
    → (rest : Tokens) × (p (scan text) ≡ ok (a, rest))
finished p text a h =
    let (x, q, e) = >>=-eq-ok (p (scan text)) finish h in
    (x.1, q ∙ ap (λ c. ok (c, x.1)) (finish→ x.0 x.1 a e))

abbrev pub scanner : ParseStream
scanner = record {
  Stream = Tokens;
  is_empty = is_nil;
  size = length;
  parse_ident = ident;
  parse_eq = an_equals;
  parse_comma = a_comma;
  parse_lit_int = lit_int;
  parse_path = path;
  parenthesized = in_parens;
  bracketed = in_brackets;
  parse_terminated = names false;
  tokens = scan;
  parse2 = λ p text. p (scan text) >>= finish;
  parse2-eq-ok = finished;
  size-ident = ident-lt;
  size-eq = equals-lt;
  size-comma = comma-lt;
  size-lit_int = lit_int-lt;
  size-path = path-lt;
  size-bracketed = in_brackets-lt;
  ident-ne-panic = ident-ne-panic;
  eq-ne-panic = equals-ne-panic;
  comma-ne-panic = comma-ne-panic;
  lit_int-ne-panic = lit_int-ne-panic;
  path-ne-panic = path-ne-panic;
  parenthesized-ne-panic = in_parens-ne-panic;
  bracketed-ne-panic = in_brackets-ne-panic;
  terminated-ne-panic = names-ne-panic false;
}
