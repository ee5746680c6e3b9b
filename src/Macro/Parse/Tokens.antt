-- ===== src/Macro/Parse/Tokens.antt =====
-- `ParseStream` of the `syn` crate, as macros/src/syntax.rs uses it. A parser that fails returns
-- `syn`'s own error; one that succeeds has consumed some tokens.
use rtfm.Common.{ℕ, ◌<◌, ◌≡◌, ◌≢◌, Bool, List, String}
use rtfm.Macro.Result.{Result, ok, panic}

pub record ParseStream : Type 1 where
  pub Stream : Type 0
  pub is_empty : Stream → Bool
  -- The tokens that are left.
  pub size : Stream → ℕ
  pub parse_ident : Stream → Result (String × Stream)
  -- `Token![=]` and `Token![,]`.
  pub parse_eq : Stream → Result (Unit {0} × Stream)
  pub parse_comma : Stream → Result (Unit {0} × Stream)
  -- A `LitInt`: its value, and whether it has no suffix.
  pub parse_lit_int : Stream → Result ((ℕ × Bool) × Stream)
  -- A `Path` by its segments.
  pub parse_path : Stream → Result (List String × Stream)
  -- `parenthesized!` and `bracketed!`: the content, and what is behind it.
  pub parenthesized : Stream → Result (Stream × Stream)
  pub bracketed : Stream → Result (Stream × Stream)
  -- `Punctuated::<Ident, Token![,]>::parse_terminated`, which consumes the whole stream.
  pub parse_terminated : Stream → Result (List String)
  -- `syn::parse2` on the tokens that a text stands for.
  pub tokens : String → Stream
  pub parse2 : {A : Type 0} → (Stream → Result (A × Stream)) → String → Result A
  pub parse2-eq-ok :
      {A : Type 0} (p : Stream → Result (A × Stream)) (text : String) (a : A)
      → parse2 p text ≡ ok a
      → (rest : Stream) × (p (tokens text) ≡ ok (a, rest))
  pub size-ident : (s s' : Stream) (x : String) → parse_ident s ≡ ok (x, s') → size s' < size s
  pub size-eq : (s s' : Stream) (u : Unit {0}) → parse_eq s ≡ ok (u, s') → size s' < size s
  pub size-comma : (s s' : Stream) (u : Unit {0}) → parse_comma s ≡ ok (u, s') → size s' < size s
  pub size-lit_int :
      (s s' : Stream) (x : ℕ × Bool) → parse_lit_int s ≡ ok (x, s') → size s' < size s
  pub size-path : (s s' : Stream) (x : List String) → parse_path s ≡ ok (x, s') → size s' < size s
  pub size-bracketed : (s s' c : Stream) → bracketed s ≡ ok (c, s') → size s' < size s
  pub ident-ne-panic : (s : Stream) → parse_ident s ≢ panic
  pub eq-ne-panic : (s : Stream) → parse_eq s ≢ panic
  pub comma-ne-panic : (s : Stream) → parse_comma s ≢ panic
  pub lit_int-ne-panic : (s : Stream) → parse_lit_int s ≢ panic
  pub path-ne-panic : (s : Stream) → parse_path s ≢ panic
  pub parenthesized-ne-panic : (s : Stream) → parenthesized s ≢ panic
  pub bracketed-ne-panic : (s : Stream) → bracketed s ≢ panic
  pub terminated-ne-panic : (s : Stream) → parse_terminated s ≢ panic
